-- ===== src/Infra/Store/Saving.antt =====
-- Saving a delivery under its expected version.
use quantalithos_bus.Base.{ℕ, ◌+◌, ◌%◌, ◌≡◌, refl, true, false, some, ap, ◌∙◌, Result, ok}
use quantalithos_bus.Base.Text.{text_eq}
use quantalithos_bus.Base.Maps.{
  get-insert, get-insert_other, get, insert, remove, insert_all, text_key, id_key, pair_key,
}
use quantalithos_bus.Contracts.Core.{Core}
use quantalithos_bus.Contracts.Metadata.{DeliveryId}
use quantalithos_bus.Contracts.Projections.{u64_mod}
use quantalithos_bus.Application.Ports.{
  UnitOfWorkPurpose, UnitOfWorkHandle, CommitReceipt, RepositoryError, UnitOfWorkError,
}
use quantalithos_bus.Domain.Delivery.{DeliveryRecord}
use quantalithos_bus.Infra.Store.{MemoryStore, StagedTransaction, staged_new}
use quantalithos_bus.Infra.Store.Staging.{with_staged}
use quantalithos_bus.Infra.Store.Transactions.{
  begin_transaction, commit_transaction, commit_staged, commit_removed,
}
use quantalithos_bus.Infra.Store.Staging.{store_staged, with_found, save_found, stage_delivery_save}
use quantalithos_bus.Infra.Store.Queries.{delivery}

module _ ⦃core : Core⦄ where
  open core use {Version, version_eq, version_eq_iff, next_version}

  -- The record that a save at version `v` stages.
  abbrev pub saved : DeliveryRecord → Version → DeliveryRecord
  saved d v = record d { version = next_version v }

  abbrev pub with_delivery : StagedTransaction → DeliveryRecord → Version → StagedTransaction
  with_delivery t d v = record t { deliveries = insert d.delivery_id (saved d v) t.deliveries }

  pub stage_delivery_save-open :
      (s : MemoryStore) (id : ℕ) (t : StagedTransaction) (d : DeliveryRecord) (v : Version)
      → get id s.transactions ≡ some t
      → get d.delivery_id s.delivery_versions ≡ some v
      → stage_delivery_save s id d v ≡ (
        record s { transactions = insert id (with_delivery t d v) s.transactions },
        ok (next_version v),
      )
  unfolding stage_delivery_save save_found with_staged with_found store_staged
  stage_delivery_save-open s id t d v opened current =
      let same : version_eq v v ≡ true = (version_eq_iff v v).1 refl in
      rw (current, same, opened) refl

  pub commit_transaction-open :
      (s : MemoryStore) (handle : UnitOfWorkHandle) (t : StagedTransaction)
      → get handle.transaction_id s.transactions ≡ some t
      → commit_transaction s handle ≡ (
        commit_staged (record s { transactions = remove handle.transaction_id s.transactions }) t,
        ok (record { transaction_id = handle.transaction_id }),
      )
  unfolding commit_transaction commit_removed
  commit_transaction-open s handle t opened = rw opened refl

  -- begin, stage_delivery_save, commit.
  unfoldable pub save_in_one :
      MemoryStore
      → UnitOfWorkPurpose
      → DeliveryRecord
      → Version
      → MemoryStore × Result RepositoryError Version × Result UnitOfWorkError CommitReceipt
  unfolding begin_transaction stage_delivery_save commit_transaction
  save_in_one s purpose d v =
      let id = (s.next_transaction_id + 1) % u64_mod in
      let (begun, handle) = begin_transaction s purpose in
      let (staged, version) = stage_delivery_save begun id d v in
      let (after, receipt) =
        commit_transaction staged (record { transaction_id = id; purpose = purpose }) in
      (after, version, receipt)

  save_in_one_lem :
      (s : MemoryStore) (purpose : UnitOfWorkPurpose) (d : DeliveryRecord) (v : Version)
      → get d.delivery_id s.delivery_versions ≡ some v
      → let id = (s.next_transaction_id + 1) % u64_mod in
        let handle : UnitOfWorkHandle = record { transaction_id = id; purpose = purpose } in
        let t = with_delivery (staged_new purpose) d v in
        let begun = (begin_transaction s purpose).0 in
        let open_transactions = insert id t begun.transactions in
        save_in_one s purpose d v ≡ (
          commit_staged (record begun { transactions = remove id open_transactions }) t,
          ok (next_version v),
          ok (record { transaction_id = id }),
        )
  unfolding save_in_one begin_transaction
  save_in_one_lem s purpose d v current =
      let id = (s.next_transaction_id + 1) % u64_mod in
      let handle : UnitOfWorkHandle = record { transaction_id = id; purpose = purpose } in
      let fresh = staged_new purpose in
      let t = with_delivery fresh d v in
      let begun = (begin_transaction s purpose).0 in
      let staged = record begun { transactions = insert id t begun.transactions } in
      ap (λ p. let c = commit_transaction p.0 handle in (c.0, p.1, c.1))
        (stage_delivery_save-open begun id fresh d v (get-insert id fresh s.transactions) current)
      ∙ ap (λ c. (c.0, ok (next_version v), c.1))
          (commit_transaction-open staged handle t (get-insert id t begun.transactions))

  -- A transaction that saves a delivery at its committed version succeeds throughout: the record is stored under the
  -- next version, which is the one that later saves are compared with, and every other delivery stays.
  pub save_in_one-stores :
      (s : MemoryStore) (purpose : UnitOfWorkPurpose) (d : DeliveryRecord) (v : Version)
      → get d.delivery_id s.delivery_versions ≡ some v
      → let (after, version, receipt) = save_in_one s purpose d v in
        (version ≡ ok (next_version v))
        × (receipt ≡ ok (record { transaction_id = (s.next_transaction_id + 1) % u64_mod }))
        × (delivery after d.delivery_id ≡ some (saved d v))
        × (get d.delivery_id after.delivery_versions ≡ some (next_version v))
        × ((k : DeliveryId) → text_eq k d.delivery_id ≡ false → delivery after k ≡ delivery s k)
  unfolding begin_transaction delivery staged_new commit_staged insert_all insert
  save_in_one-stores s purpose d v current = rw (save_in_one_lem s purpose d v current) (
    refl,
    refl,
    get-insert d.delivery_id (saved d v) s.deliveries,
    get-insert d.delivery_id (next_version v) s.delivery_versions,
    λ k ne. get-insert_other k d.delivery_id (saved d v) s.deliveries ne,
  )
