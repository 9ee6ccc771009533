-- ===== src/Infra/Store/Racing.antt =====
-- Saves of one delivery in two transactions.
use quantalithos_bus.Base.{
  ℕ, ◌≡◌, refl, ◌↔◌, true, false, some, arith, ap, subst, ◌∙◌, inl, inr, Option-cases, Result, ok,
}
use quantalithos_bus.Base.Maps.{
  get-insert, get-insert_other, get-remove_other, get, insert, remove, contains_key, insert_all,
  text_key, id_key, pair_key,
}
use quantalithos_bus.Contracts.Core.{Core}
use quantalithos_bus.Application.Ports.{
  UnitOfWorkHandle, CommitReceipt, RepositoryError, UnitOfWorkError,
}
use quantalithos_bus.Domain.Delivery.{DeliveryRecord}
use quantalithos_bus.Infra.Store.{MemoryStore, StagedTransaction, staged_new}
use quantalithos_bus.Infra.Store.Staging.{with_staged}
use quantalithos_bus.Infra.Store.Transactions.{commit_transaction, commit_staged}
use quantalithos_bus.Infra.Store.Staging.{store_staged, with_found, save_found, stage_delivery_save}
use quantalithos_bus.Infra.Store.Queries.{delivery}
use quantalithos_bus.Infra.Store.Saving.{
  saved, with_delivery, stage_delivery_save-open, commit_transaction-open,
}

module _ ⦃core : Core⦄ where
  open core use {Version, version_eq_iff, next_version}

  -- Two open transactions stage a save of a delivery at the same expected version, then commit in turn.
  pub record Race : Type 0 where
    pub after : MemoryStore
    pub first_staged : Result RepositoryError Version
    pub second_staged : Result RepositoryError Version
    pub first_committed : Result UnitOfWorkError CommitReceipt
    pub second_committed : Result UnitOfWorkError CommitReceipt

  unfoldable pub race :
      MemoryStore
      → UnitOfWorkHandle
      → UnitOfWorkHandle
      → DeliveryRecord
      → DeliveryRecord
      → Version
      → Race
  unfolding stage_delivery_save commit_transaction
  race s a b d e v =
      let p = stage_delivery_save s a.transaction_id d v in
      let q = stage_delivery_save p.0 b.transaction_id e v in
      let r = commit_transaction q.0 a in
      let u = commit_transaction r.0 b in
      record {
        after = u.0;
        first_staged = p.1;
        second_staged = q.1;
        first_committed = r.1;
        second_committed = u.1;
      }

  -- The commit of a transaction leaves the other one open.
  commit_staged-other :
      (s : MemoryStore) (i j : ℕ) (t u : StagedTransaction)
      → id_key.same j i ≡ false
      → get j s.transactions ≡ some u
      → get j (commit_staged (record s { transactions = remove i s.transactions }) t).transactions
        ≡ some u
  unfolding commit_staged
  commit_staged-other s i j t u ne opened = get-remove_other j i s.transactions ne ∙ opened

  -- If two transactions that have staged nothing are open, both save a delivery at its committed version and both commit, then
  -- all four calls succeed, and the store holds the second record: the first one's save is lost without an error.
  pub race-loses_first :
      (s : MemoryStore) (a b : UnitOfWorkHandle) (d e : DeliveryRecord) (v : Version)
      → get a.transaction_id s.transactions ≡ some (staged_new a.purpose)
      → get b.transaction_id s.transactions ≡ some (staged_new b.purpose)
      → id_key.same a.transaction_id b.transaction_id ≡ false
      → e.delivery_id ≡ d.delivery_id
      → get d.delivery_id s.delivery_versions ≡ some v
      → let outcome = race s a b d e v in
        (outcome.first_staged ≡ ok (next_version v))
        × (outcome.second_staged ≡ ok (next_version v))
        × (outcome.first_committed ≡ ok (record { transaction_id = a.transaction_id }))
        × (outcome.second_committed ≡ ok (record { transaction_id = b.transaction_id }))
        × (delivery outcome.after d.delivery_id ≡ some (saved e v))
  unfolding race delivery commit_staged insert_all insert staged_new
  race-loses_first s a b d e v open_a open_b ne same_id current =
      let i = a.transaction_id in
      let j = b.transaction_id in
      let ta = with_delivery (staged_new a.purpose) d v in
      let tb = with_delivery (staged_new b.purpose) e v in
      let en : id_key.same j i ≡ false = ground (arith, id_key.same_iff i j, id_key.same_iff j i) in
      let s1 = record s { transactions = insert i ta s.transactions } in
      let e1 = stage_delivery_save-open s i (staged_new a.purpose) d v open_a current in
      let open_b1 = get-insert_other j i ta s.transactions en ∙ open_b in
      let current1 : get e.delivery_id s1.delivery_versions ≡ some v =
        ap (λ k. get k s.delivery_versions) same_id ∙ current in
      let s2 = record s1 { transactions = insert j tb s1.transactions } in
      let e2 = stage_delivery_save-open s1 j (staged_new b.purpose) e v open_b1 current1 in
      let open_a2 = get-insert_other i j tb s1.transactions ne ∙ get-insert i ta s.transactions in
      let e3 = commit_transaction-open s2 a ta open_a2 in
      let s3 = commit_staged (record s2 { transactions = remove i s2.transactions }) ta in
      let open_b3 = commit_staged-other s2 i j ta tb en (get-insert j tb s1.transactions) in
      let e4 = commit_transaction-open s3 b tb open_b3 in
      let stored : get d.delivery_id (insert e.delivery_id (saved e v) s3.deliveries)
          ≡ some (saved e v) =
        subst (λ k. get k (insert e.delivery_id (saved e v) s3.deliveries) ≡ some (saved e v))
          same_id (get-insert e.delivery_id (saved e v) s3.deliveries) in
      rw (e1, e2, e3, e4) (refl, refl, refl, refl, stored)

  -- A save succeeds exactly if its transaction is open and the version it expects is the committed one.
  pub stage_delivery_save_iff :
      (s : MemoryStore) (id : ℕ) (d : DeliveryRecord) (v : Version)
      → ((stage_delivery_save s id d v).1 ≡ ok (next_version v)) ↔ (
          (get d.delivery_id s.delivery_versions ≡ some v)
          × (contains_key id s.transactions ≡ true))
  unfolding stage_delivery_save save_found with_staged with_found store_staged contains_key
  stage_delivery_save_iff s id d v = elim (Option-cases (get d.delivery_id s.delivery_versions)) [
    | inl missing ↦ rw missing (ground arith)
    | inr (w, found) ↦ elim (Option-cases (get id s.transactions)) [
      | inl closed ↦ rw (found, closed) (ground (arith, version_eq_iff w v))
      | inr (t, opened) ↦ rw (found, opened) (ground (arith, version_eq_iff w v))
    ]
  ]
