-- ===== src/Examples/Stores.antt =====
-- Examples on the store.
use quantalithos_bus.Base.{ℕ, ◌≡◌, refl, ◌↔◌, inl, true, false, none, some, List, [], ◌∷◌, ok, err}
use quantalithos_bus.Base.Text.{text_eq}
use quantalithos_bus.Base.Maps.{id_key, text_key, get, contains_key}
use quantalithos_bus.Contracts.Metadata.{DeliveryId}
use quantalithos_bus.Application.Ports.{UnitOfWorkPurpose, UnitOfWorkHandle, UnitOfWorkError}
use quantalithos_bus.Contracts.Status.{DeliveryStatus}
use quantalithos_bus.Infra.Store.{MemoryStore, store_new, staged_new}
use quantalithos_bus.Infra.Store.Transactions.{
  begin_transaction, commit_transaction, rollback_transaction,
}
use quantalithos_bus.Infra.Store.Staging.{stage_delivery_save}
use quantalithos_bus.Infra.Store.Queries.{delivery}
use quantalithos_bus.Infra.Store.Calls.{StageCall, saves_delivery, stage_all}
use quantalithos_bus.Infra.Store.Isolation.{Within, stage_all-Within}
use quantalithos_bus.Infra.Store.Closing.{rollback_discards, is_issued, closed_once}
use quantalithos_bus.Infra.Store.Consistency.{
  begins, stages, commits, seeds_delivery, Consistent, store_run, store_new-run-Consistent,
}
use quantalithos_bus.Infra.Store.Saving.{saved, save_in_one, save_in_one-stores}
use quantalithos_bus.Infra.Store.Racing.{race, race-loses_first, stage_delivery_save_iff}
use quantalithos_bus.Examples.Fixtures.{text_core, scheduled_delivery, with_status}

abbrev first_handle : UnitOfWorkHandle
first_handle = record { transaction_id = 1; purpose = UnitOfWorkPurpose.run_delivery_progression }

abbrev second_handle : UnitOfWorkHandle
second_handle = record { transaction_id = 2; purpose = UnitOfWorkPurpose.record_delivery_feedback }

-- A store with one delivery at version 1 and two open transactions.
abbrev seeded : MemoryStore
seeded = record store_new {
  next_transaction_id = 2;
  deliveries = (scheduled_delivery.delivery_id, record scheduled_delivery { version = 1 }) ∷ [];
  delivery_versions = (scheduled_delivery.delivery_id, 1) ∷ [];
  transactions = (1, staged_new first_handle.purpose) ∷ (2, staged_new second_handle.purpose) ∷ [];
}

abbrev save_one : StageCall
save_one = saves_delivery (with_status DeliveryStatus.failed) 1

abbrev save : List StageCall
save = save_one ∷ []

stage_all-Within_example : Within 1 seeded (stage_all seeded 1 save)
stage_all-Within_example = stage_all-Within seeded 1 save

rollback_discards_example :
    let handle : UnitOfWorkHandle = record { transaction_id = 3; purpose = first_handle.purpose } in
    let (after, outcome) =
      rollback_transaction
        (stage_all (begin_transaction seeded first_handle.purpose).0 3 save)
        handle in
    (outcome ≡ ok tt)
    × (record after { transactions = seeded.transactions; next_transaction_id = 2 } ≡ seeded)
    × ((j : ℕ) → id_key.same j 3 ≡ false → get j after.transactions ≡ get j seeded.transactions)
    × (get 3 after.transactions ≡ none)
rollback_discards_example = rollback_discards seeded first_handle.purpose save

closed_once_example :
    let closed = (commit_transaction seeded first_handle).0 in
    let later = store_run closed (begins first_handle.purpose ∷ stages 1 save_one ∷ []) in
    ((commit_transaction later first_handle).1 ≡ err UnitOfWorkError.invalid_handle)
    × ((rollback_transaction later first_handle).1 ≡ err UnitOfWorkError.invalid_handle)
unfolding is_issued
closed_once_example =
    closed_once seeded first_handle (commit_transaction seeded first_handle).0
      (begins first_handle.purpose ∷ stages 1 save_one ∷ []) (inl refl) refl

store_new-run-Consistent_example : Consistent (
    store_run store_new (
      seeds_delivery scheduled_delivery
      ∷ begins first_handle.purpose
      ∷ stages 1 (saves_delivery (with_status DeliveryStatus.failed) 1)
      ∷ commits first_handle
      ∷ []))
store_new-run-Consistent_example = store_new-run-Consistent (
    seeds_delivery scheduled_delivery
    ∷ begins first_handle.purpose
    ∷ stages 1 (saves_delivery (with_status DeliveryStatus.failed) 1)
    ∷ commits first_handle
    ∷ [])

save_in_one-stores_example :
    let d = with_status DeliveryStatus.failed in
    let (after, version, receipt) = save_in_one seeded first_handle.purpose d 1 in
    (version ≡ ok 2)
    × (receipt ≡ ok (record { transaction_id = 3 }))
    × (delivery after d.delivery_id ≡ some (saved d 1))
    × (get d.delivery_id after.delivery_versions ≡ some 2)
    × ((k : DeliveryId) → text_eq k d.delivery_id ≡ false → delivery after k ≡ delivery seeded k)
unfolding get text_eq
save_in_one-stores_example =
    save_in_one-stores seeded first_handle.purpose (with_status DeliveryStatus.failed) 1 refl

race-loses_first_example :
    let d = with_status DeliveryStatus.failed in
    let outcome = race seeded first_handle second_handle d scheduled_delivery 1 in
    (outcome.first_staged ≡ ok 2)
    × (outcome.second_staged ≡ ok 2)
    × (outcome.first_committed ≡ ok (record { transaction_id = 1 }))
    × (outcome.second_committed ≡ ok (record { transaction_id = 2 }))
    × (delivery outcome.after d.delivery_id ≡ some (saved scheduled_delivery 1))
unfolding get text_eq
race-loses_first_example =
    race-loses_first seeded first_handle second_handle (with_status DeliveryStatus.failed)
      scheduled_delivery 1 refl refl refl refl refl

stage_delivery_save_iff_example : ((stage_delivery_save seeded 1 scheduled_delivery 1).1 ≡ ok 2) ↔ (
    (get scheduled_delivery.delivery_id seeded.delivery_versions ≡ some 1)
    × (contains_key 1 seeded.transactions ≡ true))
stage_delivery_save_iff_example = stage_delivery_save_iff seeded 1 scheduled_delivery 1
