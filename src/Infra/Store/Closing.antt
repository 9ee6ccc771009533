-- ===== src/Infra/Store/Closing.antt =====
-- What closing a transaction does.
use quantalithos_bus.Base.{
  ℕ, ◌+◌, ◌%◌, ◌≡◌, refl, Bool, true, false, ◌||◌, Option, none, some, List, [], ◌∷◌, arith, ap,
  sym, ◌∙◌, inl, inr, ok, err, ◌⊎◌, Bool-cases,
}
use quantalithos_bus.Base.Maps.{
  Map, is_some, contains_key-insert, get-insert_other, get-remove, get-remove_other, get, remove,
  contains_key, text_key, id_key, pair_key,
}
use quantalithos_bus.Contracts.Core.{Core}
use quantalithos_bus.Contracts.Projections.{u64_mod}
use quantalithos_bus.Application.Ports.{UnitOfWorkPurpose, UnitOfWorkHandle, UnitOfWorkError}
use quantalithos_bus.Infra.Store.{MemoryStore, StagedTransaction, staged_new}
use quantalithos_bus.Infra.Store.Transactions.{
  begin_transaction, commit_transaction, rollback_transaction, commit_staged, commit_removed,
  was_open,
}
use quantalithos_bus.Infra.Store.Seeds.{
  seed_retry_plan, seed_failure_material, seed_dead_letter, seed_delivery,
  seed_transport_view_projection, seed_failure_summary_projection, seed_backend_health_view,
  append_access_audit_entry,
}
use quantalithos_bus.Infra.Store.Calls.{StageCall, stage, stage_all}
use quantalithos_bus.Infra.Store.Isolation.{Within, stage-Within, stage_all-Within}
use quantalithos_bus.Infra.Store.Consistency.{
  StoreCall, begins, stages, commits, rolls_back, seeds_plan, seeds_material, seeds_dead_letter,
  seeds_delivery, seeds_view, seeds_summary, seeds_health, appends_audit, store_step, store_run,
}

module _ ⦃core : Core⦄ where
  was_open-some : (o : Option StagedTransaction) → is_some o ≡ true → was_open o ≡ ok tt
  unfolding was_open
  was_open-some none h = cc
  was_open-some (some t) h = refl

  -- A transaction that is begun, staged in and rolled back leaves all committed state, and every transaction
  -- that was open, as they were; only the counter of transactions has moved on. The transaction is closed.
  pub rollback_discards :
      (s : MemoryStore) (purpose : UnitOfWorkPurpose) (calls : List StageCall)
      → let id = (s.next_transaction_id + 1) % u64_mod in
        let handle : UnitOfWorkHandle = record { transaction_id = id; purpose = purpose } in
        let begun = (begin_transaction s purpose).0 in
        let (after, outcome) = rollback_transaction (stage_all begun id calls) handle in
        (outcome ≡ ok tt)
        × (record after {
          transactions = s.transactions;
          next_transaction_id = s.next_transaction_id;
        }
            ≡ s)
        × ((j : ℕ) → id_key.same j id ≡ false → get j after.transactions ≡ get j s.transactions)
        × (get id after.transactions ≡ none)
  unfolding begin_transaction rollback_transaction stage_all contains_key
  rollback_discards s purpose calls =
      let id = (s.next_transaction_id + 1) % u64_mod in
      let begun = (begin_transaction s purpose).0 in
      let staged = stage_all begun id calls in
      let within : Within id begun staged = stage_all-Within begun id calls in
      let opened : contains_key id staged.transactions ≡ true =
        within.stays (contains_key-insert id (staged_new purpose) s.transactions) in
      (
        was_open-some (get id staged.transactions) opened,
        ap {A = MemoryStore}
            (λ x. record x {
              transactions = s.transactions;
              next_transaction_id = s.next_transaction_id;
            })
            within.committed,
        λ j ne.
            get-remove_other j id staged.transactions ne
            ∙ within.others j ne
            ∙ get-insert_other j id (staged_new purpose) s.transactions ne,
        get-remove id staged.transactions,
      )

  refused_when_closed :
      (s : MemoryStore) (handle : UnitOfWorkHandle)
      → get handle.transaction_id s.transactions ≡ none
      → ((commit_transaction s handle).1 ≡ err UnitOfWorkError.invalid_handle)
        × ((rollback_transaction s handle).1 ≡ err UnitOfWorkError.invalid_handle)
  unfolding commit_transaction commit_removed rollback_transaction was_open
  refused_when_closed s handle h =
      let rest = record s { transactions = remove handle.transaction_id s.transactions } in
      (ap (λ o. (commit_removed rest handle o).1) h, ap was_open h)

  commit_removed-transactions :
      (s : MemoryStore) (handle : UnitOfWorkHandle) (o : Option StagedTransaction)
      → (commit_removed s handle o).0.transactions ≡ s.transactions
  unfolding commit_removed commit_staged
  commit_removed-transactions s handle none = refl
  commit_removed-transactions s handle (some staged) = refl

  commit-closes :
      (s : MemoryStore) (handle : UnitOfWorkHandle)
      → get handle.transaction_id (commit_transaction s handle).0.transactions ≡ none
  unfolding commit_transaction
  commit-closes s handle =
      let id = handle.transaction_id in
      let rest = record s { transactions = remove id s.transactions } in
      ap (get id) (commit_removed-transactions rest handle (get id s.transactions))
      ∙ get-remove id s.transactions

  rollback-closes :
      (s : MemoryStore) (handle : UnitOfWorkHandle)
      → get handle.transaction_id (rollback_transaction s handle).0.transactions ≡ none
  unfolding rollback_transaction
  rollback-closes s handle = get-remove handle.transaction_id s.transactions

  -- The call begins a transaction with the id.
  unfoldable pub issues : ℕ → MemoryStore → StoreCall → Bool
  issues id s (begins purpose) = id_key.same id ((s.next_transaction_id + 1) % u64_mod)
  issues id s _ = false

  -- One of the calls, made one after the other, begins a transaction with the id.
  unfoldable pub is_issued : ℕ → MemoryStore → List StoreCall → Bool
  unfolding issues store_step
  is_issued id s [] = false
  is_issued id s (call ∷ calls) = issues id s call || is_issued id (store_step s call) calls

  remove-none : (i k : ℕ) (m : Map ℕ StagedTransaction) → get i m ≡ none → get i (remove k m) ≡ none
  remove-none i k m h = elim (Bool-cases (id_key.same i k)) [
    | inl e ↦ ap (λ j. get j (remove k m)) ((id_key.same_iff i k).0 e) ∙ get-remove k m
    | inr e ↦ get-remove_other i k m e ∙ h
  ]

  stage-shut :
      (id : ℕ) (s : MemoryStore) (i : ℕ) (call : StageCall)
      → get id s.transactions ≡ none
      → get id (stage s i call).transactions ≡ none
  stage-shut id s i call h =
      let within = stage-Within s i call in
      elim (Bool-cases (id_key.same id i)) [
        | inl e ↦
            let same = (id_key.same_iff id i).0 e in
            ap (λ j. get j (stage s i call).transactions) same
            ∙ within.shut (ap (λ j. get j s.transactions) (sym same) ∙ h)
        | inr e ↦ within.others id e ∙ h
      ]

  step-shut :
      (id : ℕ) (s : MemoryStore) (call : StoreCall)
      → get id s.transactions ≡ none
      → issues id s call ≡ false
      → get id (store_step s call).transactions ≡ none
  unfolding issues store_step begin_transaction commit_transaction rollback_transaction
      seed_retry_plan seed_failure_material seed_dead_letter seed_delivery
      seed_transport_view_projection seed_failure_summary_projection seed_backend_health_view
      append_access_audit_entry
  step-shut id s (begins purpose) h n =
      get-insert_other id ((s.next_transaction_id + 1) % u64_mod) (staged_new purpose)
        s.transactions n
      ∙ h
  step-shut id s (stages i call) h n = stage-shut id s i call h
  step-shut id s (commits handle) h n =
      let k = handle.transaction_id in
      let rest = record s { transactions = remove k s.transactions } in
      ap (get id) (commit_removed-transactions rest handle (get k s.transactions))
      ∙ remove-none id k s.transactions h
  step-shut id s (rolls_back handle) h n = remove-none id handle.transaction_id s.transactions h
  step-shut id s (seeds_plan p) h n = ground arith
  step-shut id s (seeds_material m) h n = ground arith
  step-shut id s (seeds_dead_letter e) h n = ground arith
  step-shut id s (seeds_delivery d) h n = ground arith
  step-shut id s (seeds_view p) h n = h
  step-shut id s (seeds_summary p) h n = h
  step-shut id s (seeds_health v) h n = h
  step-shut id s (appends_audit e) h n = h

  run-shut :
      (id : ℕ) (s : MemoryStore) (calls : List StoreCall)
      → get id s.transactions ≡ none
      → is_issued id s calls ≡ false
      → get id (store_run s calls).transactions ≡ none
  unfolding store_run is_issued
  run-shut id s [] h n = h
  run-shut id s (call ∷ calls) h n =
      run-shut id (store_step s call) calls (step-shut id s call h (ground arith)) (ground arith)

  -- A handle that has been committed or rolled back, with success or not, is refused by both with InvalidHandle, whatever
  -- calls of the store were made since, as long as none of them began a transaction with its id again.
  pub closed_once :
      (s : MemoryStore) (handle : UnitOfWorkHandle) (closed : MemoryStore) (calls : List StoreCall)
      → (closed ≡ (commit_transaction s handle).0) ⊎ (closed ≡ (rollback_transaction s handle).0)
      → is_issued handle.transaction_id closed calls ≡ false
      → let later = store_run closed calls in
        ((commit_transaction later handle).1 ≡ err UnitOfWorkError.invalid_handle)
        × ((rollback_transaction later handle).1 ≡ err UnitOfWorkError.invalid_handle)
  closed_once s handle closed calls h n =
      let shut : get handle.transaction_id closed.transactions ≡ none = elim h [
        | inl e ↦ ap (λ c. get handle.transaction_id c.transactions) e ∙ commit-closes s handle
        | inr e ↦ ap (λ c. get handle.transaction_id c.transactions) e ∙ rollback-closes s handle
      ] in
      refused_when_closed (store_run closed calls) handle
        (run-shut handle.transaction_id closed calls shut n)
