-- ===== src/Infra/Store/Uniqueness.antt =====
-- Staging an acceptance of a publication that is committed.
use quantalithos_bus.Base.{
  ℕ, ◌≡◌, refl, true, Option, none, some, List, [], ◌∷◌, arith, ap, ◌∙◌, inl, inr, Bool-cases, err,
}
use quantalithos_bus.Base.Text.{Text}
use quantalithos_bus.Base.Maps.{
  is_some, get-insert, get-insert_other, Map, get, insert, remove, contains_key, insert_all,
  text_key, id_key, pair_key,
}
use quantalithos_bus.Contracts.Core.{Core}
use quantalithos_bus.Contracts.Metadata.{PublicationId}
use quantalithos_bus.Application.Ports.{UnitOfWorkHandle, RepositoryError}
use quantalithos_bus.Domain.Publication.Acceptance.{PublicationAcceptance}
use quantalithos_bus.Infra.Store.{MemoryStore, StagedTransaction}
use quantalithos_bus.Infra.Store.Transactions.{
  begin_transaction, commit_transaction, rollback_transaction, commit_staged, commit_removed,
}
use quantalithos_bus.Infra.Store.Staging.{stage_publication}
use quantalithos_bus.Infra.Store.Seeds.{
  seed_retry_plan, seed_failure_material, seed_dead_letter, seed_delivery,
  seed_transport_view_projection, seed_failure_summary_projection, seed_backend_health_view,
  append_access_audit_entry,
}
use quantalithos_bus.Infra.Store.Isolation.{stage-Within}
use quantalithos_bus.Infra.Store.Consistency.{
  StoreCall, begins, stages, commits, rolls_back, seeds_plan, seeds_material, seeds_dead_letter,
  seeds_delivery, seeds_view, seeds_summary, seeds_health, appends_audit, store_step, store_run,
}

module _ ⦃core : Core⦄ where
  -- A publication is committed under the id.
  abbrev IsPublished : PublicationId → MemoryStore → Type 0
  IsPublished id s = contains_key id s.publications ≡ true

  insert-contains :
      {V : Type 0} (i k : Text) (v : V) (m : Map Text V)
      → contains_key i m ≡ true
      → contains_key i (insert k v m) ≡ true
  unfolding contains_key
  insert-contains i k v m h = elim (Bool-cases (text_key.same i k)) [
    | inl hit ↦
        ap (λ j. is_some (get j (insert k v m))) ((text_key.same_iff i k).0 hit)
        ∙ ap is_some (get-insert k v m)
    | inr miss ↦ ap is_some (get-insert_other i k v m miss) ∙ h
  ]

  insert_all-contains :
      {V : Type 0} (i : Text) (entries m : Map Text V)
      → contains_key i m ≡ true
      → contains_key i (insert_all entries m) ≡ true
  unfolding insert_all
  insert_all-contains i [] m h = h
  insert_all-contains i ((k, v) ∷ entries) m h =
      insert_all-contains i entries (insert k v m) (insert-contains i k v m h)

  commit_removed-IsPublished :
      (id : PublicationId) (s : MemoryStore) (handle : UnitOfWorkHandle)
      (o : Option StagedTransaction)
      → IsPublished id s
      → IsPublished id (commit_removed s handle o).0
  unfolding commit_removed commit_staged
  commit_removed-IsPublished id s handle none h = h
  commit_removed-IsPublished id s handle (some t) h =
      insert_all-contains id t.publications s.publications h

  step-IsPublished :
      (id : PublicationId) (s : MemoryStore) (call : StoreCall)
      → IsPublished id s
      → IsPublished id (store_step s call)
  unfolding store_step begin_transaction commit_transaction rollback_transaction seed_retry_plan
      seed_failure_material seed_dead_letter seed_delivery seed_transport_view_projection
      seed_failure_summary_projection seed_backend_health_view append_access_audit_entry
  step-IsPublished id s (begins purpose) h = h
  step-IsPublished id s (stages i call) h =
      ap (λ t. contains_key id t.publications) (stage-Within s i call).committed ∙ h
  step-IsPublished id s (commits handle) h =
      commit_removed-IsPublished id
        (record s { transactions = remove handle.transaction_id s.transactions }) handle
        (get handle.transaction_id s.transactions) h
  step-IsPublished id s (rolls_back handle) h = h
  step-IsPublished id s (seeds_plan p) h = ground arith
  step-IsPublished id s (seeds_material m) h = ground arith
  step-IsPublished id s (seeds_dead_letter e) h = ground arith
  step-IsPublished id s (seeds_delivery d) h = ground arith
  step-IsPublished id s (seeds_view p) h = h
  step-IsPublished id s (seeds_summary p) h = h
  step-IsPublished id s (seeds_health v) h = h
  step-IsPublished id s (appends_audit e) h = h

  run-IsPublished :
      (id : PublicationId) (s : MemoryStore) (calls : List StoreCall)
      → IsPublished id s
      → IsPublished id (store_run s calls)
  unfolding store_run
  run-IsPublished id s [] h = h
  run-IsPublished id s (call ∷ calls) h =
      run-IsPublished id (store_step s call) calls (step-IsPublished id s call h)

  -- Once a publication is committed, then whatever calls follow, staging an acceptance of the same publication fails with
  -- UniqueViolation and leaves the store as it is.
  pub publication_stays_unique :
      (s : MemoryStore) (a : PublicationAcceptance) (calls : List StoreCall) (id : ℕ)
      → contains_key a.publication_id s.publications ≡ true
      → let later = store_run s calls in
        stage_publication later id a ≡ (later, err RepositoryError.unique_violation)
  unfolding stage_publication
  publication_stays_unique s a calls id h = rw (run-IsPublished a.publication_id s calls h) refl
