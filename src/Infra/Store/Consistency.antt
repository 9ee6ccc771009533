-- ===== src/Infra/Store/Consistency.antt =====
-- The versions of committed records, over all calls of the store.
use quantalithos_bus.Base.{
  ℕ, ◌≡◌, refl, Bool, true, false, not, ◌&&◌, Option, none, some, List, [], ◌∷◌, if◌then◌else◌, sym,
  subst, Result, err,
}
use quantalithos_bus.Base.Maps.{
  Versioned, insert-Versioned, insert_all-Versioned, get, remove, contains_key, text_key, id_key,
  pair_key,
}
use quantalithos_bus.Contracts.Core.{Core}
use quantalithos_bus.Contracts.Status.{RetryPlanStatus, DeadLetterStatus, retry_eq, dead_letter_eq}
use quantalithos_bus.Contracts.Projections.{BackendHealthView}
use quantalithos_bus.Application.Ports.{UnitOfWorkPurpose, UnitOfWorkHandle, RepositoryError}
use quantalithos_bus.Domain.Audit.{BusAuditEntry}
use quantalithos_bus.Domain.Delivery.{DeliveryRecord}
use quantalithos_bus.Domain.Feedback.{FeedbackResult}
use quantalithos_bus.Domain.ReadOutput.{FailureSummaryProjection, TransportViewProjection}
use quantalithos_bus.Domain.Recovery.DeadLetter.{DeadLetterEntry}
use quantalithos_bus.Domain.Recovery.Failure.{FailureMaterial}
use quantalithos_bus.Domain.Recovery.Replay.{ReplayPreparation}
use quantalithos_bus.Domain.Recovery.Retry.{RetryPlan}
use quantalithos_bus.Infra.Store.{MemoryStore, store_new, StagedTransaction, version_one}
use quantalithos_bus.Infra.Store.Transactions.{
  begin_transaction, commit_transaction, rollback_transaction, commit_staged, commit_removed,
}
use quantalithos_bus.Infra.Store.Seeds.{
  seed_retry_plan, seed_failure_material, seed_dead_letter, seed_delivery,
  seed_transport_view_projection, seed_failure_summary_projection, seed_backend_health_view,
  append_access_audit_entry,
}
use quantalithos_bus.Infra.Store.Calls.{StageCall, stage}
use quantalithos_bus.Infra.Store.Isolation.{stage-Within}

module _ ⦃core : Core⦄ where
  abbrev VersionsAgree : MemoryStore → Type 0
  VersionsAgree s =
      Versioned DeliveryRecord.version s.deliveries s.delivery_versions
      × Versioned FeedbackResult.version s.feedbacks s.feedback_versions
      × Versioned RetryPlan.version s.retry_plans s.retry_plan_versions
      × Versioned DeadLetterEntry.version s.dead_letters s.dead_letter_versions
      × Versioned ReplayPreparation.version s.replay_preparations s.replay_preparation_versions
      × Versioned FailureMaterial.version s.failure_materials s.failure_material_versions

  -- Each table of versions holds the versions of the records in the table beside it.
  pub record Consistent (s : MemoryStore) : Type 0 where
    pub agree : VersionsAgree s

  pub data StoreCall : Type 0 where
    begins : UnitOfWorkPurpose → StoreCall
    stages : ℕ → StageCall → StoreCall
    commits rolls_back : UnitOfWorkHandle → StoreCall
    seeds_plan : RetryPlan → StoreCall
    seeds_material : FailureMaterial → StoreCall
    seeds_dead_letter : DeadLetterEntry → StoreCall
    seeds_delivery : DeliveryRecord → StoreCall
    seeds_view : TransportViewProjection → StoreCall
    seeds_summary : FailureSummaryProjection → StoreCall
    seeds_health : BackendHealthView → StoreCall
    appends_audit : BusAuditEntry → StoreCall

  -- The state that a call leaves, whether it succeeds or not.
  unfoldable pub store_step : MemoryStore → StoreCall → MemoryStore
  unfolding begin_transaction commit_transaction rollback_transaction stage seed_retry_plan
      seed_failure_material seed_dead_letter seed_delivery seed_transport_view_projection
      seed_failure_summary_projection seed_backend_health_view append_access_audit_entry
  store_step s (begins purpose) = (begin_transaction s purpose).0
  store_step s (stages id call) = stage s id call
  store_step s (commits handle) = (commit_transaction s handle).0
  store_step s (rolls_back handle) = (rollback_transaction s handle).0
  store_step s (seeds_plan p) = (seed_retry_plan s p).0
  store_step s (seeds_material m) = (seed_failure_material s m).0
  store_step s (seeds_dead_letter e) = (seed_dead_letter s e).0
  store_step s (seeds_delivery d) = (seed_delivery s d).0
  store_step s (seeds_view p) = (seed_transport_view_projection s p).0
  store_step s (seeds_summary p) = (seed_failure_summary_projection s p).0
  store_step s (seeds_health v) = (seed_backend_health_view s v).0
  store_step s (appends_audit e) = (append_access_audit_entry s e).0

  unfoldable pub store_run : MemoryStore → List StoreCall → MemoryStore
  unfolding store_step
  store_run s [] = s
  store_run s (call ∷ calls) = store_run (store_step s call) calls

  same_tables-Consistent :
      (s t : MemoryStore)
      → record t { transactions = s.transactions } ≡ s
      → Consistent s
      → Consistent t
  same_tables-Consistent s t e c =
      let c' : Consistent (record t { transactions = s.transactions }) =
        subst Consistent (sym e) c in
      record { agree = c'.agree }

  commit_staged-Consistent :
      (s : MemoryStore) (t : StagedTransaction) → Consistent s → Consistent (commit_staged s t)
  unfolding commit_staged
  commit_staged-Consistent s t c =
      let (a, b, d, e, f, g) = c.agree in
      record {
        agree = (
          insert_all-Versioned DeliveryRecord.version t.deliveries s.deliveries s.delivery_versions
              a,
          insert_all-Versioned FeedbackResult.version t.feedbacks s.feedbacks s.feedback_versions b,
          insert_all-Versioned RetryPlan.version t.retry_plans s.retry_plans s.retry_plan_versions
              d,
          insert_all-Versioned DeadLetterEntry.version t.dead_letters s.dead_letters
              s.dead_letter_versions e,
          insert_all-Versioned ReplayPreparation.version t.replay_preparations s.replay_preparations
              s.replay_preparation_versions f,
          insert_all-Versioned FailureMaterial.version t.failure_materials s.failure_materials
              s.failure_material_versions g,
        );
      }

  commit_removed-Consistent :
      (s : MemoryStore) (handle : UnitOfWorkHandle) (o : Option StagedTransaction)
      → Consistent s
      → Consistent (commit_removed s handle o).0
  unfolding commit_removed
  commit_removed-Consistent s handle none c = c
  commit_removed-Consistent s handle (some t) c = commit_staged-Consistent s t c

  -- The state of a method that is guarded by a test.
  guarded :
      {A : Type 0} (s : MemoryStore) (b : Bool) (e : RepositoryError)
      (p : MemoryStore × Result RepositoryError A)
      → Consistent s
      → Consistent p.0
      → Consistent (if b then (s, err e) else p).0
  guarded s true e p c d = c
  guarded s false e p c d = d

  step-Consistent :
      (s : MemoryStore) (call : StoreCall) → Consistent s → Consistent (store_step s call)
  unfolding store_step begin_transaction commit_transaction rollback_transaction seed_retry_plan
      seed_failure_material seed_dead_letter seed_delivery seed_transport_view_projection
      seed_failure_summary_projection seed_backend_health_view append_access_audit_entry
  step-Consistent s (begins purpose) c = record { agree = c.agree }
  step-Consistent s (stages id call) c =
      same_tables-Consistent s (stage s id call) (stage-Within s id call).committed c
  step-Consistent s (commits handle) c =
      let rest = record s { transactions = remove handle.transaction_id s.transactions } in
      commit_removed-Consistent rest handle (get handle.transaction_id s.transactions)
        (same_tables-Consistent s rest refl c)
  step-Consistent s (rolls_back handle) c = record { agree = c.agree }
  step-Consistent s (seeds_plan p) c =
      let (a, b, d, e, f, g) = c.agree in
      let planted = record p { version = version_one } in
      guarded s (contains_key p.retry_plan_id s.retry_plans) RepositoryError.unique_violation _ c (
        guarded s
          (retry_eq p.status RetryPlanStatus.scheduled
            && contains_key p.delivery_id s.active_retry_plans)
          RepositoryError.unique_violation _ c
          (record {
            agree = (
              a,
              b,
              insert-Versioned RetryPlan.version p.retry_plan_id planted s.retry_plans
                  s.retry_plan_versions d,
              e,
              f,
              g,
            );
          }))
  step-Consistent s (seeds_material m) c =
      let (a, b, d, e, f, g) = c.agree in
      let planted = record m { version = version_one } in
      guarded s (contains_key m.failure_material_id s.failure_materials)
        RepositoryError.unique_violation _ c
        (record {
          agree = (
            a,
            b,
            d,
            e,
            f,
            insert-Versioned FailureMaterial.version m.failure_material_id planted
                s.failure_materials s.failure_material_versions g,
          );
        })
  step-Consistent s (seeds_dead_letter x) c =
      let (a, b, d, e, f, g) = c.agree in
      let planted = record x { version = version_one } in
      guarded s (contains_key x.dead_letter_id s.dead_letters) RepositoryError.unique_violation _ c
        (guarded s
          (not (dead_letter_eq x.status DeadLetterStatus.closed)
            && contains_key x.delivery_id s.active_dead_letters)
          RepositoryError.unique_violation _ c
          (record {
            agree = (
              a,
              b,
              d,
              insert-Versioned DeadLetterEntry.version x.dead_letter_id planted s.dead_letters
                  s.dead_letter_versions e,
              f,
              g,
            );
          }))
  step-Consistent s (seeds_delivery x) c =
      let (a, b, d, e, f, g) = c.agree in
      let planted = record x { version = version_one } in
      guarded s (contains_key x.delivery_id s.deliveries) RepositoryError.unique_violation _ c
        (record {
          agree = (
            insert-Versioned DeliveryRecord.version x.delivery_id planted s.deliveries
                s.delivery_versions a,
            b,
            d,
            e,
            f,
            g,
          );
        })
  step-Consistent s (seeds_view p) c = record { agree = c.agree }
  step-Consistent s (seeds_summary p) c = record { agree = c.agree }
  step-Consistent s (seeds_health v) c = record { agree = c.agree }
  step-Consistent s (appends_audit e) c = record { agree = c.agree }

  pub run-Consistent :
      (s : MemoryStore) (calls : List StoreCall) → Consistent s → Consistent (store_run s calls)
  unfolding store_run
  run-Consistent s [] c = c
  run-Consistent s (call ∷ calls) c =
      run-Consistent (store_step s call) calls (step-Consistent s call c)

  -- Whatever calls are made of a new store, failed ones included and in whatever order transactions interleave, the version
  -- under which a delivery, feedback, retry plan, dead letter, replay preparation or failure material is compared is the
  -- version of the record that is stored.
  pub store_new-run-Consistent : (calls : List StoreCall) → Consistent (store_run store_new calls)
  unfolding get
  store_new-run-Consistent calls =
      run-Consistent store_new calls
        (record { agree = (λ k. refl, λ k. refl, λ k. refl, λ k. refl, λ k. refl, λ k. refl) })
