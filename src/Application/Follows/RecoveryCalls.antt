-- ===== src/Application/Follows/RecoveryCalls.antt =====
-- The calls of the recovery repository, as calls of the store.
use quantalithos_bus.Base.{ℕ, Option, none, some}
use quantalithos_bus.Contracts.Core.{Core}
use quantalithos_bus.Contracts.Metadata.{
  DeliveryId, RetryScanCursor, DeliveryScanCursor, FailureMaterialId, DeadLetterId, AuditChainRef,
}
use quantalithos_bus.Domain.Audit.{BusAuditEntry}
use quantalithos_bus.Domain.Recovery.DeadLetter.{DeadLetterEntry}
use quantalithos_bus.Domain.Recovery.Failure.{FailureMaterial}
use quantalithos_bus.Domain.Recovery.Replay.{ReplayPreparation}
use quantalithos_bus.Domain.Recovery.Retry.{RetryPlan}
use quantalithos_bus.Application.Ports.{UnitOfWorkHandle, RepositoryError}
use quantalithos_bus.Infra.Store.Calls.{stage, saves_retry_plan, saves_dead_letter, saves_replay}
use quantalithos_bus.Infra.System.{System, on_store}
use quantalithos_bus.Infra.System.Repositories.{
  delivery_load_history, delivery_find_schedulable, recovery_save_retry_plan,
  recovery_find_due_retry, recovery_save_dead_letter, recovery_get_failure_material,
  recovery_get_dead_letter, recovery_save_replay_preparation, audit_load_chain, append_access_taken,
  audit_append_access,
}
use quantalithos_bus.Infra.Store.Consistency.{stages, appends_audit, store_step, store_run}
use quantalithos_bus.Application.Follows.{Runs, Runs-refl, Runs-call, Follows, Follows-gets}

module _ ⦃core : Core⦄ where
  pub Follows-recovery_save_retry_plan :
      (p : RetryPlan) (v : Option core.Version) (h : UnitOfWorkHandle)
      → Follows (recovery_save_retry_plan p v h)
  unfolding recovery_save_retry_plan on_store store_run store_step stage
  Follows-recovery_save_retry_plan p v h = record {
    at = λ s. Runs-call s.store (stages h.transaction_id (saves_retry_plan p v));
  }

  pub Follows-recovery_save_dead_letter :
      (e : DeadLetterEntry) (m : FailureMaterial) (h : UnitOfWorkHandle)
      → Follows (recovery_save_dead_letter e m h)
  unfolding recovery_save_dead_letter on_store store_run store_step stage
  Follows-recovery_save_dead_letter e m h = record {
    at = λ s. Runs-call s.store (stages h.transaction_id (saves_dead_letter e m));
  }

  pub Follows-recovery_save_replay_preparation :
      (p : ReplayPreparation) (h : UnitOfWorkHandle)
      → Follows (recovery_save_replay_preparation p h)
  unfolding recovery_save_replay_preparation on_store store_run store_step stage
  Follows-recovery_save_replay_preparation p h = record {
    at = λ s. Runs-call s.store (stages h.transaction_id (saves_replay p));
  }

  pub Follows-delivery_load_history : (id : DeliveryId) → Follows (delivery_load_history id)
  unfolding delivery_load_history
  Follows-delivery_load_history id = search Follows-gets

  pub Follows-recovery_find_due_retry :
      (c : RetryScanCursor) (n : ℕ) (t : core.Timestamp) → Follows (recovery_find_due_retry c n t)
  unfolding recovery_find_due_retry
  Follows-recovery_find_due_retry c n t = search Follows-gets

  pub Follows-delivery_find_schedulable :
      (c : DeliveryScanCursor) (n : ℕ) → Follows (delivery_find_schedulable c n)
  unfolding delivery_find_schedulable
  Follows-delivery_find_schedulable c n = search Follows-gets

  pub Follows-recovery_get_failure_material :
      (id : FailureMaterialId) → Follows (recovery_get_failure_material id)
  unfolding recovery_get_failure_material
  Follows-recovery_get_failure_material id = search Follows-gets

  pub Follows-recovery_get_dead_letter : (id : DeadLetterId) → Follows (recovery_get_dead_letter id)
  unfolding recovery_get_dead_letter
  Follows-recovery_get_dead_letter id = search Follows-gets

  pub Follows-audit_load_chain : (ref : AuditChainRef) → Follows (audit_load_chain ref)
  unfolding audit_load_chain
  Follows-audit_load_chain ref = search Follows-gets

  append_access_taken-Runs :
      (e : BusAuditEntry) (o : Option RepositoryError) (s : System)
      → Runs s.store (append_access_taken e o s).0.store
  unfolding append_access_taken on_store store_run store_step
  append_access_taken-Runs e none s = Runs-call s.store (appends_audit e)
  append_access_taken-Runs e (some error) s = Runs-refl s.store

  pub Follows-audit_append_access : (e : BusAuditEntry) → Follows (audit_append_access e)
  unfolding audit_append_access
  Follows-audit_append_access e = record {
    at = λ s. append_access_taken-Runs e s.fail_next_append s;
  }

pub ruleset recovery_rules = (
  Follows-recovery_save_retry_plan, Follows-recovery_save_dead_letter,
  Follows-recovery_save_replay_preparation, Follows-delivery_load_history,
  Follows-recovery_find_due_retry, Follows-delivery_find_schedulable,
  Follows-recovery_get_failure_material, Follows-recovery_get_dead_letter, Follows-audit_load_chain,
  Follows-audit_append_access,
)
