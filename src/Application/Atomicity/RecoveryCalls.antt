-- ===== src/Application/Atomicity/RecoveryCalls.antt =====
-- What the calls of the recovery repository leave of the committed state.
use quantalithos_bus.Base.{ℕ, Option}
use quantalithos_bus.Contracts.Core.{Core}
use quantalithos_bus.Contracts.Metadata.{
  DeliveryId, RetryScanCursor, DeliveryScanCursor, FailureMaterialId, DeadLetterId, AuditChainRef,
}
use quantalithos_bus.Domain.Recovery.DeadLetter.{DeadLetterEntry}
use quantalithos_bus.Domain.Recovery.Failure.{FailureMaterial}
use quantalithos_bus.Domain.Recovery.Replay.{ReplayPreparation}
use quantalithos_bus.Domain.Recovery.Retry.{RetryPlan}
use quantalithos_bus.Application.Ports.{UnitOfWorkHandle}
use quantalithos_bus.Infra.Store.Calls.{stage, saves_retry_plan, saves_dead_letter, saves_replay}
use quantalithos_bus.Infra.System.{on_store}
use quantalithos_bus.Infra.System.Repositories.{
  delivery_load_history, delivery_find_schedulable, recovery_save_retry_plan,
  recovery_find_due_retry, recovery_save_dead_letter, recovery_get_failure_material,
  recovery_get_dead_letter, recovery_save_replay_preparation, audit_load_chain,
}
use quantalithos_bus.Application.Atomicity.{Quiet, Quiet-gets}
use quantalithos_bus.Application.Atomicity.Calls.{stage-SameTables}

module _ ⦃core : Core⦄ where
  pub Quiet-recovery_save_retry_plan :
      (p : RetryPlan) (v : Option core.Version) (h : UnitOfWorkHandle)
      → Quiet (recovery_save_retry_plan p v h)
  unfolding recovery_save_retry_plan on_store stage
  Quiet-recovery_save_retry_plan p v h = record {
    at = λ s. stage-SameTables s.store h.transaction_id (saves_retry_plan p v);
  }

  pub Quiet-recovery_save_dead_letter :
      (e : DeadLetterEntry) (m : FailureMaterial) (h : UnitOfWorkHandle)
      → Quiet (recovery_save_dead_letter e m h)
  unfolding recovery_save_dead_letter on_store stage
  Quiet-recovery_save_dead_letter e m h = record {
    at = λ s. stage-SameTables s.store h.transaction_id (saves_dead_letter e m);
  }

  pub Quiet-recovery_save_replay_preparation :
      (p : ReplayPreparation) (h : UnitOfWorkHandle) → Quiet (recovery_save_replay_preparation p h)
  unfolding recovery_save_replay_preparation on_store stage
  Quiet-recovery_save_replay_preparation p h = record {
    at = λ s. stage-SameTables s.store h.transaction_id (saves_replay p);
  }

  pub Quiet-delivery_load_history : (id : DeliveryId) → Quiet (delivery_load_history id)
  unfolding delivery_load_history
  Quiet-delivery_load_history id = search Quiet-gets

  pub Quiet-recovery_find_due_retry :
      (c : RetryScanCursor) (n : ℕ) (t : core.Timestamp) → Quiet (recovery_find_due_retry c n t)
  unfolding recovery_find_due_retry
  Quiet-recovery_find_due_retry c n t = search Quiet-gets

  pub Quiet-delivery_find_schedulable :
      (c : DeliveryScanCursor) (n : ℕ) → Quiet (delivery_find_schedulable c n)
  unfolding delivery_find_schedulable
  Quiet-delivery_find_schedulable c n = search Quiet-gets

  pub Quiet-recovery_get_failure_material :
      (id : FailureMaterialId) → Quiet (recovery_get_failure_material id)
  unfolding recovery_get_failure_material
  Quiet-recovery_get_failure_material id = search Quiet-gets

  pub Quiet-recovery_get_dead_letter : (id : DeadLetterId) → Quiet (recovery_get_dead_letter id)
  unfolding recovery_get_dead_letter
  Quiet-recovery_get_dead_letter id = search Quiet-gets

  pub Quiet-audit_load_chain : (ref : AuditChainRef) → Quiet (audit_load_chain ref)
  unfolding audit_load_chain
  Quiet-audit_load_chain ref = search Quiet-gets

pub ruleset recovery_rules = (
  Quiet-recovery_save_retry_plan, Quiet-recovery_save_dead_letter,
  Quiet-recovery_save_replay_preparation, Quiet-delivery_load_history,
  Quiet-recovery_find_due_retry, Quiet-delivery_find_schedulable,
  Quiet-recovery_get_failure_material, Quiet-recovery_get_dead_letter, Quiet-audit_load_chain,
)
