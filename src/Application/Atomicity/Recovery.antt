-- ===== src/Application/Atomicity/Recovery.antt =====
-- What the recovery of deliveries and batches of deliveries leave of the committed state when they fail.
use quantalithos_bus.Base.{true, List, [], ◌∷◌, Result, ok, err, ◌≡◌}
use quantalithos_bus.Base.Actions.{attempt}
use quantalithos_bus.Contracts.Core.{Core}
use quantalithos_bus.Contracts.Metadata.{
  DeliveryId, FailureMaterialId, BackendDeliveryResult, JobMetadata,
}
use quantalithos_bus.Contracts.Inputs.{
  RequestRetryCommand, MoveDeliveryToDeadLetterCommand, PrepareReplayCommand,
}
use quantalithos_bus.Contracts.Jobs.{
  RunRetryCycleJob, RetryCycleResult, RunDeliveryProgressionJob, DeliveryProgressionResult,
}
use quantalithos_bus.Domain.Delivery.{DeliveryRecord}
use quantalithos_bus.Domain.Delivery.Attempt.{DeliveryAttempt}
use quantalithos_bus.Domain.Delivery.History.{DeliveryHistoryEntry}
use quantalithos_bus.Domain.Recovery.Retry.{RetryPlan}
use quantalithos_bus.Infra.Store.Queries.{AuditChain}
use quantalithos_bus.Application.Ports.{UnitOfWorkHandle}
use quantalithos_bus.Application.Errors.{ApplicationError, TransportPortError}
use quantalithos_bus.Application.Services.Delivery.{progress_one}
use quantalithos_bus.Application.Services.Delivery.Batch.{
  progress_each, progress_batch, record_item,
}
use quantalithos_bus.Application.Services.Recovery.{
  load_failed_delivery, load_failure_material, exhaust_plan, reschedule_failed, retry_dispatched,
  retry_delivery, run_retry_plan,
}
use quantalithos_bus.Application.Services.Recovery.Cycle.{run_plans, run_retry_cycle, record_plan}
use quantalithos_bus.Application.Services.Recovery.Commands.{
  request_retry, move_to_dead_letter, require_failed_history,
}
use quantalithos_bus.Application.Services.Recovery.Replay.{
  require_audit_chain, prepare_privileged, prepare_as, prepare_replay, validate_prepare_replay,
  validate_privileged_actor,
}
use quantalithos_bus.Application.Atomicity.{
  Quiet, Atomic, Sure, Quiet-some_or, Quiet-pure, Quiet-if, Quiet-lift, Atomic-if, Atomic-Sure,
  Sure-pure, Sure-attempt,
}
use quantalithos_bus.Application.Atomicity.Blocks.{Quiet-bind, Atomic-bind, Sure-bind}
use quantalithos_bus.Application.Atomicity.Calls.{
  unit_rules, Quiet-settle, Quiet-from_store, Quiet-rollback_with, Quiet-delivery_get_for_update,
  Quiet-delivery_save, Quiet-dispatch,
}
use quantalithos_bus.Application.Atomicity.RecoveryCalls.{recovery_rules}

module _ ⦃core : Core⦄ where
  open core use {ActorContext, CommandMetadata, has_role_refs}

  Quiet-load_failed_delivery :
      (id : DeliveryId) (h : UnitOfWorkHandle) → Quiet (load_failed_delivery id h)
  unfolding load_failed_delivery
  Quiet-load_failed_delivery id h =
      search
        (recovery_rules, Quiet-bind, Quiet-some_or, Quiet-from_store, Quiet-delivery_get_for_update)
        depth 30

  Quiet-load_failure_material : (id : FailureMaterialId) → Quiet (load_failure_material id)
  unfolding load_failure_material
  Quiet-load_failure_material id =
      search (recovery_rules, Quiet-bind, Quiet-some_or, Quiet-from_store) depth 30

  Quiet-reschedule_failed :
      (h : UnitOfWorkHandle) (d : DeliveryRecord) (actor : ActorContext) (t : core.Timestamp)
      → Quiet (reschedule_failed h d actor t)
  unfolding reschedule_failed
  Quiet-reschedule_failed h d actor t =
      search (recovery_rules, Quiet-bind, Quiet-if, Quiet-settle, Quiet-pure) depth 30

  Quiet-retry_dispatched :
      (h : UnitOfWorkHandle) (d : DeliveryRecord) (a : DeliveryAttempt) (actor : ActorContext)
      (t : core.Timestamp) (r : Result TransportPortError BackendDeliveryResult)
      → Quiet (retry_dispatched h d a actor t r)
  unfolding retry_dispatched
  Quiet-retry_dispatched h d a actor t (ok r) =
      search (recovery_rules, Quiet-bind, Quiet-settle, Quiet-pure) depth 30
  Quiet-retry_dispatched h d a actor t (err e) =
      search (recovery_rules, Quiet-bind, Quiet-settle, Quiet-pure) depth 30

  Quiet-require_failed_history :
      (h : UnitOfWorkHandle) (history : List DeliveryHistoryEntry)
      → Quiet (require_failed_history h history)
  unfolding require_failed_history
  Quiet-require_failed_history h history =
      search (recovery_rules, Quiet-if, Quiet-pure, Quiet-rollback_with) depth 30

  Quiet-require_audit_chain :
      (h : UnitOfWorkHandle) (c : AuditChain) → Quiet (require_audit_chain h c)
  unfolding require_audit_chain
  Quiet-require_audit_chain h c =
      search (recovery_rules, Quiet-if, Quiet-pure, Quiet-rollback_with) depth 30

  pub Atomic-exhaust_plan :
      (P : ApplicationError → Type 0) (h : UnitOfWorkHandle) (p : RetryPlan) (actor : ActorContext)
      (meta : JobMetadata) (t : core.Timestamp)
      → Atomic P (exhaust_plan h p actor meta t)
  unfolding exhaust_plan
  Atomic-exhaust_plan P h p actor meta t = search (unit_rules, recovery_rules) depth 40

  pub Atomic-retry_delivery :
      (P : ApplicationError → Type 0) (h : UnitOfWorkHandle) (d : DeliveryRecord) (p : RetryPlan)
      (actor : ActorContext) (meta : JobMetadata) (t : core.Timestamp)
      → Atomic P (retry_delivery h d p actor meta t)
  unfolding retry_delivery
  Atomic-retry_delivery P h d p actor meta t =
      search
        (
          unit_rules, recovery_rules, Quiet-delivery_save, Quiet-dispatch, Quiet-reschedule_failed,
          Quiet-retry_dispatched,
        )
        depth 40

  pub Atomic-run_retry_plan :
      (P : ApplicationError → Type 0) (p : RetryPlan) (actor : ActorContext) (meta : JobMetadata)
      (t : core.Timestamp)
      → Atomic P (run_retry_plan p actor meta t)
  unfolding run_retry_plan
  Atomic-run_retry_plan P p actor meta t =
      search
        (
          unit_rules, recovery_rules, Atomic-if, Quiet-delivery_get_for_update, Atomic-exhaust_plan,
          Atomic-retry_delivery,
        )
        depth 40

  pub Atomic-request_retry :
      (P : ApplicationError → Type 0) (c : RequestRetryCommand) (actor : ActorContext)
      (meta : CommandMetadata)
      → Atomic P (request_retry c actor meta)
  unfolding request_retry
  Atomic-request_retry P c actor meta =
      search
        (
          unit_rules, recovery_rules, Quiet-lift, Quiet-load_failed_delivery,
          Quiet-load_failure_material,
        )
        depth 40

  pub Atomic-move_to_dead_letter :
      (P : ApplicationError → Type 0) (c : MoveDeliveryToDeadLetterCommand) (actor : ActorContext)
      (meta : CommandMetadata)
      → Atomic P (move_to_dead_letter c actor meta)
  unfolding move_to_dead_letter
  Atomic-move_to_dead_letter P c actor meta =
      search
        (
          unit_rules, recovery_rules, Quiet-lift, Quiet-delivery_save, Quiet-load_failed_delivery,
          Quiet-load_failure_material, Quiet-require_failed_history,
        )
        depth 40

  pub Atomic-prepare_privileged :
      (P : ApplicationError → Type 0) (c : PrepareReplayCommand) (actor : ActorContext)
      (meta : CommandMetadata)
      → Atomic P (prepare_privileged c actor meta)
  unfolding prepare_privileged
  Atomic-prepare_privileged P c actor meta =
      search (unit_rules, recovery_rules, Quiet-require_audit_chain) depth 40

  Atomic-prepare_as :
      (P : ApplicationError → Type 0) (c : PrepareReplayCommand) (actor : ActorContext)
      (meta : CommandMetadata)
      → has_role_refs actor ≡ true
      → Atomic P (prepare_as (validate_privileged_actor actor) c actor meta)
  unfolding prepare_as validate_privileged_actor
  Atomic-prepare_as P c actor meta may = rw may (Atomic-prepare_privileged P c actor meta)

  -- The refusal of an actor without a role is audited.
  pub Atomic-prepare_replay :
      (P : ApplicationError → Type 0) (c : PrepareReplayCommand) (actor : ActorContext)
      (meta : CommandMetadata)
      → has_role_refs actor ≡ true
      → Atomic P (prepare_replay c actor meta)
  unfolding prepare_replay
  Atomic-prepare_replay P c actor meta may =
      Atomic-bind P _ _ (Quiet-lift (validate_prepare_replay c))
        (λ u. Atomic-prepare_as P c actor meta may)

  Sure-run_plans :
      (P : ApplicationError → Type 0) (job : RunRetryCycleJob) (actor : ActorContext)
      (meta : JobMetadata) (ps : List RetryPlan) (r : RetryCycleResult)
      → Sure P (run_plans job actor meta ps r)
  unfolding run_plans
  Sure-run_plans P job actor meta [] r = Sure-pure P r
  Sure-run_plans P job actor meta (p ∷ ps) r =
      Sure-bind P (attempt (run_retry_plan p actor meta job.now)) _
        (Sure-attempt P (run_retry_plan p actor meta job.now))
        (λ outcome. Sure-run_plans P job actor meta ps (record_plan r outcome))

  pub Atomic-run_retry_cycle :
      (P : ApplicationError → Type 0) (job : RunRetryCycleJob) (actor : ActorContext)
      (meta : JobMetadata)
      → Atomic P (run_retry_cycle job actor meta)
  unfolding run_retry_cycle
  Atomic-run_retry_cycle P job actor meta =
      search (Atomic-bind, Quiet-from_store, recovery_rules, Atomic-Sure, Sure-run_plans)

  Sure-progress_each :
      (P : ApplicationError → Type 0) (job : RunDeliveryProgressionJob) (actor : ActorContext)
      (meta : JobMetadata) (ds : List DeliveryRecord) (r : DeliveryProgressionResult)
      → Sure P (progress_each job actor meta ds r)
  unfolding progress_each
  Sure-progress_each P job actor meta [] r = Sure-pure P r
  Sure-progress_each P job actor meta (d ∷ ds) r =
      Sure-bind P (attempt (progress_one d.delivery_id job.backend_id actor meta)) _
        (Sure-attempt P (progress_one d.delivery_id job.backend_id actor meta))
        (λ outcome. Sure-progress_each P job actor meta ds (record_item r outcome))

  pub Atomic-progress_batch :
      (P : ApplicationError → Type 0) (job : RunDeliveryProgressionJob) (actor : ActorContext)
      (meta : JobMetadata)
      → Atomic P (progress_batch job actor meta)
  unfolding progress_batch
  Atomic-progress_batch P job actor meta = search (
    Atomic-bind, Quiet-from_store, recovery_rules, Atomic-Sure, Sure-bind, Sure-progress_each,
    Sure-pure,
  )
