-- ===== src/Application/Follows/Recovery.antt =====
-- crates/application/src/services: the recovery of deliveries and batches of deliveries, as calls of the store.
use quantalithos_bus.Base.{List, [], ◌∷◌, Result, ok, err}
use quantalithos_bus.Base.Actions.{attempt}
use quantalithos_bus.Contracts.Core.{Core}
use quantalithos_bus.Contracts.Metadata.{
  DeliveryId, FailureMaterialId, BackendDeliveryResult, JobMetadata,
}
use quantalithos_bus.Contracts.Inputs.{
  RequestRetryCommand, MoveDeliveryToDeadLetterCommand, PrepareReplayCommand,
}
use quantalithos_bus.Contracts.Jobs.{
  RunRetryCycleJob, RetryCycleResult, RunDeliveryProgressionJob, DeliveryProgressionResult,
}
use quantalithos_bus.Domain.Audit.{
  SubjectRef, PrivilegedAccessDecision, PrivilegedAccessRejectionReason,
}
use quantalithos_bus.Domain.Delivery.{DeliveryRecord}
use quantalithos_bus.Domain.Delivery.Attempt.{DeliveryAttempt}
use quantalithos_bus.Domain.Delivery.History.{DeliveryHistoryEntry}
use quantalithos_bus.Domain.Recovery.Retry.{RetryPlan}
use quantalithos_bus.Infra.Store.Queries.{AuditChain}
use quantalithos_bus.Application.Ports.{UnitOfWorkHandle}
use quantalithos_bus.Application.Errors.{TransportPortError}
use quantalithos_bus.Application.Services.Delivery.{progress_one}
use quantalithos_bus.Application.Services.Delivery.Batch.{
  progress_each, progress_batch, record_item,
}
use quantalithos_bus.Application.Services.Recovery.{
  load_failed_delivery, load_failure_material, exhaust_plan, reschedule_failed, retry_dispatched,
  retry_delivery, run_retry_plan,
}
use quantalithos_bus.Application.Services.Recovery.Cycle.{run_plans, run_retry_cycle, record_plan}
use quantalithos_bus.Application.Services.Recovery.Commands.{
  request_retry, move_to_dead_letter, require_failed_history,
}
use quantalithos_bus.Application.Services.Recovery.Replay.{
  append_access_audit, require_audit_chain, prepare_privileged, prepare_as, prepare_replay,
}
use quantalithos_bus.Application.Follows.{Follows, Follows-bind, Follows-attempt, Follows-pure}
use quantalithos_bus.Application.Follows.Calls.{handler_rules}
use quantalithos_bus.Application.Follows.Delivery.{Follows-progress_one}
use quantalithos_bus.Application.Follows.RecoveryCalls.{recovery_rules}

module _ ⦃core : Core⦄ where
  open core use {ActorContext, CommandMetadata}

  Follows-load_failed_delivery :
      (id : DeliveryId) (h : UnitOfWorkHandle) → Follows (load_failed_delivery id h)
  unfolding load_failed_delivery
  Follows-load_failed_delivery id h = search (handler_rules, recovery_rules) depth 30

  Follows-load_failure_material : (id : FailureMaterialId) → Follows (load_failure_material id)
  unfolding load_failure_material
  Follows-load_failure_material id = search (handler_rules, recovery_rules) depth 30

  Follows-reschedule_failed :
      (h : UnitOfWorkHandle) (d : DeliveryRecord) (actor : ActorContext) (t : core.Timestamp)
      → Follows (reschedule_failed h d actor t)
  unfolding reschedule_failed
  Follows-reschedule_failed h d actor t = search (handler_rules, recovery_rules) depth 30

  Follows-retry_dispatched :
      (h : UnitOfWorkHandle) (d : DeliveryRecord) (a : DeliveryAttempt) (actor : ActorContext)
      (t : core.Timestamp) (r : Result TransportPortError BackendDeliveryResult)
      → Follows (retry_dispatched h d a actor t r)
  unfolding retry_dispatched
  Follows-retry_dispatched h d a actor t (ok r) = search (handler_rules, recovery_rules) depth 30
  Follows-retry_dispatched h d a actor t (err e) = search (handler_rules, recovery_rules) depth 30

  Follows-require_failed_history :
      (h : UnitOfWorkHandle) (history : List DeliveryHistoryEntry)
      → Follows (require_failed_history h history)
  unfolding require_failed_history
  Follows-require_failed_history h history = search (handler_rules, recovery_rules) depth 30

  Follows-require_audit_chain :
      (h : UnitOfWorkHandle) (c : AuditChain) → Follows (require_audit_chain h c)
  unfolding require_audit_chain
  Follows-require_audit_chain h c = search (handler_rules, recovery_rules) depth 30

  pub Follows-exhaust_plan :
      (h : UnitOfWorkHandle) (p : RetryPlan) (actor : ActorContext) (meta : JobMetadata)
      (t : core.Timestamp)
      → Follows (exhaust_plan h p actor meta t)
  unfolding exhaust_plan
  Follows-exhaust_plan h p actor meta t = search (handler_rules, recovery_rules) depth 40

  pub Follows-retry_delivery :
      (h : UnitOfWorkHandle) (d : DeliveryRecord) (p : RetryPlan) (actor : ActorContext)
      (meta : JobMetadata) (t : core.Timestamp)
      → Follows (retry_delivery h d p actor meta t)
  unfolding retry_delivery
  Follows-retry_delivery h d p actor meta t =
      search (handler_rules, recovery_rules, Follows-reschedule_failed, Follows-retry_dispatched)
        depth 40

  pub Follows-run_retry_plan :
      (p : RetryPlan) (actor : ActorContext) (meta : JobMetadata) (t : core.Timestamp)
      → Follows (run_retry_plan p actor meta t)
  unfolding run_retry_plan
  Follows-run_retry_plan p actor meta t =
      search (handler_rules, recovery_rules, Follows-exhaust_plan, Follows-retry_delivery) depth 40

  pub Follows-request_retry :
      (c : RequestRetryCommand) (actor : ActorContext) (meta : CommandMetadata)
      → Follows (request_retry c actor meta)
  unfolding request_retry
  Follows-request_retry c actor meta =
      search
        (handler_rules, recovery_rules, Follows-load_failed_delivery, Follows-load_failure_material)
        depth 40

  pub Follows-move_to_dead_letter :
      (c : MoveDeliveryToDeadLetterCommand) (actor : ActorContext) (meta : CommandMetadata)
      → Follows (move_to_dead_letter c actor meta)
  unfolding move_to_dead_letter
  Follows-move_to_dead_letter c actor meta =
      search
        (
          handler_rules, recovery_rules, Follows-load_failed_delivery,
          Follows-load_failure_material, Follows-require_failed_history,
        )
        depth 40

  pub Follows-prepare_privileged :
      (c : PrepareReplayCommand) (actor : ActorContext) (meta : CommandMetadata)
      → Follows (prepare_privileged c actor meta)
  unfolding prepare_privileged
  Follows-prepare_privileged c actor meta =
      search (handler_rules, recovery_rules, Follows-require_audit_chain) depth 40

  Follows-append_access_audit :
      (r : SubjectRef) (d : PrivilegedAccessDecision) (actor : ActorContext)
      (meta : CommandMetadata)
      → Follows (append_access_audit r d actor meta)
  unfolding append_access_audit
  Follows-append_access_audit r d actor meta = search (handler_rules, recovery_rules) depth 30

  Follows-prepare_as :
      (r : Result PrivilegedAccessRejectionReason (Unit {0})) (c : PrepareReplayCommand)
      (actor : ActorContext) (meta : CommandMetadata)
      → Follows (prepare_as r c actor meta)
  unfolding prepare_as
  Follows-prepare_as (ok u) c actor meta = Follows-prepare_privileged c actor meta
  Follows-prepare_as (err e) c actor meta = search (handler_rules, Follows-append_access_audit)

  pub Follows-prepare_replay :
      (c : PrepareReplayCommand) (actor : ActorContext) (meta : CommandMetadata)
      → Follows (prepare_replay c actor meta)
  unfolding prepare_replay
  Follows-prepare_replay c actor meta = search (handler_rules, Follows-prepare_as)

  Follows-run_plans :
      (job : RunRetryCycleJob) (actor : ActorContext) (meta : JobMetadata) (ps : List RetryPlan)
      (r : RetryCycleResult)
      → Follows (run_plans job actor meta ps r)
  unfolding run_plans
  Follows-run_plans job actor meta [] r = search Follows-pure
  Follows-run_plans job actor meta (p ∷ ps) r =
      Follows-bind (attempt (run_retry_plan p actor meta job.now)) _
        (Follows-attempt _ (Follows-run_retry_plan p actor meta job.now))
        (λ outcome. Follows-run_plans job actor meta ps (record_plan r outcome))

  pub Follows-run_retry_cycle :
      (job : RunRetryCycleJob) (actor : ActorContext) (meta : JobMetadata)
      → Follows (run_retry_cycle job actor meta)
  unfolding run_retry_cycle
  Follows-run_retry_cycle job actor meta = search (handler_rules, recovery_rules, Follows-run_plans)

  Follows-progress_each :
      (job : RunDeliveryProgressionJob) (actor : ActorContext) (meta : JobMetadata)
      (ds : List DeliveryRecord) (r : DeliveryProgressionResult)
      → Follows (progress_each job actor meta ds r)
  unfolding progress_each
  Follows-progress_each job actor meta [] r = search Follows-pure
  Follows-progress_each job actor meta (d ∷ ds) r =
      Follows-bind (attempt (progress_one d.delivery_id job.backend_id actor meta)) _
        (Follows-attempt _ (Follows-progress_one d.delivery_id job.backend_id actor meta))
        (λ outcome. Follows-progress_each job actor meta ds (record_item r outcome))

  pub Follows-progress_batch :
      (job : RunDeliveryProgressionJob) (actor : ActorContext) (meta : JobMetadata)
      → Follows (progress_batch job actor meta)
  unfolding progress_batch
  Follows-progress_batch job actor meta =
      search (handler_rules, recovery_rules, Follows-progress_each)
