-- ===== src/Application/Services/Recovery.antt =====
-- crates/application/src/services/recovery.rs: the retry of failed deliveries under a retry plan.
pub mod Cycle
pub mod Commands
pub mod Replay
use quantalithos_bus.Base.{
  ◌++◌, Bool, true, false, not, Option, none, some, List, [], ◌∷◌, Result, ok, err, if◌then◌else◌,
}
use quantalithos_bus.Base.Actions.{pure, lift, some_or, attempt, ◌>>=◌}
use quantalithos_bus.Base.Text.{codes}
use quantalithos_bus.Contracts.Core.{Core}
use quantalithos_bus.Contracts.Status.{DeliveryStatus, delivery_eq}
use quantalithos_bus.Contracts.Metadata.{
  AuditRef, BackendDeliveryResult, DeliveryAttemptId, DeliveryId, FailureMaterialId, JobMetadata,
  RetryScanCursor, dispatching_started, delivery_arrived, delivery_failed, backend_unavailable,
  dispatch_failed, retry_rescheduled,
}
use quantalithos_bus.Contracts.Jobs.{
  RunRetryCycleJob, RetryCycleResult, retry_cycle_start, retry_cycle_record_retried,
  retry_cycle_record_exhausted, retry_cycle_record_failed, retry_cycle_set_next_cursor,
}
use quantalithos_bus.Domain.Audit.{BusAuditEntry, SubjectRef, AuditAction}
use quantalithos_bus.Domain.Delivery.{
  DeliveryRecord, start_attempt, append_history, mark_delivered, mark_failed, sync_attempt,
  reschedule_for_retry,
}
use quantalithos_bus.Domain.Delivery.Attempt.{DeliveryAttempt, finish}
use quantalithos_bus.Domain.Delivery.History.{transition}
use quantalithos_bus.Domain.Recovery.Failure.{FailureMaterial}
use quantalithos_bus.Domain.Recovery.Retry.{
  RetryPlan, has_remaining_attempts, mark_attempted, mark_exhausted,
}
use quantalithos_bus.Application.Ports.{
  UnitOfWorkPurpose, UnitOfWorkHandle, BusRecordKind, context_from_job,
}
use quantalithos_bus.Application.Errors.{ApplicationError, TransportPortError, not_found_error}
use quantalithos_bus.Application.Errors.From.{from_domain, from_repository}
use quantalithos_bus.Infra.System.Repositories.{
  delivery_get_for_update, delivery_save, audit_append, recovery_save_retry_plan,
  recovery_find_due_retry, recovery_get_failure_material,
}
use quantalithos_bus.Infra.System.Backend.{dispatch, failed_result}
use quantalithos_bus.Application.Services.{
  App, begin_unit, commit_unit, from_store, settle, or_rollback, found_or_rollback, new_record_id,
}
use quantalithos_bus.Application.Services.Delivery.{is_retryable}

module _ ⦃core : Core⦄ where
  open core use {ActorContext, Timestamp, TraceId}

  -- `ApplicationError::not_found("not_found.delivery", …)`
  unfoldable pub delivery_not_found : DeliveryId → ApplicationError
  delivery_not_found delivery_id =
      not_found_error "not_found.delivery"
        (codes "delivery " ++ delivery_id ++ codes " was not found") none

  unfoldable pub load_failed_delivery : DeliveryId → UnitOfWorkHandle → App DeliveryRecord
  unfolding from_store delivery_get_for_update some_or delivery_not_found ◌>>=◌
  load_failed_delivery delivery_id uow = do
    found ← from_store (delivery_get_for_update delivery_id uow)
    some_or (delivery_not_found delivery_id) found

  unfoldable pub load_failure_material : FailureMaterialId → App FailureMaterial
  unfolding from_store recovery_get_failure_material some_or ◌>>=◌
  load_failure_material failure_material_id = do
    found ← from_store (recovery_get_failure_material failure_material_id)
    some_or
        (not_found_error "not_found.failure_material"
          (codes "failure material " ++ failure_material_id ++ codes " was not found") none)
        found

  -- `retry_requested_audit`, `retry_attempted_audit` and `retry_exhausted_audit`, which differ in the action.
  unfoldable pub retry_audit :
      AuditAction → AuditRef → RetryPlan → ActorContext → TraceId → Timestamp → BusAuditEntry
  retry_audit action audit_ref retry_plan actor trace_ref occurred_at = record {
    audit_ref = audit_ref;
    subject_ref = SubjectRef.retry_plan retry_plan.retry_plan_id;
    action = action;
    actor = actor;
    occurred_at = occurred_at;
    trace_ref = trace_ref;
  }

  pub data RetryPlanRunOutcome : Type 0 where
    retried exhausted : RetryPlan → RetryPlanRunOutcome

  -- The branch of a plan without attempts left.
  unfoldable pub exhaust_plan :
      UnitOfWorkHandle
      → RetryPlan
      → ActorContext
      → JobMetadata
      → Timestamp
      → App RetryPlanRunOutcome
  unfolding mark_exhausted settle or_rollback recovery_save_retry_plan new_record_id retry_audit
      audit_append commit_unit from_domain from_repository ◌>>=◌ pure
  exhaust_plan uow retry_plan actor meta scan_time = do
    let (ended, outcome) = mark_exhausted retry_plan actor
    _ ← settle uow from_domain outcome
    _ ←
        or_rollback uow from_repository
          (recovery_save_retry_plan ended (some retry_plan.version) uow)
    audit_ref ← new_record_id BusRecordKind.audit_entry
    let audit =
        retry_audit AuditAction.retry_exhausted audit_ref ended actor meta.trace_ref scan_time
    _ ← or_rollback uow from_repository (audit_append audit uow)
    _ ← commit_unit uow
    pure (exhausted ended)

  -- `if delivery.status == DeliveryStatus::Failed { … }`
  unfoldable pub reschedule_failed :
      UnitOfWorkHandle → DeliveryRecord → ActorContext → Timestamp → App DeliveryRecord
  unfolding reschedule_for_retry append_history transition retry_rescheduled settle from_domain
      ◌>>=◌ pure
  reschedule_failed uow delivery actor scan_time =
      if delivery_eq delivery.status DeliveryStatus.failed
      then (do
        let (rescheduled, outcome) = reschedule_for_retry delivery actor
        _ ← settle uow from_domain outcome
        let (logged, appended) = append_history rescheduled (
            transition rescheduled.delivery_id DeliveryStatus.failed DeliveryStatus.scheduled
              retry_rescheduled scan_time)
        _ ← settle uow from_domain appended
        pure logged)
      else pure delivery

  -- What the `match dispatch_result` of `run_retry_plan` leaves in its variables.
  pub record Retried : Type 0 where
    pub delivery : DeliveryRecord
    pub attempt_id : DeliveryAttemptId
    pub retry_result : BackendDeliveryResult

  unfoldable pub retry_dispatched :
      UnitOfWorkHandle
      → DeliveryRecord
      → DeliveryAttempt
      → ActorContext
      → Timestamp
      → Result TransportPortError BackendDeliveryResult
      → App Retried
  unfolding settle ◌>>=◌ pure from_domain finish mark_delivered sync_attempt mark_failed
      append_history transition delivery_arrived delivery_failed is_retryable backend_unavailable
      dispatch_failed
  retry_dispatched uow delivery attempt actor finished_at (ok result) = do
    let (finished, outcome) = finish attempt result finished_at
    _ ← settle uow from_domain outcome
    let (delivered, marked) = mark_delivered delivery finished actor
    _ ← settle uow from_domain marked
    let (logged, appended) = append_history delivered (
        transition delivered.delivery_id DeliveryStatus.dispatching DeliveryStatus.delivered
          delivery_arrived finished_at)
    _ ← settle uow from_domain appended
    pure (record { delivery = logged; attempt_id = finished.attempt_id; retry_result = result })
  retry_dispatched uow delivery attempt actor finished_at (err error) = do
    let (finished, outcome) = finish attempt (failed_result none) finished_at
    _ ← settle uow from_domain outcome
    let (synced, stored) = sync_attempt delivery finished
    _ ← settle uow from_domain stored
    let failure_reason = if is_retryable error then backend_unavailable else dispatch_failed
    let (failed, marked) = mark_failed synced failure_reason actor
    _ ← settle uow from_domain marked
    let (logged, appended) = append_history failed (
        transition failed.delivery_id DeliveryStatus.dispatching DeliveryStatus.failed
          delivery_failed finished_at)
    _ ← settle uow from_domain appended
    pure (record {
      delivery = logged;
      attempt_id = finished.attempt_id;
      retry_result = failed_result none;
    })

  -- The branch of a plan with attempts left.
  unfoldable pub retry_delivery :
      UnitOfWorkHandle
      → DeliveryRecord
      → RetryPlan
      → ActorContext
      → JobMetadata
      → Timestamp
      → App RetryPlanRunOutcome
  unfolding reschedule_failed start_attempt settle append_history transition dispatching_started
      attempt dispatch retry_dispatched mark_attempted or_rollback delivery_save
      recovery_save_retry_plan new_record_id retry_audit audit_append commit_unit from_domain
      from_repository ◌>>=◌ pure
  retry_delivery uow delivery retry_plan actor meta scan_time = do
    ready ← reschedule_failed uow delivery actor scan_time
    let capability_ref = ready.transport_semantic.backend_capability_ref
    let (started, start) = start_attempt ready capability_ref scan_time
    attempt_record ← settle uow from_domain start
    let (dispatching, appended) = append_history started (
        transition started.delivery_id DeliveryStatus.scheduled DeliveryStatus.dispatching
          dispatching_started scan_time)
    _ ← settle uow from_domain appended
    dispatch_result ← attempt (
        dispatch dispatching.transport_semantic attempt_record (
          context_from_job meta
            dispatching.transport_semantic.backend_capability_ref.capability_id))
    end ← retry_dispatched uow dispatching attempt_record actor scan_time dispatch_result
    let (attempted, marked) = mark_attempted retry_plan end.attempt_id end.retry_result
    _ ← settle uow from_domain marked
    _ ← or_rollback uow from_repository (delivery_save end.delivery delivery.version uow)
    _ ←
        or_rollback uow from_repository
          (recovery_save_retry_plan attempted (some retry_plan.version) uow)
    audit_ref ← new_record_id BusRecordKind.audit_entry
    let audit =
        retry_audit AuditAction.retry_attempted audit_ref attempted actor meta.trace_ref scan_time
    _ ← or_rollback uow from_repository (audit_append audit uow)
    _ ← commit_unit uow
    pure (retried attempted)

  unfoldable pub run_retry_plan :
      RetryPlan → ActorContext → JobMetadata → Timestamp → App RetryPlanRunOutcome
  unfolding begin_unit from_store delivery_get_for_update found_or_rollback delivery_not_found
      has_remaining_attempts exhaust_plan retry_delivery ◌>>=◌
  run_retry_plan retry_plan actor meta scan_time = do
    uow ← begin_unit UnitOfWorkPurpose.run_retry_cycle actor
    found ← from_store (delivery_get_for_update retry_plan.delivery_id uow)
    delivery ← found_or_rollback uow (delivery_not_found retry_plan.delivery_id) found
    if not (has_remaining_attempts retry_plan)
        then exhaust_plan uow retry_plan actor meta scan_time
        else retry_delivery uow delivery retry_plan actor meta scan_time
