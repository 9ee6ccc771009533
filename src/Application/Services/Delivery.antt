-- ===== src/Application/Services/Delivery.antt =====
-- crates/application/src/services/delivery.rs: the progression of one delivery, and of a batch.
pub mod Batch
use quantalithos_bus.Base.{
  ◌++◌, Bool, true, false, none, List, [], ◌∷◌, Result, ok, err, String, if◌then◌else◌,
}
use quantalithos_bus.Base.Actions.{pure, attempt, ◌>>=◌}
use quantalithos_bus.Base.Text.{Text, codes}
use quantalithos_bus.Contracts.Core.{Core}
use quantalithos_bus.Contracts.Status.{DeliveryStatus, delivery_eq}
use quantalithos_bus.Contracts.Metadata.{
  AuditRef, BackendDeliveryResult, DeliveryId, DeliveryScanCursor, JobMetadata, sanitize,
  dispatching_started, delivery_arrived, delivery_failed, backend_unavailable, dispatch_failed,
}
use quantalithos_bus.Contracts.Projections.{BackendId}
use quantalithos_bus.Contracts.Jobs.{
  RunDeliveryProgressionJob, DeliveryProgressionResult, delivery_progression_start,
  delivery_progression_record_dispatched, delivery_progression_record_skipped,
  delivery_progression_record_failed, delivery_progression_set_next_cursor,
}
use quantalithos_bus.Domain.Audit.{BusAuditEntry, SubjectRef, AuditAction}
use quantalithos_bus.Domain.Delivery.{
  DeliveryRecord, start_attempt, append_history, mark_delivered, mark_failed, sync_attempt,
}
use quantalithos_bus.Domain.Delivery.Attempt.{DeliveryAttempt, finish}
use quantalithos_bus.Domain.Delivery.History.{transition}
use quantalithos_bus.Application.Ports.{UnitOfWorkPurpose, UnitOfWorkHandle, context_from_job}
use quantalithos_bus.Application.Errors.{
  ApplicationError, ProtocolErrorCategory, TransportPortError, category, not_found_error,
}
use quantalithos_bus.Application.Errors.From.{from_domain, from_repository}
use quantalithos_bus.Infra.System.Repositories.{
  delivery_get_for_update, delivery_save, delivery_find_schedulable, audit_append,
}
use quantalithos_bus.Infra.System.Backend.{dispatch, failed_result}
use quantalithos_bus.Application.Services.{
  App, begin_unit, commit_unit, clock_now, from_store, settle, or_rollback, found_or_rollback,
}

unfoldable pub is_retryable : TransportPortError → Bool
is_retryable TransportPortError.backend_unavailable = true
is_retryable TransportPortError.dispatch_timeout = true
is_retryable _ = false

unfoldable pub needs_manual_action : TransportPortError → Bool
needs_manual_action TransportPortError.private_body_violation = true
needs_manual_action _ = false

module _ ⦃core : Core⦄ where
  open core use {ActorContext, Timestamp, time_as_str, TraceId}

  pub record DeliveryProgressionItemResult : Type 0 where
    pub delivery_id : DeliveryId
    pub final_status : DeliveryStatus
    pub retryable : Bool
    pub manual_action_required : Bool

  unfoldable pub item_from_delivery : DeliveryRecord → Bool → Bool → DeliveryProgressionItemResult
  item_from_delivery delivery retryable manual_action_required = record {
    delivery_id = delivery.delivery_id;
    final_status = delivery.status;
    retryable = retryable;
    manual_action_required = manual_action_required;
  }

  unfoldable pub audit_ref_for : DeliveryId → Text → Timestamp → AuditRef
  audit_ref_for delivery_id label occurred_at =
      codes "audit_"
      ++ sanitize delivery_id
      ++ codes "_"
      ++ label
      ++ codes "_"
      ++ sanitize (time_as_str occurred_at)

  -- `BusAuditEntry::record(audit_ref_for(…), SubjectRef::Delivery(…), …)`
  unfoldable pub delivery_audit :
      DeliveryId → String → AuditAction → ActorContext → TraceId → Timestamp → BusAuditEntry
  unfolding audit_ref_for
  delivery_audit delivery_id label action actor trace_ref occurred_at = record {
    audit_ref = audit_ref_for delivery_id (codes label) occurred_at;
    subject_ref = SubjectRef.delivery delivery_id;
    action = action;
    actor = actor;
    occurred_at = occurred_at;
    trace_ref = trace_ref;
  }

  -- What the `match dispatch_result` of `progress_one` leaves in its variables.
  pub record Dispatched : Type 0 where
    pub delivery : DeliveryRecord
    pub retryable : Bool
    pub manual_action_required : Bool
    pub second_audit : BusAuditEntry

  unfoldable pub dispatch_succeeded :
      UnitOfWorkHandle
      → DeliveryRecord
      → DeliveryAttempt
      → ActorContext
      → JobMetadata
      → Timestamp
      → BackendDeliveryResult
      → App Dispatched
  unfolding settle ◌>>=◌ pure from_domain finish mark_delivered append_history transition
      delivery_audit delivery_arrived
  dispatch_succeeded uow delivery attempt actor meta finished_at result = do
    let (finished, outcome) = finish attempt result finished_at
    _ ← settle uow from_domain outcome
    let (delivered, marked) = mark_delivered delivery finished actor
    _ ← settle uow from_domain marked
    let (logged, appended) = append_history delivered (
        transition delivered.delivery_id DeliveryStatus.dispatching DeliveryStatus.delivered
          delivery_arrived finished_at)
    _ ← settle uow from_domain appended
    pure (record {
      delivery = logged;
      retryable = false;
      manual_action_required = false;
      second_audit =
          delivery_audit logged.delivery_id "delivered" AuditAction.delivery_delivered actor
            meta.trace_ref finished_at;
    })

  unfoldable pub dispatch_refused :
      UnitOfWorkHandle
      → DeliveryRecord
      → DeliveryAttempt
      → ActorContext
      → JobMetadata
      → Timestamp
      → TransportPortError
      → App Dispatched
  unfolding settle ◌>>=◌ pure from_domain finish sync_attempt mark_failed append_history transition
      delivery_audit is_retryable needs_manual_action delivery_failed backend_unavailable
      dispatch_failed
  dispatch_refused uow delivery attempt actor meta finished_at error = do
    let (finished, outcome) = finish attempt (failed_result none) finished_at
    _ ← settle uow from_domain outcome
    let (synced, stored) = sync_attempt delivery finished
    _ ← settle uow from_domain stored
    let failure_reason = if is_retryable error then backend_unavailable else dispatch_failed
    let (failed, marked) = mark_failed synced failure_reason actor
    _ ← settle uow from_domain marked
    let (logged, appended) = append_history failed (
        transition failed.delivery_id DeliveryStatus.dispatching DeliveryStatus.failed
          delivery_failed finished_at)
    _ ← settle uow from_domain appended
    pure (record {
      delivery = logged;
      retryable = is_retryable error;
      manual_action_required = needs_manual_action error;
      second_audit =
          delivery_audit logged.delivery_id "failed" (AuditAction.delivery_failed failure_reason)
            actor meta.trace_ref finished_at;
    })

  -- `match dispatch_result`
  unfoldable pub after_dispatch :
      UnitOfWorkHandle
      → DeliveryRecord
      → DeliveryAttempt
      → ActorContext
      → JobMetadata
      → Timestamp
      → Result TransportPortError BackendDeliveryResult
      → App Dispatched
  unfolding dispatch_succeeded dispatch_refused
  after_dispatch uow delivery attempt actor meta finished_at (ok result) =
      dispatch_succeeded uow delivery attempt actor meta finished_at result
  after_dispatch uow delivery attempt actor meta finished_at (err error) =
      dispatch_refused uow delivery attempt actor meta finished_at error

  unfoldable pub progress_one :
      DeliveryId → BackendId → ActorContext → JobMetadata → App DeliveryProgressionItemResult
  unfolding begin_unit from_store delivery_get_for_update found_or_rollback clock_now start_attempt
      settle append_history attempt dispatch after_dispatch delivery_audit or_rollback delivery_save
      audit_append commit_unit item_from_delivery transition dispatching_started from_domain
      from_repository ◌>>=◌ pure
  progress_one delivery_id backend_id actor meta = do
    uow ← begin_unit UnitOfWorkPurpose.run_delivery_progression actor
    found ← from_store (delivery_get_for_update delivery_id uow)
    delivery ←
        found_or_rollback uow
          (not_found_error "not_found.delivery"
            (codes "delivery " ++ delivery_id ++ codes " was not found") none)
          found
    started_at ← clock_now
    let (started, start) =
        start_attempt delivery delivery.transport_semantic.backend_capability_ref started_at
    attempt_record ← settle uow from_domain start
    let (dispatching, appended) = append_history started (
        transition started.delivery_id delivery.status DeliveryStatus.dispatching
          dispatching_started started_at)
    _ ← settle uow from_domain appended
    dispatch_result ←
        attempt (
          dispatch dispatching.transport_semantic attempt_record (context_from_job meta backend_id))
    finished_at ← clock_now
    end ← after_dispatch uow dispatching attempt_record actor meta finished_at dispatch_result
    let started_audit =
        delivery_audit end.delivery.delivery_id "dispatching" AuditAction.delivery_dispatch_started
          actor meta.trace_ref started_at
    _ ← or_rollback uow from_repository (delivery_save end.delivery delivery.version uow)
    _ ← or_rollback uow from_repository (audit_append started_audit uow)
    _ ← or_rollback uow from_repository (audit_append end.second_audit uow)
    _ ← commit_unit uow
    pure (item_from_delivery end.delivery end.retryable end.manual_action_required)
