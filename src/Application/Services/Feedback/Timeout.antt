-- ===== src/Application/Services/Feedback/Timeout.antt =====
-- crates/application/src/services/feedback.rs: the timeout signals.
use quantalithos_bus.Base.{ℕ, true, Option, none, some, List, if◌then◌else◌}
use quantalithos_bus.Base.Actions.{pure, lift, ◌>>=◌, map_err}
use quantalithos_bus.Base.Text.{codes}
use quantalithos_bus.Contracts.Core.{Core}
use quantalithos_bus.Contracts.Status.{DeliveryStatus}
use quantalithos_bus.Contracts.Metadata.{EventMetadata, feedback_timeout}
use quantalithos_bus.Contracts.Inputs.{DeliveryTimeoutSignalInput}
use quantalithos_bus.Contracts.Receipts.{
  TimeoutRecordResult, timeout_record_recorded, timeout_record_ignored,
}
use quantalithos_bus.Domain.Audit.{AuditAction}
use quantalithos_bus.Domain.Delivery.{DeliveryRecord, append_history, finish_attempt, mark_failed}
use quantalithos_bus.Domain.Delivery.History.{transition}
use quantalithos_bus.Domain.Feedback.{timeout, failure_reason, source_from_timeout_signal}
use quantalithos_bus.Domain.Idempotency.Scope.{IdempotencyScope, for_timeout_signal}
use quantalithos_bus.Domain.Idempotency.Digest.{
  IdempotencyAnchor, RequestDigest, from_request, matches,
}
use quantalithos_bus.Application.Ports.{UnitOfWorkPurpose, UnitOfWorkHandle}
use quantalithos_bus.Application.Errors.{conflict_error}
use quantalithos_bus.Application.Errors.From.{from_domain}
use quantalithos_bus.Infra.System.Repositories.{idempotency_find, delivery_get_for_update}
use quantalithos_bus.Infra.System.Backend.{failed_result}
use quantalithos_bus.Application.Services.{App, begin_unit, from_store, settle, rollback_with}
use quantalithos_bus.Application.Services.Publication.{begin_idempotency_conflict}
use quantalithos_bus.Application.Services.Feedback.{
  load_existing_timeout_result, validate_current_attempt, load_attempt, require_finished,
  store_feedback, same_error, ignore_signal,
}

module _ ⦃core : Core⦄ where
  open core use {ActorContext}

  -- `match from_status`; the first argument is that status.
  unfoldable pub close_attempt :
      DeliveryStatus
      → UnitOfWorkHandle
      → DeliveryRecord
      → DeliveryTimeoutSignalInput
      → App DeliveryRecord
  unfolding finish_attempt settle load_attempt require_finished rollback_with ◌>>=◌ pure from_domain
  close_attempt DeliveryStatus.dispatching uow delivery input = do
    let (finished, outcome) =
        finish_attempt delivery input.attempt_id (failed_result none) input.occurred_at
    _ ← settle uow from_domain outcome
    pure finished
  close_attempt DeliveryStatus.delivered uow delivery input = do
    _ ← settle uow same_error (require_finished (load_attempt delivery input.attempt_id))
    pure delivery
  close_attempt _ uow delivery input = rollback_with uow (
      conflict_error "conflict.timeout_not_allowed"
        (codes "timeout signal is only allowed for dispatching or delivered delivery") none)

  unfoldable pub timeout_on_delivery :
      Option DeliveryRecord
      → UnitOfWorkHandle
      → DeliveryTimeoutSignalInput
      → ActorContext
      → EventMetadata
      → RequestDigest
      → IdempotencyScope
      → App TimeoutRecordResult
  unfolding ignore_signal settle validate_current_attempt close_attempt source_from_timeout_signal
      timeout mark_failed failure_reason append_history transition store_feedback ◌>>=◌ pure
      from_domain feedback_timeout
  timeout_on_delivery none uow input actor meta request_digest scope = do
    audit_ref ←
        ignore_signal uow input.delivery_id AuditAction.timeout_signal_ignored actor meta.trace_ref
    pure (timeout_record_ignored input.delivery_id audit_ref)
  timeout_on_delivery (some delivery) uow input actor meta request_digest scope = do
    _ ← settle uow same_error (
        validate_current_attempt delivery input.attempt_id "conflict.timeout_attempt_mismatch"
          "timeout signal does not target the current delivery attempt")
    closed ← close_attempt delivery.status uow delivery input
    source ←
        settle uow from_domain (source_from_timeout_signal input.attempt_id input.timeout_reason)
    feedback ←
        settle uow from_domain
          (timeout closed.delivery_id source input.timeout_reason actor input.occurred_at)
    let (failed, marked) = mark_failed closed (failure_reason feedback) actor
    _ ← settle uow from_domain marked
    let (logged, appended) = append_history failed (
        transition failed.delivery_id delivery.status DeliveryStatus.failed feedback_timeout
          input.occurred_at)
    _ ← settle uow from_domain appended
    stored ←
        store_feedback uow delivery logged feedback actor meta.trace_ref scope input.idempotency_key
          request_digest
    pure (timeout_record_recorded stored.0.delivery_id stored.0.feedback_id true stored.1)

  unfoldable pub timeout_found :
      Option IdempotencyAnchor
      → DeliveryTimeoutSignalInput
      → ActorContext
      → EventMetadata
      → RequestDigest
      → IdempotencyScope
      → App TimeoutRecordResult
  unfolding matches load_existing_timeout_result begin_idempotency_conflict begin_unit from_store
      delivery_get_for_update timeout_on_delivery ◌>>=◌
  timeout_found (some existing_anchor) input actor meta request_digest scope =
      if matches existing_anchor request_digest
      then load_existing_timeout_result existing_anchor input.delivery_id
      else begin_idempotency_conflict UnitOfWorkPurpose.consume_timeout_signal scope
          input.idempotency_key existing_anchor request_digest actor meta.trace_ref
  timeout_found none input actor meta request_digest scope = do
    uow ← begin_unit UnitOfWorkPurpose.consume_timeout_signal actor
    found ← from_store (delivery_get_for_update input.delivery_id uow)
    timeout_on_delivery found uow input actor meta request_digest scope

  unfoldable pub record_timeout :
      (DeliveryTimeoutSignalInput → Option (List ℕ))
      → DeliveryTimeoutSignalInput
      → ActorContext
      → EventMetadata
      → App TimeoutRecordResult
  unfolding for_timeout_signal from_request lift from_domain from_store idempotency_find
      timeout_found ◌>>=◌
  record_timeout to_vec input actor meta = do
    let scope = for_timeout_signal input
    request_digest ← lift (map_err from_domain (from_request to_vec input))
    found ← from_store (idempotency_find scope input.idempotency_key)
    timeout_found found input actor meta request_digest scope
