-- ===== src/Application/Services/Feedback/Signal.antt =====
-- crates/application/src/services/feedback.rs: the delivery signals of a backend.
use quantalithos_bus.Base.{ℕ, Option, none, some, List, if◌then◌else◌}
use quantalithos_bus.Base.Actions.{pure, lift, ◌>>=◌, map_err}
use quantalithos_bus.Contracts.Core.{Core}
use quantalithos_bus.Contracts.Status.{DeliveryStatus, BackendDeliveryStatus}
use quantalithos_bus.Contracts.Metadata.{
  BackendDeliveryResult, EventMetadata, delivery_arrived, delivery_failed,
}
use quantalithos_bus.Contracts.Inputs.{BackendDeliverySignalInput}
use quantalithos_bus.Contracts.Receipts.{
  BackendSignalResult, backend_signal_recorded, backend_signal_ignored,
}
use quantalithos_bus.Domain.Audit.{AuditAction}
use quantalithos_bus.Domain.Delivery.{
  DeliveryRecord, append_history, finish_attempt, mark_delivered, mark_failed,
}
use quantalithos_bus.Domain.Delivery.Attempt.{DeliveryAttempt}
use quantalithos_bus.Domain.Delivery.History.{transition}
use quantalithos_bus.Domain.Feedback.{
  FeedbackResult, from_backend_signal, failure_reason, source_from_backend_signal,
}
use quantalithos_bus.Domain.Idempotency.Scope.{IdempotencyScope, for_backend_signal}
use quantalithos_bus.Domain.Idempotency.Digest.{
  IdempotencyAnchor, RequestDigest, from_request, matches,
}
use quantalithos_bus.Application.Ports.{UnitOfWorkPurpose, UnitOfWorkHandle}
use quantalithos_bus.Application.Errors.From.{from_domain, from_transport}
use quantalithos_bus.Infra.System.Repositories.{idempotency_find, delivery_get_for_update}
use quantalithos_bus.Infra.System.Backend.{normalize_signal}
use quantalithos_bus.Application.Services.{
  App, begin_unit, from_store, settle, or_rollback, clock_now,
}
use quantalithos_bus.Application.Services.Publication.{begin_idempotency_conflict}
use quantalithos_bus.Application.Services.Feedback.{
  load_existing_backend_signal_result, validate_current_attempt, store_feedback, same_error,
  ignore_signal, backend_signal_outcome,
}

module _ ⦃core : Core⦄ where
  open core use {ActorContext, Timestamp}

  -- `match normalized.status`; the first argument is that status.
  unfoldable pub apply_signal :
      BackendDeliveryStatus
      → UnitOfWorkHandle
      → DeliveryStatus
      → DeliveryRecord
      → DeliveryAttempt
      → FeedbackResult
      → ActorContext
      → Timestamp
      → App DeliveryRecord
  unfolding mark_delivered mark_failed failure_reason append_history transition settle ◌>>=◌ pure
      from_domain delivery_arrived delivery_failed
  apply_signal BackendDeliveryStatus.delivered uow from_status delivery attempt feedback actor
        occurred_at =
      do
        let (delivered, marked) = mark_delivered delivery attempt actor
        _ ← settle uow from_domain marked
        let (logged, appended) = append_history delivered (
            transition delivered.delivery_id from_status DeliveryStatus.delivered delivery_arrived
              occurred_at)
        _ ← settle uow from_domain appended
        pure logged
  apply_signal BackendDeliveryStatus.failed uow from_status delivery attempt feedback actor
        occurred_at =
      do
        let (failed, marked) = mark_failed delivery (failure_reason feedback) actor
        _ ← settle uow from_domain marked
        let (logged, appended) = append_history failed (
            transition failed.delivery_id from_status DeliveryStatus.failed delivery_failed
              occurred_at)
        _ ← settle uow from_domain appended
        pure logged

  -- What follows once the feedback is made.
  unfoldable pub store_signal :
      UnitOfWorkHandle
      → BackendDeliverySignalInput
      → BackendDeliveryResult
      → DeliveryRecord
      → DeliveryRecord
      → DeliveryAttempt
      → FeedbackResult
      → Timestamp
      → ActorContext
      → EventMetadata
      → RequestDigest
      → IdempotencyScope
      → App BackendSignalResult
  unfolding apply_signal store_feedback lift backend_signal_outcome ◌>>=◌ pure
  store_signal uow input normalized delivery finished attempt feedback occurred_at actor meta
        request_digest scope =
      do
        updated ←
            apply_signal normalized.status uow delivery.status finished attempt feedback actor
              occurred_at
        stored ←
            store_feedback uow delivery updated feedback actor meta.trace_ref scope
              input.idempotency_key request_digest
        normalized_result ← lift (backend_signal_outcome stored.0.status)
        pure (
            backend_signal_recorded stored.0.delivery_id input.attempt_id normalized_result
              stored.0.feedback_id stored.1)

  -- What follows `get_for_update`.
  unfoldable pub signal_on_delivery :
      Option DeliveryRecord
      → UnitOfWorkHandle
      → BackendDeliverySignalInput
      → BackendDeliveryResult
      → ActorContext
      → EventMetadata
      → RequestDigest
      → IdempotencyScope
      → App BackendSignalResult
  unfolding ignore_signal settle validate_current_attempt clock_now finish_attempt
      source_from_backend_signal from_backend_signal store_signal ◌>>=◌ pure from_domain
  signal_on_delivery none uow input normalized actor meta request_digest scope = do
    audit_ref ←
        ignore_signal uow input.delivery_id AuditAction.backend_signal_ignored actor meta.trace_ref
    pure (backend_signal_ignored input.delivery_id input.attempt_id audit_ref)
  signal_on_delivery (some delivery) uow input normalized actor meta request_digest scope = do
    _ ← settle uow same_error (
        validate_current_attempt delivery input.attempt_id
          "conflict.backend_signal_attempt_mismatch"
          "backend signal does not target the current delivery attempt")
    occurred_at ← clock_now
    let (finished, outcome) = finish_attempt delivery input.attempt_id normalized occurred_at
    attempt ← settle uow from_domain outcome
    source ←
        settle uow from_domain (
          source_from_backend_signal input.attempt_id input.backend_status input.backend_result_ref)
    feedback ←
        settle uow from_domain
          (from_backend_signal finished.delivery_id source input.backend_status actor occurred_at)
    store_signal uow input normalized delivery finished attempt feedback occurred_at actor meta
        request_digest scope

  unfoldable pub signal_found :
      Option IdempotencyAnchor
      → BackendDeliverySignalInput
      → ActorContext
      → EventMetadata
      → RequestDigest
      → IdempotencyScope
      → App BackendSignalResult
  unfolding matches load_existing_backend_signal_result begin_idempotency_conflict begin_unit
      or_rollback from_transport normalize_signal from_store delivery_get_for_update
      signal_on_delivery ◌>>=◌
  signal_found (some existing_anchor) input actor meta request_digest scope =
      if matches existing_anchor request_digest
      then load_existing_backend_signal_result existing_anchor input.delivery_id input.attempt_id
      else begin_idempotency_conflict UnitOfWorkPurpose.consume_backend_delivery_signal scope
          input.idempotency_key existing_anchor request_digest actor meta.trace_ref
  signal_found none input actor meta request_digest scope = do
    uow ← begin_unit UnitOfWorkPurpose.consume_backend_delivery_signal actor
    normalized ← or_rollback uow from_transport (normalize_signal input)
    found ← from_store (delivery_get_for_update input.delivery_id uow)
    signal_on_delivery found uow input normalized actor meta request_digest scope

  unfoldable pub record_backend_signal :
      (BackendDeliverySignalInput → Option (List ℕ))
      → BackendDeliverySignalInput
      → ActorContext
      → EventMetadata
      → App BackendSignalResult
  unfolding for_backend_signal from_request lift from_domain from_store idempotency_find
      signal_found ◌>>=◌
  record_backend_signal to_vec input actor meta = do
    let scope = for_backend_signal input
    request_digest ← lift (map_err from_domain (from_request to_vec input))
    found ← from_store (idempotency_find scope input.idempotency_key)
    signal_found found input actor meta request_digest scope
