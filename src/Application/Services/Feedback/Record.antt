-- ===== src/Application/Services/Feedback/Record.antt =====
-- crates/application/src/services/feedback.rs: feedback by command.
use quantalithos_bus.Base.{ℕ, Option, none, some, List, ◌++◌, if◌then◌else◌}
use quantalithos_bus.Base.Actions.{pure, lift, ◌>>=◌, map_err}
use quantalithos_bus.Base.Text.{codes}
use quantalithos_bus.Contracts.Core.{Core}
use quantalithos_bus.Contracts.Status.{DeliveryStatus, FeedbackStatus}
use quantalithos_bus.Contracts.Metadata.{feedback_ack, feedback_fail}
use quantalithos_bus.Contracts.Inputs.{RecordDeliveryFeedbackCommand}
use quantalithos_bus.Contracts.Receipts.{FeedbackRecordResult, feedback_record_recorded}
use quantalithos_bus.Domain.Delivery.{DeliveryRecord, append_history, mark_completed, mark_failed}
use quantalithos_bus.Domain.Delivery.History.{transition}
use quantalithos_bus.Domain.Feedback.{FeedbackResult, from_command, failure_reason}
use quantalithos_bus.Domain.Idempotency.Scope.{IdempotencyScope, for_record_delivery_feedback}
use quantalithos_bus.Domain.Idempotency.Digest.{
  IdempotencyAnchor, RequestDigest, from_request, matches,
}
use quantalithos_bus.Application.Ports.{UnitOfWorkPurpose, UnitOfWorkHandle}
use quantalithos_bus.Application.Errors.{not_found_error, validation_error}
use quantalithos_bus.Application.Errors.From.{from_domain}
use quantalithos_bus.Infra.System.Repositories.{idempotency_find, delivery_get_for_update}
use quantalithos_bus.Application.Services.{
  App, begin_unit, from_store, settle, rollback_with, found_or_rollback,
}
use quantalithos_bus.Application.Services.Publication.{begin_idempotency_conflict}
use quantalithos_bus.Application.Services.Publication.Accept.{idempotency_key}
use quantalithos_bus.Application.Services.Feedback.{
  load_existing_feedback_result, validate_feedback_attempt, store_feedback, same_error,
}

module _ ⦃core : Core⦄ where
  open core use {ActorContext, CommandMetadata, IdempotencyKey, request_trace_id}

  -- `match feedback.status`; the first argument is that status.
  unfoldable pub apply_feedback :
      FeedbackStatus
      → UnitOfWorkHandle
      → DeliveryRecord
      → FeedbackResult
      → ActorContext
      → App DeliveryRecord
  unfolding mark_completed mark_failed failure_reason append_history transition settle ◌>>=◌ pure
      rollback_with from_domain feedback_ack feedback_fail
  apply_feedback FeedbackStatus.ack uow delivery feedback actor = do
    let (completed, marked) = mark_completed delivery feedback actor
    _ ← settle uow from_domain marked
    let (logged, appended) = append_history completed (
        transition completed.delivery_id delivery.status DeliveryStatus.completed feedback_ack
          feedback.observed_at)
    _ ← settle uow from_domain appended
    pure logged
  apply_feedback FeedbackStatus.fail uow delivery feedback actor = do
    let (failed, marked) = mark_failed delivery (failure_reason feedback) actor
    _ ← settle uow from_domain marked
    let (logged, appended) = append_history failed (
        transition failed.delivery_id delivery.status DeliveryStatus.failed feedback_fail
          feedback.observed_at)
    _ ← settle uow from_domain appended
    pure logged
  apply_feedback _ uow delivery feedback actor = rollback_with uow (
      validation_error "validation.feedback_kind"
        (codes "feedback command only accepts ack or fail kinds"))

  -- `record`, on what `find(&scope, &idempotency_key)` gives.
  unfoldable pub record_found :
      Option IdempotencyAnchor
      → RecordDeliveryFeedbackCommand
      → ActorContext
      → CommandMetadata
      → RequestDigest
      → IdempotencyScope
      → IdempotencyKey
      → App FeedbackRecordResult
  unfolding matches load_existing_feedback_result begin_idempotency_conflict begin_unit from_store
      delivery_get_for_update found_or_rollback settle validate_feedback_attempt from_command
      apply_feedback store_feedback ◌>>=◌ pure from_domain
  record_found (some existing_anchor) command actor meta request_digest scope key =
      if matches existing_anchor request_digest
      then load_existing_feedback_result existing_anchor
      else begin_idempotency_conflict UnitOfWorkPurpose.record_delivery_feedback scope key
          existing_anchor request_digest actor (request_trace_id meta)
  record_found none command actor meta request_digest scope key = do
    uow ← begin_unit UnitOfWorkPurpose.record_delivery_feedback actor
    found ← from_store (delivery_get_for_update command.delivery_id uow)
    delivery ←
        found_or_rollback uow
          (not_found_error "not_found.delivery"
            (codes "delivery " ++ command.delivery_id ++ codes " was not found") none)
          found
    _ ← settle uow same_error (validate_feedback_attempt delivery command.attempt_id)
    feedback ← settle uow from_domain (from_command command actor)
    updated ← apply_feedback feedback.status uow delivery feedback actor
    stored ←
        store_feedback uow delivery updated feedback actor (request_trace_id meta) scope key
          request_digest
    pure
        (feedback_record_recorded stored.0.feedback_id stored.0.delivery_id updated.status stored.1)

  unfoldable pub record_feedback :
      (RecordDeliveryFeedbackCommand → Option (List ℕ))
      → RecordDeliveryFeedbackCommand
      → ActorContext
      → CommandMetadata
      → App FeedbackRecordResult
  unfolding idempotency_key for_record_delivery_feedback from_request lift from_domain from_store
      idempotency_find record_found ◌>>=◌
  record_feedback to_vec command actor meta = do
    key ← idempotency_key meta
    let scope = for_record_delivery_feedback command
    request_digest ← lift (map_err from_domain (from_request to_vec command))
    found ← from_store (idempotency_find scope key)
    record_found found command actor meta request_digest scope key
