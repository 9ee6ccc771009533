-- ===== src/Application/Atomicity/Feedback.antt =====
-- The recording of feedback, in one unit of work.
pub mod Timeout
pub mod Signal
use quantalithos_bus.Base.{inl, inr, ◌⊎◌, ℕ, ◌≡◌, Option, none, some, List, ok, arith}
use quantalithos_bus.Base.Actions.{lift, ◌>>=◌}
use quantalithos_bus.Contracts.Core.{Core}
use quantalithos_bus.Contracts.Status.{
  DeliveryStatus, FeedbackStatus, BackendStatus, BackendDeliveryStatus,
}
use quantalithos_bus.Contracts.Metadata.{
  BackendDeliveryResult, DeliveryId, DeliveryAttemptId, EventMetadata,
}
use quantalithos_bus.Contracts.Inputs.{
  RecordDeliveryFeedbackCommand, BackendDeliverySignalInput, DeliveryTimeoutSignalInput,
}
use quantalithos_bus.Contracts.Receipts.{BackendSignalNormalizedResult}
use quantalithos_bus.Domain.Audit.{AuditAction}
use quantalithos_bus.Domain.Delivery.{DeliveryRecord}
use quantalithos_bus.Domain.Delivery.Attempt.{DeliveryAttempt}
use quantalithos_bus.Domain.Feedback.{
  FeedbackResult, FeedbackSource, from_backend_signal, attach_audit_ref, build, ack, fail,
}
use quantalithos_bus.Domain.Idempotency.Scope.{IdempotencyScope}
use quantalithos_bus.Domain.Idempotency.Digest.{IdempotencyAnchor, RequestDigest, RecordRef}
use quantalithos_bus.Application.Ports.{UnitOfWorkHandle}
use quantalithos_bus.Application.Errors.{ApplicationError}
use quantalithos_bus.Application.Services.{App, settle}
use quantalithos_bus.Application.Errors.From.{from_domain}
use quantalithos_bus.Application.Services.Feedback.{
  result_from_feedback, load_bound_feedback, load_feedback, load_existing_feedback_result,
  load_existing_backend_signal_result, load_existing_timeout_result, store_feedback, ignore_signal,
  backend_signal_outcome,
}
use quantalithos_bus.Application.Services.Publication.Accept.{idempotency_key}
use quantalithos_bus.Application.Services.Feedback.Record.{
  apply_feedback, record_found, record_feedback,
}
use quantalithos_bus.Application.Services.Feedback.Signal.{
  apply_signal, store_signal, signal_on_delivery, signal_found, record_backend_signal,
}
use quantalithos_bus.Application.Services.Feedback.Timeout.{
  close_attempt, timeout_on_delivery, timeout_found, record_timeout,
}
use quantalithos_bus.Application.Atomicity.{
  Quiet, Atomic, Sure, Quiet-pure, Quiet-raise, Quiet-lift, Quiet-some_or, Atomic-Quiet, Atomic-if,
  Sure-pure, Sure-lift, Returns, Returns-pure,
}
use quantalithos_bus.Application.Atomicity.Blocks.{
  Quiet-bind, Atomic-bind, Atomic-then-Sure, Sure-bind, Returns-bind, Atomic-then-Returns,
}
use quantalithos_bus.Application.Atomicity.Calls.{
  unit_rules, Untraced, Quiet-from_store, Quiet-feedback_get, Quiet-feedback_insert,
  Quiet-delivery_save, Quiet-delivery_get_for_update, Quiet-normalize_signal, Quiet-settle,
  Quiet-clock_now, Atomic-bind_settle, Quiet-rollback_with, Quiet-idempotency_bind,
  Quiet-idempotency_find,
}
use quantalithos_bus.Application.Atomicity.Publication.{Atomic-conflict}

module _ ⦃core : Core⦄ where
  open core use {ActorContext, TraceId, IdempotencyKey, CommandMetadata}

  Quiet-load_bound_feedback : (r : RecordRef) → Quiet (load_bound_feedback r)
  unfolding load_bound_feedback
  Quiet-load_bound_feedback (RecordRef.feedback id) =
      search (Quiet-bind, Quiet-from_store, Quiet-feedback_get, Quiet-some_or)
  Quiet-load_bound_feedback (RecordRef.publication id) = search Quiet-raise

  Quiet-load_feedback : (anchor : IdempotencyAnchor) → Quiet (load_feedback anchor)
  unfolding load_feedback
  Quiet-load_feedback anchor = Quiet-load_bound_feedback anchor.bound_record_ref

  Quiet-load_existing_feedback_result :
      (anchor : IdempotencyAnchor) → Quiet (load_existing_feedback_result anchor)
  unfolding load_existing_feedback_result result_from_feedback
  Quiet-load_existing_feedback_result anchor =
      search (Quiet-bind, Quiet-load_feedback, Quiet-some_or, Quiet-pure)

  pub Quiet-load_existing_backend_signal_result :
      (anchor : IdempotencyAnchor) (id : DeliveryId) (attempt_id : DeliveryAttemptId)
      → Quiet (load_existing_backend_signal_result anchor id attempt_id)
  unfolding load_existing_backend_signal_result
  Quiet-load_existing_backend_signal_result anchor id attempt_id =
      search (Quiet-bind, Quiet-load_feedback, Quiet-some_or, Quiet-lift, Quiet-pure)

  pub Quiet-load_existing_timeout_result :
      (anchor : IdempotencyAnchor) (id : DeliveryId)
      → Quiet (load_existing_timeout_result anchor id)
  unfolding load_existing_timeout_result
  Quiet-load_existing_timeout_result anchor id =
      search (Quiet-bind, Quiet-load_feedback, Quiet-some_or, Quiet-lift, Quiet-pure)

  pub Atomic-store_feedback :
      (P : ApplicationError → Type 0) (uow : UnitOfWorkHandle) (original delivery : DeliveryRecord)
      (f : FeedbackResult) (actor : ActorContext) (trace_ref : TraceId) (scope : IdempotencyScope)
      (key : IdempotencyKey) (digest : RequestDigest)
      → Atomic P (store_feedback uow original delivery f actor trace_ref scope key digest)
  unfolding store_feedback
  Atomic-store_feedback P uow original delivery f actor trace_ref scope key digest =
      search (unit_rules, Quiet-feedback_insert, Quiet-delivery_save, Quiet-idempotency_bind) depth
        30

  pub Atomic-ignore_signal :
      (P : ApplicationError → Type 0) (uow : UnitOfWorkHandle) (id : DeliveryId)
      (action : AuditAction) (actor : ActorContext) (trace_ref : TraceId)
      → Atomic P (ignore_signal uow id action actor trace_ref)
  unfolding ignore_signal
  Atomic-ignore_signal P uow id action actor trace_ref = search unit_rules depth 30

  Quiet-apply_feedback :
      (status : FeedbackStatus) (uow : UnitOfWorkHandle) (d : DeliveryRecord) (f : FeedbackResult)
      (actor : ActorContext)
      → Quiet (apply_feedback status uow d f actor)
  unfolding apply_feedback
  Quiet-apply_feedback FeedbackStatus.ack uow d f actor =
      search (Quiet-bind, Quiet-settle, Quiet-pure)
  Quiet-apply_feedback FeedbackStatus.fail uow d f actor =
      search (Quiet-bind, Quiet-settle, Quiet-pure)
  Quiet-apply_feedback FeedbackStatus.timeout uow d f actor = search Quiet-rollback_with
  Quiet-apply_feedback FeedbackStatus.duplicate uow d f actor = search Quiet-rollback_with

  Atomic-record_found :
      (found : Option IdempotencyAnchor) (c : RecordDeliveryFeedbackCommand) (actor : ActorContext)
      (meta : CommandMetadata) (digest : RequestDigest) (scope : IdempotencyScope)
      (key : IdempotencyKey)
      → Atomic Untraced (record_found found c actor meta digest scope key)
  unfolding record_found
  Atomic-record_found none c actor meta digest scope key =
      search
        (
          unit_rules, Quiet-delivery_get_for_update, Quiet-apply_feedback, Atomic-then-Sure,
          Atomic-store_feedback,
        )
        depth 30
  Atomic-record_found (some anchor) c actor meta digest scope key =
      search (Atomic-if, Atomic-Quiet, Quiet-load_existing_feedback_result, Atomic-conflict)

  pub Atomic-record_feedback :
      (to_vec : RecordDeliveryFeedbackCommand → Option (List ℕ)) (c : RecordDeliveryFeedbackCommand)
      (actor : ActorContext) (meta : CommandMetadata)
      → Atomic Untraced (record_feedback to_vec c actor meta)
  unfolding record_feedback idempotency_key
  Atomic-record_feedback to_vec c actor meta =
      search
        (
          Atomic-bind, Quiet-some_or, Quiet-lift, Quiet-from_store, Quiet-idempotency_find,
          Atomic-record_found,
        )
        depth 7
