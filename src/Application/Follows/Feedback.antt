-- ===== src/Application/Follows/Feedback.antt =====
-- crates/application/src/services: feedback, signals and timeouts, as calls of the store.
use quantalithos_bus.Base.{ℕ, Option, none, some, List}
use quantalithos_bus.Contracts.Core.{Core}
use quantalithos_bus.Contracts.Status.{DeliveryStatus, FeedbackStatus, BackendDeliveryStatus}
use quantalithos_bus.Contracts.Metadata.{
  BackendDeliveryResult, DeliveryId, DeliveryAttemptId, EventMetadata,
}
use quantalithos_bus.Contracts.Inputs.{
  RecordDeliveryFeedbackCommand, BackendDeliverySignalInput, DeliveryTimeoutSignalInput,
}
use quantalithos_bus.Domain.Audit.{AuditAction}
use quantalithos_bus.Domain.Delivery.{DeliveryRecord}
use quantalithos_bus.Domain.Delivery.Attempt.{DeliveryAttempt}
use quantalithos_bus.Domain.Feedback.{FeedbackResult}
use quantalithos_bus.Domain.Idempotency.Scope.{IdempotencyScope}
use quantalithos_bus.Domain.Idempotency.Digest.{IdempotencyAnchor, RequestDigest, RecordRef}
use quantalithos_bus.Application.Ports.{UnitOfWorkHandle}
use quantalithos_bus.Application.Services.Feedback.{
  result_from_feedback, load_bound_feedback, load_feedback, load_existing_feedback_result,
  load_existing_backend_signal_result, load_existing_timeout_result, store_feedback, ignore_signal,
}
use quantalithos_bus.Application.Services.Publication.Accept.{idempotency_key}
use quantalithos_bus.Application.Services.Feedback.Record.{
  apply_feedback, record_found, record_feedback,
}
use quantalithos_bus.Application.Services.Feedback.Signal.{
  apply_signal, store_signal, signal_on_delivery, signal_found, record_backend_signal,
}
use quantalithos_bus.Application.Services.Feedback.Timeout.{
  close_attempt, timeout_on_delivery, timeout_found, record_timeout,
}
use quantalithos_bus.Application.Follows.{Follows}
use quantalithos_bus.Application.Follows.Calls.{handler_rules}
use quantalithos_bus.Application.Follows.Publication.{Follows-conflict}

module _ ⦃core : Core⦄ where
  open core use {ActorContext, Timestamp, TraceId, IdempotencyKey, CommandMetadata}

  Follows-load_bound_feedback : (r : RecordRef) → Follows (load_bound_feedback r)
  unfolding load_bound_feedback
  Follows-load_bound_feedback (RecordRef.feedback id) = search handler_rules depth 30
  Follows-load_bound_feedback (RecordRef.publication id) = search handler_rules depth 30

  Follows-load_feedback : (anchor : IdempotencyAnchor) → Follows (load_feedback anchor)
  unfolding load_feedback
  Follows-load_feedback anchor = search (handler_rules, Follows-load_bound_feedback) depth 30

  Follows-load_existing_feedback_result :
      (anchor : IdempotencyAnchor) → Follows (load_existing_feedback_result anchor)
  unfolding load_existing_feedback_result result_from_feedback
  Follows-load_existing_feedback_result anchor =
      search (handler_rules, Follows-load_bound_feedback) depth 30

  Follows-load_existing_backend_signal_result :
      (anchor : IdempotencyAnchor) (id : DeliveryId) (attempt_id : DeliveryAttemptId)
      → Follows (load_existing_backend_signal_result anchor id attempt_id)
  unfolding load_existing_backend_signal_result
  Follows-load_existing_backend_signal_result anchor id attempt_id =
      search (handler_rules, Follows-load_bound_feedback) depth 30

  Follows-load_existing_timeout_result :
      (anchor : IdempotencyAnchor) (id : DeliveryId)
      → Follows (load_existing_timeout_result anchor id)
  unfolding load_existing_timeout_result
  Follows-load_existing_timeout_result anchor id =
      search (handler_rules, Follows-load_bound_feedback) depth 30

  Follows-store_feedback :
      (uow : UnitOfWorkHandle) (original delivery : DeliveryRecord) (f : FeedbackResult)
      (actor : ActorContext) (trace_ref : TraceId) (scope : IdempotencyScope) (key : IdempotencyKey)
      (digest : RequestDigest)
      → Follows (store_feedback uow original delivery f actor trace_ref scope key digest)
  unfolding store_feedback
  Follows-store_feedback uow original delivery f actor trace_ref scope key digest =
      search handler_rules depth 30

  Follows-ignore_signal :
      (uow : UnitOfWorkHandle) (id : DeliveryId) (action : AuditAction) (actor : ActorContext)
      (trace_ref : TraceId)
      → Follows (ignore_signal uow id action actor trace_ref)
  unfolding ignore_signal
  Follows-ignore_signal uow id action actor trace_ref = search handler_rules depth 30

  Follows-apply_feedback :
      (status : FeedbackStatus) (uow : UnitOfWorkHandle) (d : DeliveryRecord) (f : FeedbackResult)
      (actor : ActorContext)
      → Follows (apply_feedback status uow d f actor)
  unfolding apply_feedback
  Follows-apply_feedback FeedbackStatus.ack uow d f actor = search handler_rules depth 30
  Follows-apply_feedback FeedbackStatus.fail uow d f actor = search handler_rules depth 30
  Follows-apply_feedback FeedbackStatus.timeout uow d f actor = search handler_rules depth 30
  Follows-apply_feedback FeedbackStatus.duplicate uow d f actor = search handler_rules depth 30

  Follows-record_found :
      (found : Option IdempotencyAnchor) (c : RecordDeliveryFeedbackCommand) (actor : ActorContext)
      (meta : CommandMetadata) (digest : RequestDigest) (scope : IdempotencyScope)
      (key : IdempotencyKey)
      → Follows (record_found found c actor meta digest scope key)
  unfolding record_found
  Follows-record_found none c actor meta digest scope key =
      search (handler_rules, Follows-store_feedback, Follows-apply_feedback) depth 30
  Follows-record_found (some anchor) c actor meta digest scope key =
      search (handler_rules, Follows-load_existing_feedback_result, Follows-conflict) depth 30

  pub Follows-record_feedback :
      (to_vec : RecordDeliveryFeedbackCommand → Option (List ℕ)) (c : RecordDeliveryFeedbackCommand)
      (actor : ActorContext) (meta : CommandMetadata)
      → Follows (record_feedback to_vec c actor meta)
  unfolding record_feedback idempotency_key
  Follows-record_feedback to_vec c actor meta =
      search (handler_rules, Follows-record_found) depth 30

  Follows-apply_signal :
      (status : BackendDeliveryStatus) (uow : UnitOfWorkHandle) (from_status : DeliveryStatus)
      (d : DeliveryRecord) (a : DeliveryAttempt) (f : FeedbackResult) (actor : ActorContext)
      (at : Timestamp)
      → Follows (apply_signal status uow from_status d a f actor at)
  unfolding apply_signal
  Follows-apply_signal BackendDeliveryStatus.delivered uow from_status d a f actor at =
      search handler_rules depth 30
  Follows-apply_signal BackendDeliveryStatus.failed uow from_status d a f actor at =
      search handler_rules depth 30

  Follows-store_signal :
      (uow : UnitOfWorkHandle) (i : BackendDeliverySignalInput) (n : BackendDeliveryResult)
      (d finished : DeliveryRecord) (a : DeliveryAttempt) (f : FeedbackResult) (at : Timestamp)
      (actor : ActorContext) (meta : EventMetadata) (digest : RequestDigest)
      (scope : IdempotencyScope)
      → Follows (store_signal uow i n d finished a f at actor meta digest scope)
  unfolding store_signal
  Follows-store_signal uow i n d finished a f at actor meta digest scope =
      search (handler_rules, Follows-store_feedback, Follows-apply_signal) depth 30

  Follows-signal_on_delivery :
      (found : Option DeliveryRecord) (uow : UnitOfWorkHandle) (i : BackendDeliverySignalInput)
      (n : BackendDeliveryResult) (actor : ActorContext) (meta : EventMetadata)
      (digest : RequestDigest) (scope : IdempotencyScope)
      → Follows (signal_on_delivery found uow i n actor meta digest scope)
  unfolding signal_on_delivery
  Follows-signal_on_delivery none uow i n actor meta digest scope =
      search (handler_rules, Follows-ignore_signal) depth 30
  Follows-signal_on_delivery (some d) uow i n actor meta digest scope =
      search (handler_rules, Follows-store_signal) depth 30

  Follows-signal_found :
      (found : Option IdempotencyAnchor) (i : BackendDeliverySignalInput) (actor : ActorContext)
      (meta : EventMetadata) (digest : RequestDigest) (scope : IdempotencyScope)
      → Follows (signal_found found i actor meta digest scope)
  unfolding signal_found
  Follows-signal_found none i actor meta digest scope =
      search (handler_rules, Follows-signal_on_delivery) depth 30
  Follows-signal_found (some anchor) i actor meta digest scope =
      search (handler_rules, Follows-load_existing_backend_signal_result, Follows-conflict) depth 30

  pub Follows-record_backend_signal :
      (to_vec : BackendDeliverySignalInput → Option (List ℕ)) (i : BackendDeliverySignalInput)
      (actor : ActorContext) (meta : EventMetadata)
      → Follows (record_backend_signal to_vec i actor meta)
  unfolding record_backend_signal
  Follows-record_backend_signal to_vec i actor meta =
      search (handler_rules, Follows-signal_found) depth 30

  Follows-close_attempt :
      (status : DeliveryStatus) (uow : UnitOfWorkHandle) (d : DeliveryRecord)
      (i : DeliveryTimeoutSignalInput)
      → Follows (close_attempt status uow d i)
  unfolding close_attempt
  Follows-close_attempt DeliveryStatus.dispatching uow d i = search handler_rules depth 30
  Follows-close_attempt DeliveryStatus.delivered uow d i = search handler_rules depth 30
  Follows-close_attempt DeliveryStatus.scheduled uow d i = search handler_rules depth 30
  Follows-close_attempt DeliveryStatus.failed uow d i = search handler_rules depth 30
  Follows-close_attempt DeliveryStatus.dead_lettered uow d i = search handler_rules depth 30
  Follows-close_attempt DeliveryStatus.completed uow d i = search handler_rules depth 30

  Follows-timeout_on_delivery :
      (found : Option DeliveryRecord) (uow : UnitOfWorkHandle) (i : DeliveryTimeoutSignalInput)
      (actor : ActorContext) (meta : EventMetadata) (digest : RequestDigest)
      (scope : IdempotencyScope)
      → Follows (timeout_on_delivery found uow i actor meta digest scope)
  unfolding timeout_on_delivery
  Follows-timeout_on_delivery none uow i actor meta digest scope =
      search (handler_rules, Follows-ignore_signal) depth 30
  Follows-timeout_on_delivery (some d) uow i actor meta digest scope =
      search (handler_rules, Follows-store_feedback, Follows-close_attempt) depth 30

  Follows-timeout_found :
      (found : Option IdempotencyAnchor) (i : DeliveryTimeoutSignalInput) (actor : ActorContext)
      (meta : EventMetadata) (digest : RequestDigest) (scope : IdempotencyScope)
      → Follows (timeout_found found i actor meta digest scope)
  unfolding timeout_found
  Follows-timeout_found none i actor meta digest scope =
      search (handler_rules, Follows-timeout_on_delivery) depth 30
  Follows-timeout_found (some anchor) i actor meta digest scope =
      search (handler_rules, Follows-load_existing_timeout_result, Follows-conflict) depth 30

  pub Follows-record_timeout :
      (to_vec : DeliveryTimeoutSignalInput → Option (List ℕ)) (i : DeliveryTimeoutSignalInput)
      (actor : ActorContext) (meta : EventMetadata)
      → Follows (record_timeout to_vec i actor meta)
  unfolding record_timeout
  Follows-record_timeout to_vec i actor meta =
      search (handler_rules, Follows-timeout_found) depth 30
