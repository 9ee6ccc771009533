-- ===== src/Application/Atomicity/Feedback/Signal.antt =====
-- What a backend signal that fails leaves of the committed state.
use quantalithos_bus.Base.{inl, inr, ◌⊎◌, ℕ, ◌≡◌, Option, none, some, List, ok, arith}
use quantalithos_bus.Base.Actions.{lift, ◌>>=◌}
use quantalithos_bus.Contracts.Core.{Core}
use quantalithos_bus.Contracts.Status.{
  DeliveryStatus, FeedbackStatus, BackendStatus, BackendDeliveryStatus,
}
use quantalithos_bus.Contracts.Metadata.{BackendDeliveryResult, DeliveryId, EventMetadata}
use quantalithos_bus.Contracts.Inputs.{BackendDeliverySignalInput}
use quantalithos_bus.Contracts.Receipts.{BackendSignalNormalizedResult}
use quantalithos_bus.Domain.Delivery.{DeliveryRecord}
use quantalithos_bus.Domain.Delivery.Attempt.{DeliveryAttempt}
use quantalithos_bus.Domain.Feedback.{
  FeedbackResult, FeedbackSource, from_backend_signal, attach_audit_ref, build, ack, fail,
}
use quantalithos_bus.Domain.Idempotency.Scope.{IdempotencyScope}
use quantalithos_bus.Domain.Idempotency.Digest.{IdempotencyAnchor, RequestDigest}
use quantalithos_bus.Application.Ports.{UnitOfWorkHandle}
use quantalithos_bus.Application.Errors.{ApplicationError}
use quantalithos_bus.Application.Services.{App, settle}
use quantalithos_bus.Application.Errors.From.{from_domain}
use quantalithos_bus.Application.Services.Feedback.{store_feedback, backend_signal_outcome}
use quantalithos_bus.Application.Services.Feedback.Signal.{
  apply_signal, store_signal, signal_on_delivery, signal_found, record_backend_signal,
}
use quantalithos_bus.Application.Atomicity.{
  Quiet, Atomic, Sure, Quiet-pure, Quiet-lift, Atomic-Quiet, Atomic-if, Sure-pure, Sure-lift,
  Returns, Returns-pure,
}
use quantalithos_bus.Application.Atomicity.Blocks.{
  Quiet-bind, Atomic-bind, Atomic-then-Sure, Sure-bind, Returns-bind, Atomic-then-Returns,
}
use quantalithos_bus.Application.Atomicity.Calls.{
  unit_rules, Untraced, Quiet-from_store, Quiet-delivery_get_for_update, Quiet-normalize_signal,
  Quiet-settle, Quiet-clock_now, Atomic-bind_settle, Quiet-idempotency_find,
}
use quantalithos_bus.Application.Atomicity.Publication.{Atomic-conflict}
use quantalithos_bus.Application.Atomicity.Feedback.{
  Atomic-ignore_signal, Atomic-store_feedback, Quiet-load_existing_backend_signal_result,
}

module _ ⦃core : Core⦄ where
  open core use {ActorContext, Timestamp, TraceId, IdempotencyKey}

  -- The statuses that `backend_signal_outcome` knows.
  abbrev Signalled : FeedbackStatus → Type 0
  Signalled status = (status ≡ FeedbackStatus.ack) ⊎ (status ≡ FeedbackStatus.fail)

  from_backend_signal-Signalled :
      (id : DeliveryId) (source : FeedbackSource) (status : BackendStatus) (actor : ActorContext)
      (at : Timestamp) (f : FeedbackResult)
      → from_backend_signal id source status actor at ≡ ok f
      → Signalled f.status
  unfolding from_backend_signal ack fail build
  from_backend_signal-Signalled id source BackendStatus.delivered actor at f h = ground arith
  from_backend_signal-Signalled id source BackendStatus.failed actor at f h = ground arith

  Sure-outcome :
      {A : Type 0} (P : ApplicationError → Type 0) (status : FeedbackStatus)
      (f : BackendSignalNormalizedResult → App A)
      → Signalled status
      → ((r : BackendSignalNormalizedResult) → Sure P (f r))
      → Sure P (lift (backend_signal_outcome status) >>= f)
  unfolding backend_signal_outcome
  Sure-outcome P status f h k = elim h [
    | inl e ↦ rw e (
        Sure-bind P (lift (ok BackendSignalNormalizedResult.ack)) f
          (Sure-lift P BackendSignalNormalizedResult.ack) k)
    | inr e ↦ rw e (
        Sure-bind P (lift (ok BackendSignalNormalizedResult.fail)) f
          (Sure-lift P BackendSignalNormalizedResult.fail) k)
  ]

  Returns-store_feedback :
      (uow : UnitOfWorkHandle) (original delivery : DeliveryRecord) (f : FeedbackResult)
      (actor : ActorContext) (trace_ref : TraceId) (scope : IdempotencyScope) (key : IdempotencyKey)
      (digest : RequestDigest)
      → Signalled f.status
      → Returns
          (λ r. Signalled r.0.status)
          (store_feedback uow original delivery f actor trace_ref scope key digest)
  unfolding store_feedback attach_audit_ref
  Returns-store_feedback uow original delivery f actor trace_ref scope key digest h =
      search (Returns-bind, Returns-pure, h) depth 30

  Quiet-apply_signal :
      (status : BackendDeliveryStatus) (uow : UnitOfWorkHandle) (from_status : DeliveryStatus)
      (d : DeliveryRecord) (a : DeliveryAttempt) (f : FeedbackResult) (actor : ActorContext)
      (at : Timestamp)
      → Quiet (apply_signal status uow from_status d a f actor at)
  unfolding apply_signal
  Quiet-apply_signal BackendDeliveryStatus.delivered uow from_status d a f actor at =
      search (Quiet-bind, Quiet-settle, Quiet-pure)
  Quiet-apply_signal BackendDeliveryStatus.failed uow from_status d a f actor at =
      search (Quiet-bind, Quiet-settle, Quiet-pure)

  Atomic-store_signal :
      (P : ApplicationError → Type 0) (uow : UnitOfWorkHandle) (i : BackendDeliverySignalInput)
      (n : BackendDeliveryResult) (d finished : DeliveryRecord) (a : DeliveryAttempt)
      (f : FeedbackResult) (at : Timestamp) (actor : ActorContext) (meta : EventMetadata)
      (digest : RequestDigest) (scope : IdempotencyScope)
      → Signalled f.status
      → Atomic P (store_signal uow i n d finished a f at actor meta digest scope)
  unfolding store_signal
  Atomic-store_signal P uow i n d finished a f at actor meta digest scope h =
      Atomic-bind P (apply_signal n.status uow d.status finished a f actor at) _
        (Quiet-apply_signal n.status uow d.status finished a f actor at)
        (λ updated.
          Atomic-then-Returns P (λ r. Signalled r.0.status)
            (store_feedback uow d updated f actor meta.trace_ref scope i.idempotency_key digest) _
            (Atomic-store_feedback P uow d updated f actor meta.trace_ref scope i.idempotency_key
              digest)
            (Returns-store_feedback uow d updated f actor meta.trace_ref scope i.idempotency_key
              digest h)
            (λ stored q. Sure-outcome P stored.0.status _ q (λ r. Sure-pure P _)))

  -- The feedback that a signal makes, is stored.
  Atomic-made_signal :
      (P : ApplicationError → Type 0) (uow : UnitOfWorkHandle) (i : BackendDeliverySignalInput)
      (n : BackendDeliveryResult) (d finished : DeliveryRecord) (a : DeliveryAttempt)
      (at : Timestamp) (actor : ActorContext) (meta : EventMetadata) (digest : RequestDigest)
      (scope : IdempotencyScope) (source : FeedbackSource)
      → Atomic P (
          settle uow from_domain
            (from_backend_signal finished.delivery_id source i.backend_status actor at)
          >>= (λ f. store_signal uow i n d finished a f at actor meta digest scope))
  Atomic-made_signal P uow i n d finished a at actor meta digest scope source =
      let made = from_backend_signal finished.delivery_id source i.backend_status actor at in
      Atomic-bind_settle P uow from_domain made
        (λ f. store_signal uow i n d finished a f at actor meta digest scope)
        (λ f h.
          Atomic-store_signal P uow i n d finished a f at actor meta digest scope (
            from_backend_signal-Signalled finished.delivery_id source i.backend_status actor at f
              h))

  Atomic-signal_on_delivery :
      (found : Option DeliveryRecord) (uow : UnitOfWorkHandle) (i : BackendDeliverySignalInput)
      (n : BackendDeliveryResult) (actor : ActorContext) (meta : EventMetadata)
      (digest : RequestDigest) (scope : IdempotencyScope)
      → Atomic Untraced (signal_on_delivery found uow i n actor meta digest scope)
  unfolding signal_on_delivery
  Atomic-signal_on_delivery none uow i n actor meta digest scope =
      search (Atomic-then-Sure, Atomic-ignore_signal, Sure-pure)
  Atomic-signal_on_delivery (some d) uow i n actor meta digest scope =
      search (Atomic-made_signal, Atomic-bind, Quiet-settle, Quiet-clock_now) depth 7

  Atomic-signal_found :
      (found : Option IdempotencyAnchor) (i : BackendDeliverySignalInput) (actor : ActorContext)
      (meta : EventMetadata) (digest : RequestDigest) (scope : IdempotencyScope)
      → Atomic Untraced (signal_found found i actor meta digest scope)
  unfolding signal_found
  Atomic-signal_found none i actor meta digest scope =
      search
        (
          unit_rules, Quiet-normalize_signal, Quiet-delivery_get_for_update,
          Atomic-signal_on_delivery,
        )
        depth 7
  Atomic-signal_found (some anchor) i actor meta digest scope =
      search (Atomic-if, Atomic-Quiet, Quiet-load_existing_backend_signal_result, Atomic-conflict)

  pub Atomic-record_backend_signal :
      (to_vec : BackendDeliverySignalInput → Option (List ℕ)) (i : BackendDeliverySignalInput)
      (actor : ActorContext) (meta : EventMetadata)
      → Atomic Untraced (record_backend_signal to_vec i actor meta)
  unfolding record_backend_signal
  Atomic-record_backend_signal to_vec i actor meta =
      search
        (Atomic-bind, Quiet-lift, Quiet-from_store, Quiet-idempotency_find, Atomic-signal_found)
        depth 7
