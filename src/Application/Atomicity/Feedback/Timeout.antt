-- ===== src/Application/Atomicity/Feedback/Timeout.antt =====
-- What a timeout signal that fails leaves of the committed state.
use quantalithos_bus.Base.{ℕ, Option, none, some, List}
use quantalithos_bus.Contracts.Core.{Core}
use quantalithos_bus.Contracts.Status.{DeliveryStatus}
use quantalithos_bus.Contracts.Metadata.{EventMetadata}
use quantalithos_bus.Contracts.Inputs.{DeliveryTimeoutSignalInput}
use quantalithos_bus.Domain.Delivery.{DeliveryRecord}
use quantalithos_bus.Domain.Idempotency.Scope.{IdempotencyScope}
use quantalithos_bus.Domain.Idempotency.Digest.{IdempotencyAnchor, RequestDigest}
use quantalithos_bus.Application.Ports.{UnitOfWorkHandle}
use quantalithos_bus.Application.Services.Feedback.Timeout.{
  close_attempt, timeout_on_delivery, timeout_found, record_timeout,
}
use quantalithos_bus.Application.Atomicity.{
  Quiet, Atomic, Quiet-pure, Quiet-lift, Atomic-Quiet, Atomic-if, Sure-pure,
}
use quantalithos_bus.Application.Atomicity.Blocks.{Quiet-bind, Atomic-bind, Atomic-then-Sure}
use quantalithos_bus.Application.Atomicity.Calls.{
  unit_rules, Untraced, Quiet-from_store, Quiet-delivery_get_for_update, Quiet-settle,
  Quiet-rollback_with, Quiet-idempotency_find,
}
use quantalithos_bus.Application.Atomicity.Publication.{Atomic-conflict}
use quantalithos_bus.Application.Atomicity.Feedback.{
  Atomic-ignore_signal, Atomic-store_feedback, Quiet-load_existing_timeout_result,
}

module _ ⦃core : Core⦄ where
  open core use {ActorContext}

  Quiet-close_attempt :
      (status : DeliveryStatus) (uow : UnitOfWorkHandle) (d : DeliveryRecord)
      (i : DeliveryTimeoutSignalInput)
      → Quiet (close_attempt status uow d i)
  unfolding close_attempt
  Quiet-close_attempt DeliveryStatus.dispatching uow d i =
      search (Quiet-bind, Quiet-settle, Quiet-pure)
  Quiet-close_attempt DeliveryStatus.delivered uow d i =
      search (Quiet-bind, Quiet-settle, Quiet-pure)
  Quiet-close_attempt DeliveryStatus.scheduled uow d i = search Quiet-rollback_with
  Quiet-close_attempt DeliveryStatus.failed uow d i = search Quiet-rollback_with
  Quiet-close_attempt DeliveryStatus.dead_lettered uow d i = search Quiet-rollback_with
  Quiet-close_attempt DeliveryStatus.completed uow d i = search Quiet-rollback_with

  Atomic-timeout_on_delivery :
      (found : Option DeliveryRecord) (uow : UnitOfWorkHandle) (i : DeliveryTimeoutSignalInput)
      (actor : ActorContext) (meta : EventMetadata) (digest : RequestDigest)
      (scope : IdempotencyScope)
      → Atomic Untraced (timeout_on_delivery found uow i actor meta digest scope)
  unfolding timeout_on_delivery
  Atomic-timeout_on_delivery none uow i actor meta digest scope =
      search (Atomic-then-Sure, Atomic-ignore_signal, Sure-pure)
  Atomic-timeout_on_delivery (some d) uow i actor meta digest scope =
      search (unit_rules, Quiet-close_attempt, Atomic-then-Sure, Atomic-store_feedback) depth 30

  Atomic-timeout_found :
      (found : Option IdempotencyAnchor) (i : DeliveryTimeoutSignalInput) (actor : ActorContext)
      (meta : EventMetadata) (digest : RequestDigest) (scope : IdempotencyScope)
      → Atomic Untraced (timeout_found found i actor meta digest scope)
  unfolding timeout_found
  Atomic-timeout_found none i actor meta digest scope =
      search (unit_rules, Quiet-delivery_get_for_update, Atomic-timeout_on_delivery) depth 7
  Atomic-timeout_found (some anchor) i actor meta digest scope =
      search (Atomic-if, Atomic-Quiet, Quiet-load_existing_timeout_result, Atomic-conflict)

  pub Atomic-record_timeout :
      (to_vec : DeliveryTimeoutSignalInput → Option (List ℕ)) (i : DeliveryTimeoutSignalInput)
      (actor : ActorContext) (meta : EventMetadata)
      → Atomic Untraced (record_timeout to_vec i actor meta)
  unfolding record_timeout
  Atomic-record_timeout to_vec i actor meta =
      search
        (Atomic-bind, Quiet-lift, Quiet-from_store, Quiet-idempotency_find, Atomic-timeout_found)
        depth 7
