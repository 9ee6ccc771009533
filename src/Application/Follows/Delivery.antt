-- ===== src/Application/Follows/Delivery.antt =====
-- crates/application/src/services: the progress of deliveries, as calls of the store.
use quantalithos_bus.Base.{Result, ok, err}
use quantalithos_bus.Contracts.Core.{Core}
use quantalithos_bus.Contracts.Metadata.{BackendDeliveryResult, DeliveryId, JobMetadata}
use quantalithos_bus.Contracts.Projections.{BackendId}
use quantalithos_bus.Domain.Delivery.{DeliveryRecord}
use quantalithos_bus.Domain.Delivery.Attempt.{DeliveryAttempt}
use quantalithos_bus.Application.Ports.{UnitOfWorkHandle}
use quantalithos_bus.Application.Errors.{TransportPortError}
use quantalithos_bus.Application.Services.Delivery.{
  dispatch_succeeded, dispatch_refused, after_dispatch, progress_one,
}
use quantalithos_bus.Application.Follows.{Follows}
use quantalithos_bus.Application.Follows.Calls.{handler_rules}

module _ ⦃core : Core⦄ where
  open core use {ActorContext, Timestamp}

  Follows-dispatch_succeeded :
      (uow : UnitOfWorkHandle) (d : DeliveryRecord) (a : DeliveryAttempt) (actor : ActorContext)
      (meta : JobMetadata) (at : Timestamp) (r : BackendDeliveryResult)
      → Follows (dispatch_succeeded uow d a actor meta at r)
  unfolding dispatch_succeeded
  Follows-dispatch_succeeded uow d a actor meta at r = search handler_rules depth 30

  Follows-dispatch_refused :
      (uow : UnitOfWorkHandle) (d : DeliveryRecord) (a : DeliveryAttempt) (actor : ActorContext)
      (meta : JobMetadata) (at : Timestamp) (e : TransportPortError)
      → Follows (dispatch_refused uow d a actor meta at e)
  unfolding dispatch_refused
  Follows-dispatch_refused uow d a actor meta at e = search handler_rules depth 30

  Follows-after_dispatch :
      (uow : UnitOfWorkHandle) (d : DeliveryRecord) (a : DeliveryAttempt) (actor : ActorContext)
      (meta : JobMetadata) (at : Timestamp) (r : Result TransportPortError BackendDeliveryResult)
      → Follows (after_dispatch uow d a actor meta at r)
  unfolding after_dispatch
  Follows-after_dispatch uow d a actor meta at (ok r) =
      search (handler_rules, Follows-dispatch_succeeded) depth 30
  Follows-after_dispatch uow d a actor meta at (err e) =
      search (handler_rules, Follows-dispatch_refused) depth 30

  pub Follows-progress_one :
      (id : DeliveryId) (backend_id : BackendId) (actor : ActorContext) (meta : JobMetadata)
      → Follows (progress_one id backend_id actor meta)
  unfolding progress_one
  Follows-progress_one id backend_id actor meta =
      search (handler_rules, Follows-after_dispatch) depth 30
