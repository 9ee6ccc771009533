-- ===== src/Application/Atomicity/Delivery.antt =====
-- The progression of a delivery, in one unit of work.
use quantalithos_bus.Base.{Result, ok, err}
use quantalithos_bus.Contracts.Core.{Core}
use quantalithos_bus.Contracts.Metadata.{BackendDeliveryResult, DeliveryId, JobMetadata}
use quantalithos_bus.Contracts.Projections.{BackendId}
use quantalithos_bus.Domain.Delivery.{DeliveryRecord}
use quantalithos_bus.Domain.Delivery.Attempt.{DeliveryAttempt}
use quantalithos_bus.Application.Ports.{UnitOfWorkHandle}
use quantalithos_bus.Application.Errors.{ApplicationError, TransportPortError}
use quantalithos_bus.Application.Services.Delivery.{
  dispatch_succeeded, dispatch_refused, after_dispatch, progress_one,
}
use quantalithos_bus.Application.Atomicity.{Quiet, Atomic, Quiet-pure}
use quantalithos_bus.Application.Atomicity.Blocks.{Quiet-bind}
use quantalithos_bus.Application.Atomicity.Calls.{
  unit_rules, Quiet-delivery_get_for_update, Quiet-settle, Quiet-dispatch, Quiet-delivery_save,
}

module _ ⦃core : Core⦄ where
  open core use {ActorContext, Timestamp}

  Quiet-dispatch_succeeded :
      (uow : UnitOfWorkHandle) (d : DeliveryRecord) (a : DeliveryAttempt) (actor : ActorContext)
      (meta : JobMetadata) (at : Timestamp) (r : BackendDeliveryResult)
      → Quiet (dispatch_succeeded uow d a actor meta at r)
  unfolding dispatch_succeeded
  Quiet-dispatch_succeeded uow d a actor meta at r =
      search (Quiet-bind, Quiet-settle, Quiet-pure) depth 20

  Quiet-dispatch_refused :
      (uow : UnitOfWorkHandle) (d : DeliveryRecord) (a : DeliveryAttempt) (actor : ActorContext)
      (meta : JobMetadata) (at : Timestamp) (e : TransportPortError)
      → Quiet (dispatch_refused uow d a actor meta at e)
  unfolding dispatch_refused
  Quiet-dispatch_refused uow d a actor meta at e =
      search (Quiet-bind, Quiet-settle, Quiet-pure) depth 20

  Quiet-after_dispatch :
      (uow : UnitOfWorkHandle) (d : DeliveryRecord) (a : DeliveryAttempt) (actor : ActorContext)
      (meta : JobMetadata) (at : Timestamp) (r : Result TransportPortError BackendDeliveryResult)
      → Quiet (after_dispatch uow d a actor meta at r)
  unfolding after_dispatch
  Quiet-after_dispatch uow d a actor meta at (ok r) =
      Quiet-dispatch_succeeded uow d a actor meta at r
  Quiet-after_dispatch uow d a actor meta at (err e) =
      Quiet-dispatch_refused uow d a actor meta at e

  pub Atomic-progress_one :
      (P : ApplicationError → Type 0) (id : DeliveryId) (backend_id : BackendId)
      (actor : ActorContext) (meta : JobMetadata)
      → Atomic P (progress_one id backend_id actor meta)
  unfolding progress_one
  Atomic-progress_one P id backend_id actor meta =
      search
        (
          unit_rules, Quiet-delivery_get_for_update, Quiet-dispatch, Quiet-after_dispatch,
          Quiet-delivery_save,
        )
        depth 30
