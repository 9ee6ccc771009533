-- ===== src/Application/Services/Delivery/Batch.antt =====
-- crates/application/src/services/delivery.rs: the progression of a batch of deliveries.
use quantalithos_bus.Base.{Bool, true, false, List, [], ◌∷◌, Result, ok, err, if◌then◌else◌}
use quantalithos_bus.Base.Actions.{pure, attempt, ◌>>=◌}
use quantalithos_bus.Contracts.Core.{Core}
use quantalithos_bus.Contracts.Status.{DeliveryStatus, delivery_eq}
use quantalithos_bus.Contracts.Metadata.{DeliveryScanCursor, JobMetadata}
use quantalithos_bus.Contracts.Jobs.{
  RunDeliveryProgressionJob, DeliveryProgressionResult, delivery_progression_start,
  delivery_progression_record_dispatched, delivery_progression_record_skipped,
  delivery_progression_record_failed, delivery_progression_set_next_cursor,
}
use quantalithos_bus.Domain.Delivery.{DeliveryRecord}
use quantalithos_bus.Application.Errors.{ApplicationError, ProtocolErrorCategory, category}
use quantalithos_bus.Infra.System.Repositories.{delivery_find_schedulable}
use quantalithos_bus.Application.Services.{App, from_store}
use quantalithos_bus.Application.Services.Delivery.{DeliveryProgressionItemResult, progress_one}

module _ ⦃core : Core⦄ where
  open core use {ActorContext}

  -- The `match` on the outcome of one item.
  unfoldable pub counts_as_skipped : ProtocolErrorCategory → Bool
  counts_as_skipped ProtocolErrorCategory.conflict = true
  counts_as_skipped ProtocolErrorCategory.not_found = true
  counts_as_skipped _ = false

  unfoldable pub record_item :
      DeliveryProgressionResult
      → Result ApplicationError DeliveryProgressionItemResult
      → DeliveryProgressionResult
  unfolding counts_as_skipped category delivery_progression_record_dispatched
      delivery_progression_record_skipped delivery_progression_record_failed
  record_item result (ok item) =
      if delivery_eq item.final_status DeliveryStatus.delivered
      then delivery_progression_record_dispatched result
      else delivery_progression_record_failed result
  record_item result (err error) =
      if counts_as_skipped (category error)
      then delivery_progression_record_skipped result
      else delivery_progression_record_failed result

  unfoldable pub progress_each :
      RunDeliveryProgressionJob
      → ActorContext
      → JobMetadata
      → List DeliveryRecord
      → DeliveryProgressionResult
      → App DeliveryProgressionResult
  unfolding progress_one attempt record_item ◌>>=◌ pure
  progress_each job actor meta [] result = pure result
  progress_each job actor meta (candidate ∷ deliveries) result = do
    outcome ← attempt (progress_one candidate.delivery_id job.backend_id actor meta)
    progress_each job actor meta deliveries (record_item result outcome)

  -- `deliveries.last().map(…).unwrap_or_else(|| job.cursor.clone())`
  unfoldable pub cursor_after : DeliveryScanCursor → List DeliveryRecord → DeliveryScanCursor
  cursor_after cursor [] = cursor
  cursor_after cursor (delivery ∷ deliveries) = cursor_after delivery.delivery_id deliveries

  unfoldable pub progress_batch :
      RunDeliveryProgressionJob → ActorContext → JobMetadata → App DeliveryProgressionResult
  unfolding from_store delivery_find_schedulable cursor_after progress_each ◌>>=◌ pure
  progress_batch job actor meta = do
    deliveries ← from_store (delivery_find_schedulable job.cursor job.batch_size)
    let next_cursor = cursor_after job.cursor deliveries
    result ←
        progress_each job actor meta deliveries
          (delivery_progression_start meta.job_run_id next_cursor)
    pure (delivery_progression_set_next_cursor result next_cursor)
