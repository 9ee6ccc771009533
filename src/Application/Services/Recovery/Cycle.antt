-- ===== src/Application/Services/Recovery/Cycle.antt =====
-- crates/application/src/services/recovery.rs: the retry cycle, a batch of due retry plans.
use quantalithos_bus.Base.{List, [], ◌∷◌, Result, ok, err}
use quantalithos_bus.Base.Actions.{pure, attempt, ◌>>=◌}
use quantalithos_bus.Contracts.Core.{Core}
use quantalithos_bus.Contracts.Metadata.{JobMetadata, RetryScanCursor}
use quantalithos_bus.Contracts.Jobs.{
  RunRetryCycleJob, RetryCycleResult, retry_cycle_start, retry_cycle_record_retried,
  retry_cycle_record_exhausted, retry_cycle_record_failed, retry_cycle_set_next_cursor,
}
use quantalithos_bus.Domain.Recovery.Retry.{RetryPlan}
use quantalithos_bus.Application.Errors.{ApplicationError}
use quantalithos_bus.Infra.System.Repositories.{recovery_find_due_retry}
use quantalithos_bus.Application.Services.{App, from_store}
use quantalithos_bus.Application.Services.Recovery.{
  RetryPlanRunOutcome, retried, exhausted, run_retry_plan,
}

module _ ⦃core : Core⦄ where
  open core use {ActorContext}

  -- The `match` on the outcome of one plan.
  unfoldable pub record_plan :
      RetryCycleResult → Result ApplicationError RetryPlanRunOutcome → RetryCycleResult
  unfolding retry_cycle_record_retried retry_cycle_record_exhausted retry_cycle_record_failed
  record_plan result (ok (retried plan)) = retry_cycle_record_retried result
  record_plan result (ok (exhausted plan)) = retry_cycle_record_exhausted result
  record_plan result (err error) = retry_cycle_record_failed result

  unfoldable pub run_plans :
      RunRetryCycleJob
      → ActorContext
      → JobMetadata
      → List RetryPlan
      → RetryCycleResult
      → App RetryCycleResult
  unfolding run_retry_plan attempt record_plan ◌>>=◌ pure
  run_plans job actor meta [] result = pure result
  run_plans job actor meta (retry_plan ∷ retry_plans) result = do
    outcome ← attempt (run_retry_plan retry_plan actor meta job.now)
    run_plans job actor meta retry_plans (record_plan result outcome)

  -- `if let Some(last) = retry_plans.last() { … }`
  unfoldable pub cursor_after_plans : RetryScanCursor → List RetryPlan → RetryScanCursor
  cursor_after_plans cursor [] = cursor
  cursor_after_plans cursor (retry_plan ∷ retry_plans) =
      cursor_after_plans retry_plan.retry_plan_id retry_plans

  unfoldable pub run_retry_cycle :
      RunRetryCycleJob → ActorContext → JobMetadata → App RetryCycleResult
  unfolding from_store recovery_find_due_retry cursor_after_plans run_plans ◌>>=◌
  run_retry_cycle job actor meta = do
    retry_plans ← from_store (recovery_find_due_retry job.cursor job.batch_size job.now)
    run_plans job actor meta retry_plans (
        retry_cycle_set_next_cursor (retry_cycle_start meta.job_run_id job.cursor)
          (cursor_after_plans job.cursor retry_plans))
