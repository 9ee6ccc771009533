-- ===== src/Application/Batches.antt =====
-- crates/application/src/services/recovery.rs: the summary of a batch of retry plans.
use quantalithos_bus.Base.{
  ℕ, zero, suc, ◌+◌, ◌<◌, ◌≤◌, ◌≡◌, refl, ◌∙◌, List, [], ◌∷◌, length, arith, Result, ok, err,
}
use quantalithos_bus.Base.Actions.{attempt, pure, gets, action_map_err, ◌>>=◌}
use quantalithos_bus.Contracts.Core.{Core}
use quantalithos_bus.Contracts.Metadata.{JobMetadata}
use quantalithos_bus.Contracts.Jobs.{
  RunRetryCycleJob, RetryCycleResult, retry_cycle_start, retry_cycle_set_next_cursor,
  retry_cycle_failed, retry_cycle_record_retried, retry_cycle_record_exhausted,
  retry_cycle_record_failed, u32_next, u32_sub,
}
use quantalithos_bus.Domain.Recovery.Retry.{RetryPlan}
use quantalithos_bus.Application.Errors.{ApplicationError}
use quantalithos_bus.Base.Text.{Text}
use quantalithos_bus.Infra.Store.{MemoryStore}
use quantalithos_bus.Infra.Store.Queries.{take, due_retry_plans}
use quantalithos_bus.Infra.System.{System}
use quantalithos_bus.Infra.System.Repositories.{recovery_find_due_retry}
use quantalithos_bus.Application.Services.{from_store}
use quantalithos_bus.Application.Services.Recovery.{
  RetryPlanRunOutcome, retried, exhausted, run_retry_plan,
}
use quantalithos_bus.Application.Services.Recovery.Cycle.{
  record_plan, run_plans, cursor_after_plans, run_retry_cycle,
}

length-take : {A : Type 0} (n : ℕ) (xs : List A) → length (take n xs) ≤ n
length-take zero xs = omega arith
length-take (suc n) [] = omega arith
length-take (suc n) (x ∷ xs) = omega (arith, length-take n xs)

module _ ⦃core : Core⦄ where
  open core use {ActorContext, Timestamp}

  length-due_retry_plans :
      (store : MemoryStore) (cursor : Text) (limit : ℕ) (now : Timestamp)
      → length (due_retry_plans store cursor limit now) ≤ limit
  unfolding due_retry_plans
  length-due_retry_plans store cursor limit now = length-take limit _

  -- What becomes of each plan of a batch, run one after the other from the system.
  unfoldable pub outcomes :
      RunRetryCycleJob
      → ActorContext
      → JobMetadata
      → List RetryPlan
      → System
      → List (Result ApplicationError RetryPlanRunOutcome)
  unfolding run_retry_plan
  outcomes job actor meta [] s = []
  outcomes job actor meta (p ∷ ps) s =
      let (u, outcome) = run_retry_plan p actor meta job.now s in
      outcome ∷ outcomes job actor meta ps u

  length-outcomes :
      (job : RunRetryCycleJob) (actor : ActorContext) (meta : JobMetadata) (ps : List RetryPlan)
      (s : System)
      → length (outcomes job actor meta ps s) ≡ length ps
  unfolding outcomes
  length-outcomes job actor meta [] s = refl
  length-outcomes job actor meta (p ∷ ps) s =
      omega (arith, length-outcomes job actor meta ps (run_retry_plan p actor meta job.now s).0)

  -- How many outcomes are of each kind.
  unfoldable pub count_retried : List (Result ApplicationError RetryPlanRunOutcome) → ℕ
  count_retried [] = 0
  count_retried (ok (retried plan) ∷ os) = 1 + count_retried os
  count_retried (ok (exhausted plan) ∷ os) = count_retried os
  count_retried (err error ∷ os) = count_retried os

  unfoldable pub count_exhausted : List (Result ApplicationError RetryPlanRunOutcome) → ℕ
  count_exhausted [] = 0
  count_exhausted (ok (retried plan) ∷ os) = count_exhausted os
  count_exhausted (ok (exhausted plan) ∷ os) = 1 + count_exhausted os
  count_exhausted (err error ∷ os) = count_exhausted os

  unfoldable pub count_failed : List (Result ApplicationError RetryPlanRunOutcome) → ℕ
  count_failed [] = 0
  count_failed (ok (retried plan) ∷ os) = count_failed os
  count_failed (ok (exhausted plan) ∷ os) = count_failed os
  count_failed (err error ∷ os) = 1 + count_failed os

  -- `t` counts the outcomes on top of what `r` counts.
  pub record Counts (os : List (Result ApplicationError RetryPlanRunOutcome))
      (r t : RetryCycleResult) : Type 0 where
    pub n_scanned : t.scanned ≡ r.scanned + length os
    pub n_retried : t.retried ≡ r.retried + count_retried os
    pub n_exhausted : t.exhausted ≡ r.exhausted + count_exhausted os
    pub cursor : t.next_cursor ≡ r.next_cursor

  counts_all :
      (os : List (Result ApplicationError RetryPlanRunOutcome))
      → count_retried os + count_exhausted os + count_failed os ≡ length os
  unfolding count_retried count_exhausted count_failed
  counts_all [] = refl
  counts_all (ok (retried plan) ∷ os) = omega (arith, counts_all os)
  counts_all (ok (exhausted plan) ∷ os) = omega (arith, counts_all os)
  counts_all (err error ∷ os) = omega (arith, counts_all os)

  Counts-record_plan :
      (r : RetryCycleResult) (outcome : Result ApplicationError RetryPlanRunOutcome)
      → r.scanned + 1 < 4294967296
      → r.retried + r.exhausted ≤ r.scanned
      → Counts (outcome ∷ []) r (record_plan r outcome)
  unfolding record_plan retry_cycle_record_retried retry_cycle_record_exhausted
      retry_cycle_record_failed u32_next count_retried count_exhausted
  Counts-record_plan r (ok (retried plan)) h k = record {
    n_scanned = omega arith;
    n_retried = omega arith;
    n_exhausted = omega arith;
    cursor = refl;
  }
  Counts-record_plan r (ok (exhausted plan)) h k = record {
    n_scanned = omega arith;
    n_retried = omega arith;
    n_exhausted = omega arith;
    cursor = refl;
  }
  Counts-record_plan r (err error) h k = record {
    n_scanned = omega arith;
    n_retried = omega arith;
    n_exhausted = omega arith;
    cursor = refl;
  }

  count_cons :
      (o : Result ApplicationError RetryPlanRunOutcome)
      (os : List (Result ApplicationError RetryPlanRunOutcome))
      → (count_retried (o ∷ os) ≡ count_retried (o ∷ []) + count_retried os)
        × (count_exhausted (o ∷ os) ≡ count_exhausted (o ∷ []) + count_exhausted os)
  unfolding count_retried count_exhausted
  count_cons (ok (retried plan)) os = (omega arith, omega arith)
  count_cons (ok (exhausted plan)) os = (omega arith, omega arith)
  count_cons (err error) os = (omega arith, omega arith)

  -- The plans are run to the end, whatever becomes of each.
  run_plans-Counts :
      (job : RunRetryCycleJob) (actor : ActorContext) (meta : JobMetadata) (ps : List RetryPlan)
      (r : RetryCycleResult) (s : System)
      → r.scanned + length ps < 4294967296
      → r.retried + r.exhausted ≤ r.scanned
      → (t : RetryCycleResult) × ((run_plans job actor meta ps r s).1 ≡ ok t)
        × Counts (outcomes job actor meta ps s) r t
  unfolding run_plans outcomes attempt pure ◌>>=◌
  run_plans-Counts job actor meta [] r s h k = (
    r,
    refl,
    record {
      n_scanned = omega arith;
      n_retried = omega (arith, counts_all []);
      n_exhausted = omega (arith, counts_all []);
      cursor = refl;
    },
  )
  run_plans-Counts job actor meta (p ∷ ps) r s h k =
      let (u, outcome) = run_retry_plan p actor meta job.now s in
      let q = record_plan r outcome in
      let c = Counts-record_plan r outcome (omega arith) k in
      let a = c.n_scanned in
      let b = c.n_retried in
      let e = c.n_exhausted in
      let n = counts_all (outcome ∷ []) in
      let (t, done, d) = run_plans-Counts job actor meta ps q u (omega arith) (omega arith) in
      let a' = d.n_scanned in
      let b' = d.n_retried in
      let e' = d.n_exhausted in
      let (x, y) = count_cons outcome (outcomes job actor meta ps u) in
      (
        t,
        done,
        record {
          n_scanned = omega arith;
          n_retried = omega arith;
          n_exhausted = omega arith;
          cursor = d.cursor ∙ c.cursor;
        },
      )

  -- A retry cycle whose batch size is a u32 always ends with a result, whatever becomes of each plan of its batch, the
  -- first batch_size due plans: the counters of the result are exactly how many of these plans, run one after the
  -- other, came out as retried, as exhausted and as failed, and how many there are; its cursor is the last plan of
  -- the batch, or the cursor of the job when none is due.
  pub run_retry_cycle_counts :
      (job : RunRetryCycleJob) (actor : ActorContext) (meta : JobMetadata) (s : System)
      → job.batch_size < 4294967296
      → let plans = due_retry_plans s.store job.cursor job.batch_size job.now in
        let os = outcomes job actor meta plans s in
        (t : RetryCycleResult) × ((run_retry_cycle job actor meta s).1 ≡ ok t)
        × (t.retried ≡ count_retried os)
        × (t.exhausted ≡ count_exhausted os)
        × (retry_cycle_failed t ≡ count_failed os)
        × (t.scanned ≡ length plans)
        × (t.next_cursor ≡ cursor_after_plans job.cursor plans)
  unfolding run_retry_cycle from_store recovery_find_due_retry gets action_map_err ◌>>=◌
      retry_cycle_failed u32_sub
  run_retry_cycle_counts job actor meta s bound =
      let plans = due_retry_plans s.store job.cursor job.batch_size job.now in
      let few = length-due_retry_plans s.store job.cursor job.batch_size job.now in
      let start =
        retry_cycle_set_next_cursor (retry_cycle_start meta.job_run_id job.cursor)
          (cursor_after_plans job.cursor plans) in
      let (t, done, c) =
        run_plans-Counts job actor meta plans start s (omega arith) (omega arith) in
      let a = c.n_scanned in
      let b = c.n_retried in
      let e = c.n_exhausted in
      let all = counts_all (outcomes job actor meta plans s) in
      let n = length-outcomes job actor meta plans s in
      (t, done, omega arith, omega arith, omega arith, omega arith, c.cursor)
