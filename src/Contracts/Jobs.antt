-- ===== src/Contracts/Jobs.antt =====
-- crates/contracts/src/jobs.rs: the batch jobs and the summaries that they count up. Counters are `u32` and wrap, as
-- in an optimised build.
use quantalithos_bus.Base.{ℕ, Bool, ◌+◌, ◌-◌, ◌%◌}
use quantalithos_bus.Contracts.Core.{Core}
use quantalithos_bus.Contracts.Metadata.{DeliveryScanCursor, RetryScanCursor, OutboxCursor, u32_mod}
use quantalithos_bus.Contracts.Projections.{BackendId}

-- `count += 1`, and `a - b`, on `u32`.
unfoldable pub u32_next : ℕ → ℕ
u32_next n = (n + 1) % u32_mod

unfoldable pub u32_sub : ℕ → ℕ → ℕ
u32_sub a b = (a + (u32_mod - b)) % u32_mod

module _ ⦃core : Core⦄ where
  open core use {Timestamp, JobRunId}

  pub record RunOutboxRelayJob : Type 0 where
    pub job_run_id : JobRunId
    pub cursor : OutboxCursor
    pub batch_size : ℕ
    pub dry_run : Bool

  pub record RunDeliveryProgressionJob : Type 0 where
    pub job_run_id : JobRunId
    pub cursor : DeliveryScanCursor
    pub batch_size : ℕ
    pub backend_id : BackendId

  pub record RunRetryCycleJob : Type 0 where
    pub job_run_id : JobRunId
    pub cursor : RetryScanCursor
    pub batch_size : ℕ
    pub now : Timestamp

  pub record OutboxRelayJobResult : Type 0 where
    pub job_run_id : JobRunId
    pub scanned : ℕ
    pub accepted : ℕ
    pub rejected : ℕ
    pub next_cursor : OutboxCursor

  abbrev pub outbox_relay_start : JobRunId → OutboxCursor → OutboxRelayJobResult
  outbox_relay_start job_run_id next_cursor = record {
    job_run_id = job_run_id;
    scanned = 0;
    accepted = 0;
    rejected = 0;
    next_cursor = next_cursor;
  }

  unfoldable pub outbox_relay_record_accepted : OutboxRelayJobResult → OutboxRelayJobResult
  unfolding u32_next
  outbox_relay_record_accepted result = record result {
    scanned = u32_next result.scanned;
    accepted = u32_next result.accepted;
  }

  unfoldable pub outbox_relay_record_rejected : OutboxRelayJobResult → OutboxRelayJobResult
  unfolding u32_next
  outbox_relay_record_rejected result = record result {
    scanned = u32_next result.scanned;
    rejected = u32_next result.rejected;
  }

  unfoldable pub outbox_relay_record_failed : OutboxRelayJobResult → OutboxRelayJobResult
  unfolding u32_next
  outbox_relay_record_failed result = record result { scanned = u32_next result.scanned }

  abbrev pub outbox_relay_set_next_cursor :
      OutboxRelayJobResult → OutboxCursor → OutboxRelayJobResult
  outbox_relay_set_next_cursor result next_cursor = record result { next_cursor = next_cursor }

  unfoldable pub outbox_relay_failed : OutboxRelayJobResult → ℕ
  unfolding u32_sub
  outbox_relay_failed result = u32_sub (u32_sub result.scanned result.accepted) result.rejected

  pub record DeliveryProgressionResult : Type 0 where
    pub job_run_id : JobRunId
    pub scanned : ℕ
    pub dispatched : ℕ
    pub skipped : ℕ
    pub next_cursor : DeliveryScanCursor

  abbrev pub delivery_progression_start : JobRunId → DeliveryScanCursor → DeliveryProgressionResult
  delivery_progression_start job_run_id next_cursor = record {
    job_run_id = job_run_id;
    scanned = 0;
    dispatched = 0;
    skipped = 0;
    next_cursor = next_cursor;
  }

  unfoldable pub delivery_progression_record_dispatched :
      DeliveryProgressionResult → DeliveryProgressionResult
  unfolding u32_next
  delivery_progression_record_dispatched result = record result {
    scanned = u32_next result.scanned;
    dispatched = u32_next result.dispatched;
  }

  unfoldable pub delivery_progression_record_skipped :
      DeliveryProgressionResult → DeliveryProgressionResult
  unfolding u32_next
  delivery_progression_record_skipped result = record result {
    scanned = u32_next result.scanned;
    skipped = u32_next result.skipped;
  }

  unfoldable pub delivery_progression_record_failed :
      DeliveryProgressionResult → DeliveryProgressionResult
  unfolding u32_next
  delivery_progression_record_failed result = record result { scanned = u32_next result.scanned }

  abbrev pub delivery_progression_set_next_cursor :
      DeliveryProgressionResult → DeliveryScanCursor → DeliveryProgressionResult
  delivery_progression_set_next_cursor result next_cursor = record result {
    next_cursor = next_cursor;
  }

  unfoldable pub delivery_progression_failed : DeliveryProgressionResult → ℕ
  unfolding u32_sub
  delivery_progression_failed result =
      u32_sub (u32_sub result.scanned result.dispatched) result.skipped

  pub record RetryCycleResult : Type 0 where
    pub job_run_id : JobRunId
    pub scanned : ℕ
    pub retried : ℕ
    pub exhausted : ℕ
    pub next_cursor : RetryScanCursor

  abbrev pub retry_cycle_start : JobRunId → RetryScanCursor → RetryCycleResult
  retry_cycle_start job_run_id next_cursor = record {
    job_run_id = job_run_id;
    scanned = 0;
    retried = 0;
    exhausted = 0;
    next_cursor = next_cursor;
  }

  unfoldable pub retry_cycle_record_retried : RetryCycleResult → RetryCycleResult
  unfolding u32_next
  retry_cycle_record_retried result = record result {
    scanned = u32_next result.scanned;
    retried = u32_next result.retried;
  }

  unfoldable pub retry_cycle_record_exhausted : RetryCycleResult → RetryCycleResult
  unfolding u32_next
  retry_cycle_record_exhausted result = record result {
    scanned = u32_next result.scanned;
    exhausted = u32_next result.exhausted;
  }

  unfoldable pub retry_cycle_record_failed : RetryCycleResult → RetryCycleResult
  unfolding u32_next
  retry_cycle_record_failed result = record result { scanned = u32_next result.scanned }

  abbrev pub retry_cycle_set_next_cursor : RetryCycleResult → RetryScanCursor → RetryCycleResult
  retry_cycle_set_next_cursor result next_cursor = record result { next_cursor = next_cursor }

  unfoldable pub retry_cycle_failed : RetryCycleResult → ℕ
  unfolding u32_sub
  retry_cycle_failed result = u32_sub (u32_sub result.scanned result.retried) result.exhausted
