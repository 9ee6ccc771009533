-- ===== src/Domain/Delivery/Steps.antt =====
-- Every call that changes a delivery, as one step of the aggregate (crates/domain/src/delivery.rs).
use quantalithos_bus.Base.{Bool, true, false, List, [], ◌∷◌, Result, ok, err}
use quantalithos_bus.Contracts.Core.{Core}
use quantalithos_bus.Contracts.Metadata.{
  DeadLetterId, DeliveryAttemptId, FailureReason, BackendCapabilityRef, BackendDeliveryResult,
}
use quantalithos_bus.Domain.Errors.{DomainError}
use quantalithos_bus.Domain.Feedback.{FeedbackResult}
use quantalithos_bus.Domain.Delivery.Attempt.{DeliveryAttempt}
use quantalithos_bus.Domain.Delivery.{
  DeliveryRecord, set_version, sync_attempt, finish_attempt, append_history, start_attempt,
  mark_delivered, mark_failed, reschedule_for_retry, mark_dead_lettered, mark_completed,
}
use quantalithos_bus.Domain.Delivery.History.{DeliveryHistoryEntry}

-- `result.is_ok()`.
abbrev pub is_ok {ℓ} : {E : Type 0} {A : Type ℓ} → Result E A → Bool
is_ok (ok a) = true
is_ok (err e) = false

module _ ⦃core : Core⦄ where
  open core use {ActorContext, Timestamp, Version}

  pub data Call : Type 0 where
    sets_version : Version → Call
    syncs_attempt : DeliveryAttempt → Call
    finishes_attempt : DeliveryAttemptId → BackendDeliveryResult → Timestamp → Call
    appends_history : DeliveryHistoryEntry → Call
    starts_attempt : BackendCapabilityRef → Timestamp → Call
    marks_delivered : DeliveryAttempt → ActorContext → Call
    marks_failed : FailureReason → ActorContext → Call
    reschedules : ActorContext → Call
    marks_dead_lettered : DeadLetterId → ActorContext → Call
    marks_completed : FeedbackResult → ActorContext → Call

  abbrev done {ℓ} : {A : Type ℓ} → DeliveryRecord × Result DomainError A → DeliveryRecord × Bool
  done (d, r) = (d, is_ok r)

  -- The record after the call, and whether the call succeeded.
  unfoldable pub step : DeliveryRecord → Call → DeliveryRecord × Bool
  step d (sets_version v) = (set_version d v, true)
  step d (syncs_attempt a) = done (sync_attempt d a)
  step d (finishes_attempt id r t) = done (finish_attempt d id r t)
  step d (appends_history e) = done (append_history d e)
  step d (starts_attempt c t) = done (start_attempt d c t)
  step d (marks_delivered a actor) = done (mark_delivered d a actor)
  step d (marks_failed r actor) = done (mark_failed d r actor)
  step d (reschedules actor) = done (reschedule_for_retry d actor)
  step d (marks_dead_lettered id actor) = done (mark_dead_lettered d id actor)
  step d (marks_completed f actor) = done (mark_completed d f actor)

  -- A history of calls, failed ones included.
  unfoldable pub run : DeliveryRecord → List Call → DeliveryRecord
  unfolding step
  run d [] = d
  run d (c ∷ cs) = run (step d c).0 cs
