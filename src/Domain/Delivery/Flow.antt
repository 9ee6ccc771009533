-- ===== src/Domain/Delivery/Flow.antt =====
-- The successful course of a delivery, from its schedule to its completion: what the delivery progression
-- (crates/application/src/services/delivery.rs) and the feedback service (feedback.rs) do to the aggregate.
use quantalithos_bus.Base.{
  ◌+◌, ◌<◌, ◌≡◌, refl, ap, sym, ◌∙◌, true, false, some, List, [], ◌∷◌, ◌++◌, arith, length, ok,
  and_then,
}
use quantalithos_bus.Base.Text.{is_blank, text_lt}
use quantalithos_bus.Contracts.Core.{Core}
use quantalithos_bus.Contracts.Status.{DeliveryStatus, FeedbackStatus, BackendDeliveryStatus}
use quantalithos_bus.Contracts.Metadata.{
  u32_mod, next_attempt_no, increment, BackendCapabilityRef, BackendDeliveryResult,
  dispatching_started, delivery_arrived, feedback_ack,
}
use quantalithos_bus.Base.Text.Laws.{text_eq_iff, text_eq_refl}
use quantalithos_bus.Domain.Feedback.{FeedbackResult}
use quantalithos_bus.Domain.Delivery.Attempt.{
  DeliveryAttempt, find_attempt, start, finish, is_finished, attempt_id_of,
}
use quantalithos_bus.Domain.Delivery.{
  DeliveryRecord, Method, start_attempt, append_history, mark_delivered, mark_completed,
}
use quantalithos_bus.Domain.Delivery.History.{DeliveryHistoryEntry, transition, requires_history}
use quantalithos_bus.Domain.Delivery.Invariant.{Inv}
use quantalithos_bus.Domain.Delivery.Numbering.{find-snoc}
use mathlib.Core.List.{append_assoc}
use quantalithos_bus.Domain.Delivery.Dispatching.{
  first, second, fresh, dispatch_entries, arrived, append_history-transition, Dispatch,
  scheduled-Dispatch,
}

module _ ⦃core : Core⦄ where
  open core use {ActorContext, Timestamp, time_as_str}

  -- What `progress_one` does to the delivery if the backend answers: the attempt is finished outside the record, and
  -- `mark_delivered` stores it.
  unfoldable pub dispatch_delivered :
      DeliveryRecord
      → BackendCapabilityRef
      → Timestamp
      → BackendDeliveryResult
      → Timestamp
      → ActorContext
      → Method (Unit {0})
  dispatch_delivered d capability started_at result finished_at actor =
      and_then (start_attempt d capability started_at) λ d₁ attempt.
        and_then
          (append_history d₁ (
            transition d₁.delivery_id d.status DeliveryStatus.dispatching dispatching_started
              started_at))
          λ d₂ _.
            and_then (d₂, (finish attempt result finished_at).1)
              λ d₃ _.
                and_then (mark_delivered d₃ (finish attempt result finished_at).0 actor) λ d₄ _.
                  append_history d₄ (
                    transition d₄.delivery_id DeliveryStatus.dispatching DeliveryStatus.delivered
                      delivery_arrived finished_at)

  -- What `record_feedback` does to the delivery on an acknowledgement.
  unfoldable pub acknowledge : DeliveryRecord → FeedbackResult → ActorContext → Method (Unit {0})
  acknowledge d feedback actor = and_then (mark_completed d feedback actor) λ d₁ _.
      append_history d₁ (
        transition d₁.delivery_id d.status DeliveryStatus.completed feedback_ack
          feedback.observed_at)

  mark_completed-latest :
      (d : DeliveryRecord) (a : DeliveryAttempt) (f : FeedbackResult) (actor : ActorContext)
      → d.status ≡ DeliveryStatus.delivered
      → f.delivery_id ≡ d.delivery_id
      → f.status ≡ FeedbackStatus.ack
      → d.last_attempt_ref ≡ some f.source.attempt_id
      → find_attempt f.source.attempt_id d.attempts ≡ some a
      → is_finished a ≡ true
      → a.result_status ≡ some BackendDeliveryStatus.delivered
      → mark_completed d f actor ≡ (record d { status = DeliveryStatus.completed }, ok tt)
  unfolding mark_completed
  mark_completed-latest d a f actor s own ack latest stored done status =
      ground (arith, text_eq_iff f.delivery_id d.delivery_id, text_eq_refl f.source.attempt_id)

  abbrev pub course :
      DeliveryRecord → Timestamp → Timestamp → FeedbackResult → List DeliveryHistoryEntry
  course d started_at finished_at f =
      dispatch_entries d started_at finished_at
      ++ transition d.delivery_id DeliveryStatus.delivered DeliveryStatus.completed feedback_ack
          f.observed_at
        ∷ []

  dispatch_delivered-scheduled :
      (d : DeliveryRecord) (c : BackendCapabilityRef) (t : Timestamp)
      (result : BackendDeliveryResult) (u : Timestamp) (actor : ActorContext)
      → Dispatch d c t result u actor
      → dispatch_delivered d c t result u actor ≡ (arrived d t result u, ok tt)
  unfolding dispatch_delivered
  dispatch_delivered-scheduled d c t result u actor p =
      rw (p.starts, p.begins, p.finishes, p.marks, p.arrives) refl

  -- A scheduled delivery that satisfies the invariant, with fewer than 2^32 - 1 attempts, is carried through to `completed`
  -- by what `progress_one` does to it over a capability whose id is not blank, when the backend reports `delivered` at a
  -- time not before the start, and what `record_feedback` does to it on an acknowledgement of this delivery and
  -- that attempt: all calls succeed, the attempt is on record as finished, and the three moves are the
  -- newest entries of the history.
  pub dispatch_and_complete-scheduled :
      (d : DeliveryRecord) (c : BackendCapabilityRef) (started_at : Timestamp)
      (result : BackendDeliveryResult) (finished_at : Timestamp) (actor : ActorContext)
      (f : FeedbackResult)
      → Inv d
      → d.status ≡ DeliveryStatus.scheduled
      → length d.attempts + 1 < u32_mod
      → is_blank c.capability_id ≡ false
      → text_lt (time_as_str finished_at) (time_as_str started_at) ≡ false
      → result.status ≡ BackendDeliveryStatus.delivered
      → f.delivery_id ≡ d.delivery_id
      → f.status ≡ FeedbackStatus.ack
      → f.source.attempt_id ≡ attempt_id_of d.delivery_id (next_attempt_no d.attempt_count)
      → and_then
          (dispatch_delivered d c started_at result finished_at actor)
          (λ arrived _. acknowledge arrived f actor)
        ≡ (
          record d {
            attempt_count = increment d.attempt_count;
            last_attempt_ref = some f.source.attempt_id;
            status = DeliveryStatus.completed;
            attempts = d.attempts ++ second (first d started_at) result finished_at ∷ [];
            history = d.history ++ course d started_at finished_at f;
          },
          ok tt,
        )
  unfolding acknowledge start is_finished requires_history
  dispatch_and_complete-scheduled d c t result u actor f v s l b order r fd fs fa =
      let z = second (first d t) result u in
      let d₁ = arrived d t result u in
      let d₂ : DeliveryRecord = record d₁ { status = DeliveryStatus.completed } in
      rw
        (
          dispatch_delivered-scheduled d c t result u actor
              (scheduled-Dispatch d c t result u actor v s l b order r),
          mark_completed-latest d₁ z f actor refl fd fs (ap some (sym fa))
              (find-snoc f.source.attempt_id d.attempts z
                (ap (λ id. find_attempt id d.attempts) fa ∙ fresh d t v l) (sym fa))
              refl (ap some r),
          append_history-transition d₂ DeliveryStatus.delivered DeliveryStatus.completed
              feedback_ack f.observed_at refl,
          append_assoc d.history (dispatch_entries d t u) (
              transition d.delivery_id DeliveryStatus.delivered DeliveryStatus.completed
                feedback_ack f.observed_at
              ∷ []),
          fa,
        )
        refl
