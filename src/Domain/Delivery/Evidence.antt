-- ===== src/Domain/Delivery/Evidence.antt =====
-- What a delivery must have on record before it counts as delivered or completed.
use quantalithos_bus.Base.{
  ◌≡◌, sym, ◌∙◌, ◌↔◌, inl, inr, true, if◌then◌else◌, Option, none, some, List, [], ◌∷◌, arith,
  Bool-cases, Option-cases,
}
use quantalithos_bus.Base.Text.{Text, text_eq}
use quantalithos_bus.Contracts.Core.{Core}
use quantalithos_bus.Contracts.Status.{DeliveryStatus, FeedbackStatus, BackendDeliveryStatus}
use quantalithos_bus.Contracts.Metadata.{DeliveryAttemptId}
use quantalithos_bus.Base.Text.Laws.{text_eq_iff}
use quantalithos_bus.Domain.Feedback.{FeedbackResult}
use quantalithos_bus.Domain.Delivery.Attempt.{
  DeliveryAttempt, find_attempt, is_finished, replace_attempt,
}
use quantalithos_bus.Domain.Delivery.{DeliveryRecord, mark_delivered, mark_completed, is_some_of}
use quantalithos_bus.Domain.Delivery.Steps.{is_ok}
use quantalithos_bus.Domain.Delivery.Invariant.{Inv}
use quantalithos_bus.Domain.Delivery.Sequence.{last_id}

is_some_of_iff : (o : Option Text) (t : Text) → (is_some_of o t ≡ true) ↔ (o ≡ some t)
unfolding is_some_of
is_some_of_iff none t = ground arith
is_some_of_iff (some s) t = ground (arith, text_eq_iff s t)

module _ ⦃core : Core⦄ where
  open core use {ActorContext}

  -- The latest attempt is on record.
  pub find-last :
      (id : DeliveryAttemptId) (xs : List DeliveryAttempt)
      → last_id xs ≡ some id
      → (a : DeliveryAttempt) × (find_attempt id xs ≡ some a)
  unfolding find_attempt
  find-last id [] h = cc
  find-last id (a ∷ []) h = (a, ground (arith, text_eq_iff a.attempt_id id))
  find-last id (a ∷ b ∷ xs) h = elim (Bool-cases (text_eq a.attempt_id id)) [
    | inl e ↦ (a, rw e)
    | inr e ↦ let (x, p) = find-last id (b ∷ xs) h in (x, rw e p)
  ]

  -- Under the invariant, `mark_delivered` succeeds exactly if the delivery is dispatching and the
  -- attempt is its latest one, finished, with the outcome `delivered`. A success makes the status
  -- `delivered` and stores the attempt in place of the one on record; a failure changes nothing.
  pub mark_delivered_iff :
      (d : DeliveryRecord) (a : DeliveryAttempt) (actor : ActorContext)
      → Inv d
      → let (after, result) = mark_delivered d a actor in
        ((is_ok result ≡ true)
          ↔ (d.status ≡ DeliveryStatus.dispatching)
            × (a.delivery_id ≡ d.delivery_id)
            × (d.last_attempt_ref ≡ some a.attempt_id)
            × (is_finished a ≡ true)
            × (a.result_status ≡ some BackendDeliveryStatus.delivered))
        × (after ≡ (
            if is_ok result
            then record d {
              status = DeliveryStatus.delivered;
              attempts = replace_attempt a.attempt_id a d.attempts;
            }
            else d))
  unfolding mark_delivered
  mark_delivered_iff d a actor v = (
    (
      λ h. ground (
        arith,
        text_eq_iff a.delivery_id d.delivery_id,
        is_some_of_iff d.last_attempt_ref a.attempt_id,
      ),
      λ h.
          let (stored, found) = find-last a.attempt_id d.attempts (sym v.latest ∙ h.2) in
          ground (
            arith,
            text_eq_iff a.delivery_id d.delivery_id,
            is_some_of_iff d.last_attempt_ref a.attempt_id,
            found,
          ),
    ),
    ground arith,
  )

  -- `mark_completed` succeeds exactly if the delivery is delivered, and the feedback is an
  -- acknowledgement of its latest attempt, which is on record as finished with the outcome
  -- `delivered`.
  pub mark_completed_iff :
      (d : DeliveryRecord) (f : FeedbackResult) (actor : ActorContext)
      → (is_ok (mark_completed d f actor).1 ≡ true)
        ↔ (f.delivery_id ≡ d.delivery_id)
          × (f.status ≡ FeedbackStatus.ack)
          × (d.status ≡ DeliveryStatus.delivered)
          × (d.last_attempt_ref ≡ some f.source.attempt_id)
          × ((a : DeliveryAttempt) × (find_attempt f.source.attempt_id d.attempts ≡ some a)
              × (is_finished a ≡ true)
              × (a.result_status ≡ some BackendDeliveryStatus.delivered))
  unfolding mark_completed
  mark_completed_iff d f actor = (
    λ h. elim (Option-cases (find_attempt f.source.attempt_id d.attempts)) [
      | inl e ↦ absurd (ground (arith, e, h))
      | inr (a, e) ↦ (
        ground (arith, text_eq_iff f.delivery_id d.delivery_id),
        ground arith,
        ground arith,
        ground (arith, is_some_of_iff d.last_attempt_ref f.source.attempt_id),
        (a, e, ground arith, ground arith),
      )
    ],
    λ h. ground (
      arith,
      text_eq_iff f.delivery_id d.delivery_id,
      is_some_of_iff d.last_attempt_ref f.source.attempt_id,
    ),
  )
