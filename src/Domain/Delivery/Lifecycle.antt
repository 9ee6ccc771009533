-- ===== src/Domain/Delivery/Lifecycle.antt =====
-- The status of a delivery under every call: the transition policy, and what an error leaves.
use quantalithos_bus.Base.{
  ◌≡◌, refl, ◌∙◌, ◌⊎◌, inl, inr, true, false, Option, none, some, List, [], ◌∷◌, arith, Bool-cases,
}
use quantalithos_bus.Contracts.Core.{Core}
use quantalithos_bus.Contracts.Status.{DeliveryStatus}
use quantalithos_bus.Contracts.Metadata.{DeliveryAttemptId, BackendDeliveryResult}
use quantalithos_bus.Domain.Delivery.Attempt.{DeliveryAttempt, find_attempt, replace_attempt}
use quantalithos_bus.Domain.Delivery.{
  DeliveryRecord, set_version, sync_attempt, finish_attempt, append_history, start_attempt,
  mark_delivered, mark_failed, reschedule_for_retry, mark_dead_lettered, mark_completed,
  finish_stored, is_some_of,
}
use quantalithos_bus.Domain.Delivery.History.{can_transition, is_terminal}
use quantalithos_bus.Domain.Delivery.Steps.{
  Call, sets_version, syncs_attempt, finishes_attempt, appends_history, starts_attempt,
  marks_delivered, marks_failed, reschedules, marks_dead_lettered, marks_completed, step, run,
  is_ok,
}

module _ ⦃core : Core⦄ where
  open core use {Timestamp}

  -- Writing back the attempt that the search finds changes nothing.
  replace-find :
      (id : DeliveryAttemptId) (xs : List DeliveryAttempt) (a : DeliveryAttempt)
      → find_attempt id xs ≡ some a
      → replace_attempt id a xs ≡ xs
  unfolding find_attempt replace_attempt
  replace-find id [] a h = refl
  replace-find id (b ∷ xs) a h = ground (arith, replace-find id xs a)

  finish_stored-failed :
      (d : DeliveryRecord) (id : DeliveryAttemptId) (r : BackendDeliveryResult) (t : Timestamp)
      (o : Option DeliveryAttempt)
      → find_attempt id d.attempts ≡ o
      → is_ok (finish_stored d id r t o).1 ≡ false
      → (finish_stored d id r t o).0 ≡ d
  unfolding finish_stored
  finish_stored-failed d id r t none f h = refl
  finish_stored-failed d id r t (some a) f h = ground (arith, replace-find id d.attempts a)

  finish_attempt-failed :
      (d : DeliveryRecord) (id : DeliveryAttemptId) (r : BackendDeliveryResult) (t : Timestamp)
      → is_ok (finish_attempt d id r t).1 ≡ false
      → (finish_attempt d id r t).0 ≡ d
  unfolding finish_attempt
  finish_attempt-failed d id r t h = elim (Bool-cases (is_some_of d.last_attempt_ref id)) [
    | inl e ↦ rw e (finish_stored-failed d id r t (find_attempt id d.attempts) refl (rw e at h))
    | inr e ↦ rw e
  ]

  -- A failed call leaves the record as it was.
  pub step_failed : (d : DeliveryRecord) (c : Call) → (step d c).1 ≡ false → (step d c).0 ≡ d
  unfolding step set_version sync_attempt finish_attempt append_history start_attempt mark_delivered
      mark_failed reschedule_for_retry mark_dead_lettered mark_completed
  step_failed d (sets_version v) h = cc
  step_failed d (syncs_attempt a) h = ground arith
  step_failed d (finishes_attempt id r t) h = finish_attempt-failed d id r t h
  step_failed d (appends_history e) h = ground arith
  step_failed d (starts_attempt capability t) h = ground arith
  step_failed d (marks_delivered a actor) h = ground arith
  step_failed d (marks_failed r actor) h = ground arith
  step_failed d (reschedules actor) h = ground arith
  step_failed d (marks_dead_lettered id actor) h = ground arith
  step_failed d (marks_completed f actor) h = ground arith

  -- A call keeps the status, or moves it along an edge of the transition policy.
  pub step_status :
      (d : DeliveryRecord) (c : Call)
      → ((step d c).0.status ≡ d.status) ⊎ (can_transition d.status (step d c).0.status ≡ true)
  unfolding step set_version sync_attempt finish_attempt append_history start_attempt mark_delivered
      mark_failed reschedule_for_retry mark_dead_lettered mark_completed
  step_status d (sets_version v) = inl refl
  step_status d (syncs_attempt a) = ground arith
  step_status d (finishes_attempt id r t) = ground arith
  step_status d (appends_history e) = ground arith
  step_status d (starts_attempt capability t) = ground arith
  step_status d (marks_delivered a actor) = ground arith
  step_status d (marks_failed r actor) = ground arith
  step_status d (reschedules actor) = ground arith
  step_status d (marks_dead_lettered id actor) = ground arith
  step_status d (marks_completed f actor) = ground arith

  no_transition : (s t : DeliveryStatus) → is_terminal s ≡ true → can_transition s t ≡ false
  unfolding can_transition
  no_transition s t h = ground arith

  step_terminal :
      (d : DeliveryRecord) (c : Call) → is_terminal d.status ≡ true → (step d c).0.status ≡ d.status
  step_terminal d c h = elim (step_status d c) [
    | inl e ↦ e
    | inr e ↦ cc (no_transition d.status (step d c).0.status h)
  ]

  -- A completed or dead-lettered delivery keeps its status through every history of calls.
  pub run_terminal :
      (d : DeliveryRecord) (cs : List Call)
      → is_terminal d.status ≡ true
      → (run d cs).status ≡ d.status
  unfolding run
  run_terminal d [] h = refl
  run_terminal d (c ∷ cs) h =
      let e = step_terminal d c h in run_terminal (step d c).0 cs (rw e h) ∙ e
