-- ===== src/Domain/Delivery/Dispatching.antt =====
-- crates/application/src/services/delivery.rs: the calls of the aggregate that a dispatch makes, on a scheduled
-- delivery.
use quantalithos_bus.Base.{
  ◌+◌, ◌%◌, ◌<◌, ◌≡◌, refl, ap, ◌∙◌, true, false, none, some, List, [], ◌∷◌, ◌++◌, arith, length,
  ok,
}
use quantalithos_bus.Base.Text.{is_blank, text_lt}
use quantalithos_bus.Contracts.Core.{Core}
use quantalithos_bus.Contracts.Status.{DeliveryStatus, BackendDeliveryStatus}
use quantalithos_bus.Contracts.Metadata.{
  u32_mod, next_attempt_no, increment, BackendCapabilityRef, BackendDeliveryResult,
  DeliveryAttemptId, dispatching_started, delivery_arrived, HistoryReason,
}
use quantalithos_bus.Base.Text.Laws.{text_eq_iff, text_eq_refl}
use quantalithos_bus.Domain.Delivery.Attempt.{
  DeliveryAttempt, find_attempt, replace_attempt, start, finish, is_finished,
}
use quantalithos_bus.Domain.Delivery.{DeliveryRecord, start_attempt, append_history, mark_delivered}
use quantalithos_bus.Domain.Delivery.History.{DeliveryHistoryEntry, transition, requires_history}
use quantalithos_bus.Domain.Delivery.Invariant.{Inv}
use quantalithos_bus.Domain.Delivery.Numbering.{find-fresh, find-snoc}
use mathlib.Core.List.{append_assoc}

module _ ⦃core : Core⦄ where
  open core use {ActorContext, Timestamp, time_as_str}

  -- The attempt of the dispatch, as started and as finished.
  abbrev pub first : DeliveryRecord → Timestamp → DeliveryAttempt
  first d started_at = start d.delivery_id (next_attempt_no d.attempt_count) started_at

  abbrev pub second : DeliveryAttempt → BackendDeliveryResult → Timestamp → DeliveryAttempt
  second a result finished_at = record a {
    backend_ref = result.backend_ref;
    finished_at = some finished_at;
    result_status = some result.status;
  }

  pub fresh :
      (d : DeliveryRecord) (t : Timestamp)
      → Inv d
      → length d.attempts + 1 < u32_mod
      → find_attempt (first d t).attempt_id d.attempts ≡ none
  unfolding start next_attempt_no
  fresh d t v l =
      find-fresh d.delivery_id 0 ((d.attempt_count + 1) % u32_mod) d.attempts v.numbered
        (rw v.counted (omega arith)) (omega arith)

  replace-snoc :
      (id : DeliveryAttemptId) (xs : List DeliveryAttempt) (a b : DeliveryAttempt)
      → find_attempt id xs ≡ none
      → a.attempt_id ≡ id
      → replace_attempt id b (xs ++ a ∷ []) ≡ xs ++ b ∷ []
  unfolding find_attempt replace_attempt
  replace-snoc id [] a b h e = ground (arith, text_eq_iff a.attempt_id id)
  replace-snoc id (x ∷ xs) a b h e = ground (arith, replace-snoc id xs a b)

  -- The record that a successful `start_attempt` leaves.
  abbrev pub started : DeliveryRecord → Timestamp → DeliveryRecord
  started d t = record d {
    attempt_count = increment d.attempt_count;
    last_attempt_ref = some (first d t).attempt_id;
    status = DeliveryStatus.dispatching;
    attempts = d.attempts ++ first d t ∷ [];
  }

  start_attempt-scheduled :
      (d : DeliveryRecord) (c : BackendCapabilityRef) (t : Timestamp)
      → d.status ≡ DeliveryStatus.scheduled
      → is_blank c.capability_id ≡ false
      → start_attempt d c t ≡ (started d t, ok (first d t))
  unfolding start_attempt
  start_attempt-scheduled d c t s b = ground arith

  pub append_history-transition :
      (d : DeliveryRecord) (from to : DeliveryStatus) (reason : HistoryReason) (at : Timestamp)
      → requires_history from to ≡ true
      → append_history d (transition d.delivery_id from to reason at) ≡ (
        record d { history = d.history ++ transition d.delivery_id from to reason at ∷ [] },
        ok tt,
      )
  unfolding append_history transition
  append_history-transition d from to reason at r = ground (arith, text_eq_refl d.delivery_id)

  finish-open :
      (a : DeliveryAttempt) (r : BackendDeliveryResult) (t : Timestamp)
      → a.finished_at ≡ none
      → text_lt (time_as_str t) (time_as_str a.started_at) ≡ false
      → finish a r t ≡ (second a r t, ok tt)
  unfolding finish
  finish-open a r t o h = ground arith

  mark_delivered-latest :
      (d : DeliveryRecord) (a b : DeliveryAttempt) (actor : ActorContext)
      → d.status ≡ DeliveryStatus.dispatching
      → b.delivery_id ≡ d.delivery_id
      → d.last_attempt_ref ≡ some b.attempt_id
      → is_finished b ≡ true
      → b.result_status ≡ some BackendDeliveryStatus.delivered
      → find_attempt b.attempt_id d.attempts ≡ some a
      → mark_delivered d b actor ≡ (
        record d {
          status = DeliveryStatus.delivered;
          attempts = replace_attempt b.attempt_id b d.attempts;
        },
        ok tt,
      )
  unfolding mark_delivered
  mark_delivered-latest d a b actor s own latest done status stored =
      ground (arith, text_eq_iff b.delivery_id d.delivery_id, text_eq_refl b.attempt_id)

  -- The history entries of a dispatch.
  abbrev pub dispatch_entries : DeliveryRecord → Timestamp → Timestamp → List DeliveryHistoryEntry
  dispatch_entries d started_at finished_at =
      transition d.delivery_id d.status DeliveryStatus.dispatching dispatching_started started_at
      ∷ transition d.delivery_id DeliveryStatus.dispatching DeliveryStatus.delivered
          delivery_arrived finished_at
      ∷ []

  -- The record that a dispatch leaves that the backend reports as delivered.
  abbrev pub arrived :
      DeliveryRecord → Timestamp → BackendDeliveryResult → Timestamp → DeliveryRecord
  arrived d started_at result finished_at = record d {
    attempt_count = increment d.attempt_count;
    last_attempt_ref = some (first d started_at).attempt_id;
    status = DeliveryStatus.delivered;
    attempts = d.attempts ++ second (first d started_at) result finished_at ∷ [];
    history = d.history ++ dispatch_entries d started_at finished_at;
  }

  -- The record once the dispatch has begun, and once it is marked as delivered.
  abbrev pub dispatching : DeliveryRecord → Timestamp → DeliveryRecord
  dispatching d started_at = record (started d started_at) {
    history =
        d.history
        ++ transition d.delivery_id d.status DeliveryStatus.dispatching dispatching_started
            started_at
          ∷ [];
  }

  abbrev pub marked :
      DeliveryRecord → Timestamp → BackendDeliveryResult → Timestamp → DeliveryRecord
  marked d started_at result finished_at = record (dispatching d started_at) {
    status = DeliveryStatus.delivered;
    attempts = d.attempts ++ second (first d started_at) result finished_at ∷ [];
  }

  -- The calls of a dispatch on such a delivery, one after the other.
  pub record Dispatch (d : DeliveryRecord) (c : BackendCapabilityRef) (t : Timestamp)
      (result : BackendDeliveryResult) (u : Timestamp) (actor : ActorContext) : Type 0 where
    pub starts : start_attempt d c t ≡ (started d t, ok (first d t))
    pub begins :
        append_history
          (started d t)
          (transition d.delivery_id d.status DeliveryStatus.dispatching dispatching_started t)
        ≡ (dispatching d t, ok tt)
    pub finishes : finish (first d t) result u ≡ (second (first d t) result u, ok tt)
    pub marks :
        mark_delivered (dispatching d t) (second (first d t) result u) actor
        ≡ (marked d t result u, ok tt)
    pub arrives :
        append_history (marked d t result u) (
          transition d.delivery_id DeliveryStatus.dispatching DeliveryStatus.delivered
            delivery_arrived u)
        ≡ (arrived d t result u, ok tt)

  pub scheduled-Dispatch :
      (d : DeliveryRecord) (c : BackendCapabilityRef) (t : Timestamp)
      (result : BackendDeliveryResult) (u : Timestamp) (actor : ActorContext)
      → Inv d
      → d.status ≡ DeliveryStatus.scheduled
      → length d.attempts + 1 < u32_mod
      → is_blank c.capability_id ≡ false
      → text_lt (time_as_str u) (time_as_str t) ≡ false
      → result.status ≡ BackendDeliveryStatus.delivered
      → Dispatch d c t result u actor
  unfolding start is_finished requires_history
  scheduled-Dispatch d c t result u actor v s l b order r =
      let a = first d t in
      let z = second a result u in
      let h = transition d.delivery_id d.status DeliveryStatus.dispatching dispatching_started t in
      let k =
        transition d.delivery_id DeliveryStatus.dispatching DeliveryStatus.delivered
          delivery_arrived u in
      let none_yet = fresh d t v l in
      record {
        starts = start_attempt-scheduled d c t s b;
        begins =
            append_history-transition (started d t) d.status DeliveryStatus.dispatching
              dispatching_started t (rw s refl);
        finishes = finish-open a result u refl order;
        marks =
            mark_delivered-latest (dispatching d t) a z actor refl refl refl refl (ap some r)
              (find-snoc a.attempt_id d.attempts a none_yet refl)
            ∙ ap (λ xs. (record (marked d t result u) { attempts = xs }, ok tt))
                (replace-snoc a.attempt_id d.attempts a z none_yet refl);
        arrives =
            append_history-transition (marked d t result u) DeliveryStatus.dispatching
              DeliveryStatus.delivered delivery_arrived u refl
            ∙ ap (λ xs. (record (marked d t result u) { history = xs }, ok tt))
                (append_assoc d.history (h ∷ []) (k ∷ []));
      }
