-- ===== src/Domain/Delivery/Invariant.antt =====
-- What holds of a delivery between two calls: how its attempts are numbered, and what its history
-- may hold.
use quantalithos_bus.Base.{
  ◌+◌, ◌%◌, ◌<◌, ◌≡◌, refl, sym, ap, ◌∙◌, inl, inr, Bool, true, false, not, Option, none, some,
  List, [], ◌∷◌, ◌++◌, arith, Bool-cases, length, length-append, All, All-append, Result, ok, err,
  and_then, if_both,
}
use quantalithos_bus.Base.Text.{text_eq}
use quantalithos_bus.Contracts.Core.{Core}
use quantalithos_bus.Contracts.Status.{DeliveryStatus}
use quantalithos_bus.Contracts.Metadata.{
  DeliveryAttemptId, DeliveryId, FailureReason, SubscriberRef, u32_mod, next_attempt_no, increment,
  BackendCapabilityRef, BackendDeliveryResult,
}
use quantalithos_bus.Domain.Errors.{DomainError}
use quantalithos_bus.Base.Text.Laws.{text_eq_iff}
use quantalithos_bus.Domain.Publication.Semantic.{TransportSemantic}
use quantalithos_bus.Domain.Feedback.{FeedbackResult}
use quantalithos_bus.Domain.Delivery.Attempt.{
  DeliveryAttempt, find_attempt, replace_attempt, finish, start, attempt_id_of,
}
use quantalithos_bus.Domain.Delivery.{
  DeliveryRecord, Method, set_version, sync_attempt, finish_attempt, append_history, start_attempt,
  mark_delivered, mark_failed, reschedule_for_retry, mark_dead_lettered, mark_completed,
  store_attempt, finish_stored, is_some_of, schedule,
}
use quantalithos_bus.Domain.Delivery.History.{DeliveryHistoryEntry, can_transition}
use quantalithos_bus.Domain.Delivery.Steps.{
  Call, sets_version, syncs_attempt, finishes_attempt, appends_history, starts_attempt,
  marks_delivered, marks_failed, reschedules, marks_dead_lettered, marks_completed, step, run,
}
use quantalithos_bus.Domain.Delivery.Sequence.{
  Numbered, last_id, last_id-append, Numbered-append, Numbered-replace, length-replace,
  last_id-replace, find-id, find-delivery,
}

module _ ⦃core : Core⦄ where
  open core use {ActorContext, Timestamp, IdempotencyKey}

  abbrev pub is_dispatched : DeliveryStatus → Bool
  is_dispatched DeliveryStatus.dispatching = true
  is_dispatched DeliveryStatus.delivered = true
  is_dispatched DeliveryStatus.completed = true
  is_dispatched _ = false

  abbrev pub IsLogged : DeliveryId → DeliveryHistoryEntry → Type 0
  IsLogged d e = (e.delivery_id ≡ d) × (can_transition e.from_status e.to_status ≡ true)

  pub record Inv (d : DeliveryRecord) : Type 0 where
    pub numbered : Numbered d.delivery_id 0 d.attempts
    pub counted : d.attempt_count ≡ length d.attempts % u32_mod
    pub latest : d.last_attempt_ref ≡ last_id d.attempts
    pub dispatched : is_dispatched d.status ≡ true → 0 < length d.attempts
    pub logged : All (IsLogged d.delivery_id) d.history

  attempts-Inv :
      (d : DeliveryRecord) (id : DeliveryAttemptId) (b : DeliveryAttempt)
      → b.attempt_id ≡ id
      → b.delivery_id ≡ d.delivery_id
      → Inv d
      → Inv (record d { attempts = replace_attempt id b d.attempts })
  attempts-Inv d id b e f v = record {
    numbered = Numbered-replace d.delivery_id 0 id d.attempts b e f v.numbered;
    counted = v.counted ∙ ap (λ n. n % u32_mod) (sym (length-replace id d.attempts b));
    latest = v.latest ∙ sym (last_id-replace id d.attempts b e);
    dispatched = λ h. rw (length-replace id d.attempts b) (v.dispatched h);
    logged = v.logged;
  }

  status-Inv :
      (d : DeliveryRecord) (s : DeliveryStatus)
      → (is_dispatched s ≡ true → is_dispatched d.status ≡ true)
      → Inv d
      → Inv (record d { status = s })
  status-Inv d s h v = record {
    numbered = v.numbered;
    counted = v.counted;
    latest = v.latest;
    dispatched = λ p. v.dispatched (h p);
    logged = v.logged;
  }

  store_attempt-Inv :
      (d : DeliveryRecord) (a : DeliveryAttempt) (o : Option DeliveryAttempt)
      → a.delivery_id ≡ d.delivery_id
      → Inv d
      → Inv (store_attempt d a o).0
  unfolding store_attempt
  store_attempt-Inv d a none f v = v
  store_attempt-Inv d a (some stored) f v = attempts-Inv d a.attempt_id a refl f v

  sync_attempt-Inv : (d : DeliveryRecord) (a : DeliveryAttempt) → Inv d → Inv (sync_attempt d a).0
  unfolding sync_attempt
  sync_attempt-Inv d a v = elim (Bool-cases (text_eq a.delivery_id d.delivery_id)) [
    | inl e ↦ rw e (
        store_attempt-Inv d a (find_attempt a.attempt_id d.attempts)
          ((text_eq_iff a.delivery_id d.delivery_id).0 e) v)
    | inr e ↦ rw e v
  ]

  finish-ids :
      (a : DeliveryAttempt) (r : BackendDeliveryResult) (t : Timestamp)
      → ((finish a r t).0.attempt_id ≡ a.attempt_id)
        × ((finish a r t).0.delivery_id ≡ a.delivery_id)
  unfolding finish
  finish-ids a r t = ground arith

  finish_stored-Inv :
      (d : DeliveryRecord) (id : DeliveryAttemptId) (r : BackendDeliveryResult) (t : Timestamp)
      (o : Option DeliveryAttempt)
      → find_attempt id d.attempts ≡ o
      → Inv d
      → Inv (finish_stored d id r t o).0
  unfolding finish_stored
  finish_stored-Inv d id r t none f v = v
  finish_stored-Inv d id r t (some a) f v = rw (and_then-state (finish a r t)) (
      attempts-Inv d id (finish a r t).0 ((finish-ids a r t).0 ∙ find-id id d.attempts f)
        ((finish-ids a r t).1 ∙ find-delivery d.delivery_id 0 id d.attempts v.numbered f) v)
    where
      and_then-state :
          (x : DeliveryAttempt × Result DomainError (Unit {0}))
          → (and_then {B = DeliveryAttempt}
              (record d { attempts = replace_attempt id x.0 d.attempts }, x.1)
              (λ self _. (self, ok x.0))).0
            ≡ record d { attempts = replace_attempt id x.0 d.attempts }
      and_then-state (b, ok u) = refl
      and_then-state (b, err e) = refl

  finish_attempt-Inv :
      (d : DeliveryRecord) (id : DeliveryAttemptId) (r : BackendDeliveryResult) (t : Timestamp)
      → Inv d
      → Inv (finish_attempt d id r t).0
  unfolding finish_attempt
  finish_attempt-Inv d id r t v =
      if_both (λ (m : Method DeliveryAttempt). Inv m.0) (not (is_some_of d.last_attempt_ref id)) v
        (finish_stored-Inv d id r t (find_attempt id d.attempts) refl v)

  started-Inv :
      (d : DeliveryRecord) (t : Timestamp)
      → Inv d
      → let a = start d.delivery_id (next_attempt_no d.attempt_count) t in
        Inv (record d {
          attempt_count = increment d.attempt_count;
          last_attempt_ref = some a.attempt_id;
          status = DeliveryStatus.dispatching;
          attempts = d.attempts ++ a ∷ [];
        })
  unfolding start next_attempt_no increment
  started-Inv d t v =
      let a = start d.delivery_id (next_attempt_no d.attempt_count) t in
      let next : (d.attempt_count + 1) % u32_mod ≡ (0 + length d.attempts + 1) % u32_mod =
        rw v.counted (omega arith) in
      record {
        numbered =
            Numbered-append d.delivery_id 0 d.attempts a v.numbered
              (ap (attempt_id_of d.delivery_id) next) refl;
        counted = next ∙ ap (λ n. n % u32_mod) (omega (arith, length-append d.attempts (a ∷ [])));
        latest = sym (last_id-append d.attempts a);
        dispatched = λ _. omega (arith, length-append d.attempts (a ∷ []));
        logged = v.logged;
      }

  start_attempt-Inv :
      (d : DeliveryRecord) (c : BackendCapabilityRef) (t : Timestamp)
      → Inv d
      → Inv (start_attempt d c t).0
  unfolding start_attempt
  start_attempt-Inv d c t v = ground (arith, started-Inv d t v)

  append_history-Inv :
      (d : DeliveryRecord) (e : DeliveryHistoryEntry) → Inv d → Inv (append_history d e).0
  unfolding append_history
  append_history-Inv d e v = ground (
    arith,
    text_eq_iff e.delivery_id d.delivery_id,
    All-append (IsLogged d.delivery_id) d.history (e ∷ []),
  )

  mark_failed-Inv :
      (d : DeliveryRecord) (r : FailureReason) (a : ActorContext)
      → Inv d
      → Inv (mark_failed d r a).0
  unfolding mark_failed
  mark_failed-Inv d r a v = ground arith

  mark_completed-Inv :
      (d : DeliveryRecord) (f : FeedbackResult) (a : ActorContext)
      → Inv d
      → Inv (mark_completed d f a).0
  unfolding mark_completed
  mark_completed-Inv d f a v = ground arith

  mark_delivered-Inv :
      (d : DeliveryRecord) (b : DeliveryAttempt) (a : ActorContext)
      → Inv d
      → Inv (mark_delivered d b a).0
  unfolding mark_delivered
  mark_delivered-Inv d b a v = ground (arith, sync_attempt-Inv d b v)

  -- Every call keeps the invariant, failed calls included.
  pub step-Inv : (d : DeliveryRecord) (c : Call) → Inv d → Inv (step d c).0
  unfolding step set_version
  step-Inv d (sets_version x) v = record {
    numbered = v.numbered;
    counted = v.counted;
    latest = v.latest;
    dispatched = v.dispatched;
    logged = v.logged;
  }
  step-Inv d (syncs_attempt a) v = sync_attempt-Inv d a v
  step-Inv d (finishes_attempt id r t) v = finish_attempt-Inv d id r t v
  step-Inv d (appends_history e) v = append_history-Inv d e v
  step-Inv d (starts_attempt c t) v = start_attempt-Inv d c t v
  step-Inv d (marks_delivered b a) v = mark_delivered-Inv d b a v
  step-Inv d (marks_failed r a) v = mark_failed-Inv d r a v
  step-Inv d (reschedules a) v = unfold reschedule_for_retry in ground arith
  step-Inv d (marks_dead_lettered id a) v = unfold mark_dead_lettered in ground arith
  step-Inv d (marks_completed f a) v = mark_completed-Inv d f a v

  run-Inv : (d : DeliveryRecord) (cs : List Call) → Inv d → Inv (run d cs)
  unfolding run
  run-Inv d [] v = v
  run-Inv d (c ∷ cs) v = run-Inv (step d c).0 cs (step-Inv d c v)

  schedule-Inv :
      (s : TransportSemantic) (r : SubscriberRef) (k : IdempotencyKey) {d : DeliveryRecord}
      → schedule s r k ≡ ok d
      → Inv d
  unfolding schedule
  schedule-Inv s r k h = ground arith

  -- Whatever is called on a scheduled delivery, the invariant holds.
  pub schedule-run-Inv :
      (s : TransportSemantic) (r : SubscriberRef) (k : IdempotencyKey) {d : DeliveryRecord}
      (cs : List Call)
      → schedule s r k ≡ ok d
      → Inv (run d cs)
  schedule-run-Inv s r k {d} cs h = run-Inv d cs (schedule-Inv s r k h)
