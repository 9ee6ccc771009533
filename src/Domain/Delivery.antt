-- ===== src/Domain/Delivery.antt =====
-- crates/domain/src/delivery.rs: the delivery aggregate. A method on `&mut self` returns the record
-- that it leaves behind beside its result, so that an error path may show a partial update.
pub mod History
pub mod Attempt
pub mod Sequence
pub mod Invariant
pub mod Lifecycle
pub mod Steps
pub mod Numbering
pub mod Evidence
pub mod Dispatching
pub mod Flow
use quantalithos_bus.Base.{
  ◌+◌, Bool, false, not, Option, none, some, List, [], ◌∷◌, ◌++◌, if◌then◌else◌, Result, ok, err,
  and_then,
}
use quantalithos_bus.Base.Text.{Text, codes, is_blank, text_eq}
use quantalithos_bus.Contracts.Core.{Core}
use quantalithos_bus.Contracts.Status.{DeliveryStatus, delivery_eq}
use quantalithos_bus.Contracts.Metadata.{
  DeadLetterId, DeliveryAttemptId, DeliveryAttemptRef, DeliveryId, FailureReason, PublicationId,
  SubscriberRef, AttemptCount, next_attempt_no, increment, sanitize, BackendCapabilityRef,
  BackendDeliveryResult,
}
use quantalithos_bus.Domain.Errors.{DomainError}
use quantalithos_bus.Domain.Feedback.{FeedbackResult, is_success}
use quantalithos_bus.Domain.Publication.Semantic.{TransportSemantic, requires_durable_record}
use History.{can_transition, requires_history, is_terminal, DeliveryHistoryEntry, transition}
use Attempt.{
  DeliveryAttempt, start, finish, is_finished, has_delivered, find_attempt, replace_attempt,
}

-- `value == Some(text)`.
unfoldable pub is_some_of : Option Text → Text → Bool
is_some_of none t = false
is_some_of (some s) t = text_eq s t

module _ ⦃core : Core⦄ where
  open core use {ActorContext, Timestamp, IdempotencyKey, key_as_str, Version, version_zero}

  pub record DeliveryRecord : Type 0 where
    pub delivery_id : DeliveryId
    pub publication_id : PublicationId
    pub subscriber_ref : SubscriberRef
    pub status : DeliveryStatus
    pub attempt_count : AttemptCount
    pub idempotency_key : IdempotencyKey
    pub last_attempt_ref : Option DeliveryAttemptRef
    pub transport_semantic : TransportSemantic
    pub version : Version
    pub attempts : List DeliveryAttempt
    pub history : List DeliveryHistoryEntry

  -- Without a failure a method on `&mut self` has the result `Ok(())`.
  abbrev pub Method : Type 0 → Type 0
  Method A = DeliveryRecord × Result DomainError A

  unfoldable pub schedule :
      TransportSemantic → SubscriberRef → IdempotencyKey → Result DomainError DeliveryRecord
  unfolding requires_durable_record
  schedule semantic subscriber_ref key =
      if not (requires_durable_record semantic)
      then err DomainError.non_durable_transport_semantic
      else if is_blank subscriber_ref
      then err (DomainError.invalid_delivery_record "subscriber_ref")
      else if is_blank (key_as_str key)
      then err (DomainError.invalid_delivery_record "idempotency_key")
      else ok (record {
        delivery_id =
            codes "delivery_"
            ++ sanitize semantic.publication_id
            ++ codes "_"
            ++ sanitize subscriber_ref;
        publication_id = semantic.publication_id;
        subscriber_ref = subscriber_ref;
        status = DeliveryStatus.scheduled;
        attempt_count = 0;
        idempotency_key = key;
        last_attempt_ref = none;
        transport_semantic = semantic;
        version = version_zero;
        attempts = [];
        history = [];
      })

  unfoldable pub set_version : DeliveryRecord → Version → DeliveryRecord
  set_version self version = record self { version = version }

  unfoldable pub can_transition_to : DeliveryRecord → DeliveryStatus → Bool
  unfolding can_transition
  can_transition_to self target_status = can_transition self.status target_status

  unfoldable pub rejects_reopen : DeliveryRecord → Bool
  rejects_reopen delivery = is_terminal delivery.status

  -- `*stored = attempt`, at the attempt that the search found.
  store_attempt : DeliveryRecord → DeliveryAttempt → Option DeliveryAttempt → Method (Unit {0})
  unfolding replace_attempt
  store_attempt self attempt none = (self, err DomainError.attempt_ref_mismatch)
  store_attempt self attempt (some stored) =
      (record self { attempts = replace_attempt attempt.attempt_id attempt self.attempts }, ok tt)

  unfoldable pub sync_attempt : DeliveryRecord → DeliveryAttempt → Method (Unit {0})
  unfolding store_attempt find_attempt
  sync_attempt self attempt =
      if not (text_eq attempt.delivery_id self.delivery_id)
      then (self, err DomainError.attempt_does_not_belong_to_delivery)
      else store_attempt self attempt (find_attempt attempt.attempt_id self.attempts)

  -- `attempt.finish(result, occurred_at)?` on the stored attempt, and its clone.
  finish_stored :
      DeliveryRecord
      → DeliveryAttemptId
      → BackendDeliveryResult
      → Timestamp
      → Option DeliveryAttempt
      → Method DeliveryAttempt
  unfolding finish replace_attempt
  finish_stored self attempt_id result occurred_at none =
      (self, err DomainError.attempt_ref_mismatch)
  finish_stored self attempt_id result occurred_at (some attempt) =
      let (finished, outcome) = finish attempt result occurred_at in
      and_then
        (record self { attempts = replace_attempt attempt_id finished self.attempts }, outcome)
        (λ self' _. (self', ok finished))

  unfoldable pub finish_attempt :
      DeliveryRecord
      → DeliveryAttemptId
      → BackendDeliveryResult
      → Timestamp
      → Method DeliveryAttempt
  unfolding finish_stored find_attempt is_some_of
  finish_attempt self attempt_id result occurred_at =
      if not (is_some_of self.last_attempt_ref attempt_id)
      then (self, err DomainError.attempt_ref_mismatch)
      else finish_stored self attempt_id result occurred_at (find_attempt attempt_id self.attempts)

  unfoldable pub append_history : DeliveryRecord → DeliveryHistoryEntry → Method (Unit {0})
  unfolding requires_history
  append_history self entry =
      if not (text_eq entry.delivery_id self.delivery_id)
      then (self, err (DomainError.invalid_delivery_record "history.delivery_id"))
      else if not (requires_history entry.from_status entry.to_status)
      then (self, err (DomainError.invalid_delivery_record "history.transition"))
      else (record self { history = self.history ++ entry ∷ [] }, ok tt)

  unfoldable pub start_attempt :
      DeliveryRecord → BackendCapabilityRef → Timestamp → Method DeliveryAttempt
  unfolding start increment next_attempt_no
  start_attempt self capability_ref occurred_at =
      let attempt = start self.delivery_id (next_attempt_no self.attempt_count) occurred_at in
      if is_blank capability_ref.capability_id
      then (self, err (DomainError.invalid_delivery_record "backend_capability_ref"))
      else if is_terminal self.status
      then (self, err DomainError.terminal_delivery_state_reopen_rejected)
      else if not (delivery_eq self.status DeliveryStatus.scheduled)
      then (
        self,
        err (DomainError.invalid_delivery_transition self.status DeliveryStatus.dispatching),
      )
      else (
        record self {
          attempt_count = increment self.attempt_count;
          last_attempt_ref = some attempt.attempt_id;
          status = DeliveryStatus.dispatching;
          attempts = self.attempts ++ attempt ∷ [];
        },
        ok attempt,
      )

  unfoldable pub mark_delivered :
      DeliveryRecord → DeliveryAttempt → ActorContext → Method (Unit {0})
  unfolding is_some_of is_finished has_delivered sync_attempt
  mark_delivered self attempt actor =
      if not (delivery_eq self.status DeliveryStatus.dispatching)
      then (
        self,
        err (DomainError.invalid_delivery_transition self.status DeliveryStatus.delivered),
      )
      else if not (text_eq attempt.delivery_id self.delivery_id)
      then (self, err DomainError.attempt_does_not_belong_to_delivery)
      else if not (is_some_of self.last_attempt_ref attempt.attempt_id)
      then (self, err DomainError.attempt_ref_mismatch)
      else if not (is_finished attempt)
      then (self, err DomainError.attempt_not_finished)
      else if not (has_delivered attempt)
      then (self, err DomainError.attempt_outcome_does_not_deliver)
      else and_then (sync_attempt self attempt)
          (λ self' _. (record self' { status = DeliveryStatus.delivered }, ok tt))

  unfoldable pub mark_failed : DeliveryRecord → FailureReason → ActorContext → Method (Unit {0})
  unfolding can_transition_to
  mark_failed self reason actor =
      if is_blank reason
      then (self, err (DomainError.invalid_delivery_record "failure_reason"))
      else if is_terminal self.status
      then (self, err DomainError.terminal_delivery_state_reopen_rejected)
      else if not (can_transition_to self DeliveryStatus.failed)
      then (self, err (DomainError.invalid_delivery_transition self.status DeliveryStatus.failed))
      else (record self { status = DeliveryStatus.failed }, ok tt)

  unfoldable pub reschedule_for_retry : DeliveryRecord → ActorContext → Method (Unit {0})
  unfolding can_transition_to
  reschedule_for_retry self actor =
      if not (delivery_eq self.status DeliveryStatus.failed)
      then (self, err DomainError.retry_not_allowed)
      else if not (can_transition_to self DeliveryStatus.scheduled)
      then (
        self,
        err (DomainError.invalid_delivery_transition self.status DeliveryStatus.scheduled),
      )
      else (record self { status = DeliveryStatus.scheduled }, ok tt)

  unfoldable pub mark_dead_lettered :
      DeliveryRecord → DeadLetterId → ActorContext → Method (Unit {0})
  unfolding can_transition_to
  mark_dead_lettered self dead_letter_id actor =
      if is_blank dead_letter_id
      then (self, err (DomainError.invalid_delivery_record "dead_letter_id"))
      else if not (delivery_eq self.status DeliveryStatus.failed)
      then (self, err DomainError.dead_letter_not_allowed)
      else if not (can_transition_to self DeliveryStatus.dead_lettered)
      then (
        self,
        err (DomainError.invalid_delivery_transition self.status DeliveryStatus.dead_lettered),
      )
      else (record self { status = DeliveryStatus.dead_lettered }, ok tt)

  -- The end of `mark_completed`, on the attempt that the search found.
  complete_with : DeliveryRecord → Option DeliveryAttempt → Method (Unit {0})
  unfolding is_finished has_delivered
  complete_with self none = (self, err DomainError.attempt_ref_mismatch)
  complete_with self (some attempt) =
      if not (is_finished attempt)
      then (self, err DomainError.attempt_not_finished)
      else if not (has_delivered attempt)
      then (self, err DomainError.attempt_outcome_does_not_deliver)
      else (record self { status = DeliveryStatus.completed }, ok tt)

  unfoldable pub mark_completed : DeliveryRecord → FeedbackResult → ActorContext → Method (Unit {0})
  unfolding is_success is_some_of find_attempt complete_with
  mark_completed self feedback actor =
      if not (text_eq feedback.delivery_id self.delivery_id)
      then (self, err (DomainError.invalid_feedback_result "feedback.delivery_id"))
      else if not (is_success feedback)
      then (self, err (DomainError.invalid_feedback_result "feedback.status"))
      else if is_terminal self.status
      then (self, err DomainError.terminal_delivery_state_reopen_rejected)
      else if not (delivery_eq self.status DeliveryStatus.delivered)
      then (
        self,
        err (DomainError.invalid_delivery_transition self.status DeliveryStatus.completed),
      )
      else if not (is_some_of self.last_attempt_ref feedback.source.attempt_id)
      then (self, err DomainError.attempt_ref_mismatch)
      else complete_with self (find_attempt feedback.source.attempt_id self.attempts)
