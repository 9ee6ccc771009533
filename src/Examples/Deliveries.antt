-- ===== src/Examples/Deliveries.antt =====
-- Examples on deliveries and feedback.
use quantalithos_bus.Base.{
  if◌then◌else◌, ◌≡◌, refl, ◌↔◌, ◌⊎◌, true, false, none, some, List, [], ◌∷◌, ◌++◌, arith, ok,
  and_then,
}
use quantalithos_bus.Base.Text.{codes, is_blank, text_eq, text_lt, show, is_ascii_alphanumeric}
use quantalithos_bus.Contracts.Status.{
  DeliveryStatus, FeedbackStatus, BackendDeliveryStatus, TimeoutReason,
}
use quantalithos_bus.Contracts.Metadata.{next_attempt_no, increment, sanitize}
use quantalithos_bus.Domain.Feedback.{
  FeedbackResult, timeout, is_success, is_failure, is_duplicate, implied_delivery_status,
}
use quantalithos_bus.Domain.Delivery.Attempt.{
  find_attempt, is_finished, replace_attempt, attempt_id_of,
}
use quantalithos_bus.Domain.Delivery.{
  finish_attempt, start_attempt, mark_delivered, mark_failed, reschedule_for_retry, mark_completed,
  schedule,
}
use quantalithos_bus.Domain.Delivery.History.{can_transition}
use quantalithos_bus.Domain.Delivery.Steps.{
  Call, finishes_attempt, starts_attempt, marks_failed, reschedules, step, run, is_ok,
}
use quantalithos_bus.Domain.Delivery.Invariant.{Inv, schedule-run-Inv}
use quantalithos_bus.Domain.Delivery.Lifecycle.{step_failed, step_status, run_terminal}
use quantalithos_bus.Domain.Delivery.Numbering.{Distinct, Inv-Distinct}
use quantalithos_bus.Domain.Delivery.Evidence.{mark_delivered_iff, mark_completed_iff}
use quantalithos_bus.Domain.Delivery.Dispatching.{first, second}
use quantalithos_bus.Domain.Delivery.Flow.{
  dispatch_delivered, acknowledge, course, dispatch_and_complete-scheduled,
}
use quantalithos_bus.Domain.Feedback.Outcome.{Entry, by_timeout_signal, receive, receive_outcome}
use quantalithos_bus.Examples.Fixtures.{
  text_core, semantic, scheduled_delivery, with_status, first_attempt, capability, delivered,
  source, feedback_of,
}

abbrev calls : List Call
calls =
    starts_attempt capability (codes "1")
    ∷ finishes_attempt (codes "attempt_delivery_pub_s_1") delivered (codes "2")
    ∷ marks_failed (codes "late") true
    ∷ reschedules true
    ∷ starts_attempt capability (codes "3")
    ∷ []

schedule-run-Inv_example : Inv (run scheduled_delivery calls)
unfolding schedule is_blank sanitize is_ascii_alphanumeric
schedule-run-Inv_example = schedule-run-Inv semantic (codes "s") (codes "k") calls refl

-- The calls end in a second attempt.
calls_redispatch : (run scheduled_delivery calls).attempt_count ≡ 2
unfolding run step start_attempt finish_attempt mark_failed reschedule_for_retry is_blank sanitize
    is_ascii_alphanumeric show text_eq text_lt
calls_redispatch = refl

run_terminal_example :
    (run (with_status DeliveryStatus.completed) calls).status ≡ DeliveryStatus.completed
run_terminal_example = run_terminal (with_status DeliveryStatus.completed) calls refl

step_failed_example :
    (step (with_status DeliveryStatus.delivered) (reschedules true)).0
    ≡ with_status DeliveryStatus.delivered
unfolding step reschedule_for_retry
step_failed_example = step_failed (with_status DeliveryStatus.delivered) (reschedules true) refl

step_status_example :
    ((step scheduled_delivery (starts_attempt capability (codes "1"))).0.status
      ≡ DeliveryStatus.scheduled)
    ⊎ (can_transition DeliveryStatus.scheduled
          (step scheduled_delivery (starts_attempt capability (codes "1"))).0.status
        ≡ true)
step_status_example = step_status scheduled_delivery (starts_attempt capability (codes "1"))

with_status-Inv : (s : DeliveryStatus) → Inv (with_status s)
unfolding attempt_id_of sanitize is_ascii_alphanumeric show
with_status-Inv s = record {
  numbered = (refl, refl, tt);
  counted = refl;
  latest = refl;
  dispatched = λ h. omega arith;
  logged = tt;
}

Inv-Distinct_example : Distinct (first_attempt ∷ [])
Inv-Distinct_example =
    Inv-Distinct (with_status DeliveryStatus.delivered) (with_status-Inv DeliveryStatus.delivered)
      (omega arith)

mark_delivered_iff_example :
    let d = with_status DeliveryStatus.dispatching in
    let (after, result) = mark_delivered d first_attempt true in
    ((is_ok result ≡ true)
      ↔ (DeliveryStatus.dispatching ≡ DeliveryStatus.dispatching)
        × (first_attempt.delivery_id ≡ scheduled_delivery.delivery_id)
        × (some first_attempt.attempt_id ≡ some first_attempt.attempt_id)
        × (is_finished first_attempt ≡ true)
        × (first_attempt.result_status ≡ some BackendDeliveryStatus.delivered))
    × (after ≡ (
        if is_ok result
        then record d {
          status = DeliveryStatus.delivered;
          attempts = replace_attempt first_attempt.attempt_id first_attempt d.attempts;
        }
        else d))
mark_delivered_iff_example =
    mark_delivered_iff (with_status DeliveryStatus.dispatching) first_attempt true
      (with_status-Inv DeliveryStatus.dispatching)

mark_completed_example :
    is_ok
      (mark_completed
        (with_status DeliveryStatus.delivered)
        (feedback_of FeedbackStatus.ack none)
        true).1
    ≡ true
unfolding find_attempt text_eq is_finished
mark_completed_example =
    (mark_completed_iff (with_status DeliveryStatus.delivered) (feedback_of FeedbackStatus.ack none)
        true).1
      (refl, refl, refl, refl, (first_attempt, refl, refl, refl))

abbrev ack : FeedbackResult
ack = feedback_of FeedbackStatus.ack none

dispatch_and_complete_example :
    and_then
      (dispatch_delivered scheduled_delivery capability (codes "1") delivered (codes "2") true)
      (λ arrived _. acknowledge arrived ack true)
    ≡ (
      record scheduled_delivery {
        attempt_count = increment scheduled_delivery.attempt_count;
        last_attempt_ref = some ack.source.attempt_id;
        status = DeliveryStatus.completed;
        attempts =
            scheduled_delivery.attempts
            ++ second (first scheduled_delivery (codes "1")) delivered (codes "2") ∷ [];
        history =
            scheduled_delivery.history ++ course scheduled_delivery (codes "1") (codes "2") ack;
      },
      ok tt,
    )
unfolding is_blank text_lt attempt_id_of sanitize is_ascii_alphanumeric show next_attempt_no
dispatch_and_complete_example =
    dispatch_and_complete-scheduled scheduled_delivery capability (codes "1") delivered (codes "2")
      true ack
      (record { numbered = tt; counted = refl; latest = refl; dispatched = λ h. cc; logged = tt })
      refl (omega arith) refl refl refl refl refl refl

abbrev late : Entry
late =
    by_timeout_signal (codes "delivery_pub_s") source TimeoutReason.dispatch_timeout true
      (codes "3")

receive_outcome_example :
    (is_success (feedback_of FeedbackStatus.timeout (some (codes "dispatch_timeout"))) ≡ false)
    × (is_failure (feedback_of FeedbackStatus.timeout (some (codes "dispatch_timeout"))) ≡ true)
    × (is_duplicate (feedback_of FeedbackStatus.timeout (some (codes "dispatch_timeout"))) ≡ false)
    × (implied_delivery_status
          (feedback_of FeedbackStatus.timeout (some (codes "dispatch_timeout")))
        ≡ DeliveryStatus.failed)
unfolding receive timeout is_blank sanitize is_ascii_alphanumeric
receive_outcome_example = receive_outcome late refl
