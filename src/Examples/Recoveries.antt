-- ===== src/Examples/Recoveries.antt =====
-- Examples on retry plans, dead letters and replays.
use quantalithos_bus.Base.{◌≤◌, ◌≡◌, refl, true, none, some, List, [], ◌∷◌, arith, ok}
use quantalithos_bus.Base.Text.{codes, is_blank, text_eq, is_ascii_alphanumeric}
use quantalithos_bus.Contracts.Status.{
  DeliveryStatus, RetryPlanStatus, DeadLetterStatus, ReplayPreparationStatus, FeedbackStatus,
  TimeoutReason, replay_eq,
}
use quantalithos_bus.Contracts.Metadata.{
  DeliveryAttemptId, sanitize, audit_chain_ref_from, BackendDeliveryResult,
}
use quantalithos_bus.Domain.Feedback.{timeout, is_failure}
use quantalithos_bus.Domain.Feedback.Outcome.{Entry, by_timeout_signal, receive}
use quantalithos_bus.Domain.Delivery.{DeliveryRecord}
use quantalithos_bus.Domain.Delivery.History.{DeliveryHistoryEntry, transition, can_transition}
use quantalithos_bus.Domain.Delivery.Steps.{is_ok}
use quantalithos_bus.Domain.Delivery.Attempt.{is_some}
use quantalithos_bus.Domain.Recovery.Retry.{RetryPlan, create}
use quantalithos_bus.Domain.Recovery.Failure.{FailureMaterial, from_feedback}
use quantalithos_bus.Domain.Recovery.DeadLetter.{
  DeadLetterEntry, from_failed_delivery, has_trusted_chain,
}
use quantalithos_bus.Domain.Recovery.Replay.{ReplayPreparation, prepare, mark_ready}
use quantalithos_bus.Domain.Recovery.Policy.{can_retry, can_prepare_replay}
use quantalithos_bus.Domain.Recovery.Budget.{
  plan_run, dispatches, create-grants_at_most, plan_run-dispatches, can_retry_iff,
}
use quantalithos_bus.Domain.Recovery.Chain.{from_failed_delivery_iff, replay_of_failed_delivery}
use quantalithos_bus.Domain.Recovery.FailurePath.{fail_delivery, failure_to_dead_letter}
use quantalithos_bus.Domain.Recovery.Replays.{
  ReplayCall, marks_ready, rejects, replay_run, SameDecision, replay_run-decided,
  prepare-approved_iff_ready,
}
use quantalithos_bus.Examples.Fixtures.{text_core, with_status, source, feedback_of, delivered}

abbrev pub failed_delivery : DeliveryRecord
failed_delivery = with_status DeliveryStatus.failed

abbrev pub plan : RetryPlan
plan = record {
  retry_plan_id = codes "retry_plan_delivery_pub_s_y_4";
  delivery_id = codes "delivery_pub_s";
  next_attempt_at = codes "4";
  max_attempts = 2;
  remaining_attempts = 2;
  status = RetryPlanStatus.scheduled;
  version = 0;
}

abbrev dispatched : List (DeliveryAttemptId × BackendDeliveryResult)
dispatched = (codes "a", delivered) ∷ (codes "b", delivered) ∷ (codes "c", delivered) ∷ []

create-grants_at_most_example : (plan_run plan (dispatches dispatched)).1 ≤ 2
unfolding create is_blank sanitize is_ascii_alphanumeric
create-grants_at_most_example =
    create-grants_at_most failed_delivery (codes "r") (codes "y") 2 (codes "4")
      (dispatches dispatched) refl

plan_run-dispatches_example :
    let (after, granted) = plan_run plan (dispatches dispatched) in
    (granted ≡ 2) × (after ≡ record plan { remaining_attempts = 0 })
unfolding is_blank
plan_run-dispatches_example = plan_run-dispatches plan dispatched refl (refl, (refl, (refl, tt)))

can_retry_example : can_retry failed_delivery plan ≡ ok tt
can_retry_example =
    (can_retry_iff failed_delivery plan).1 (refl, refl, refl, omega arith, omega arith)

abbrev entry_of_failure : DeliveryHistoryEntry
entry_of_failure = record {
  history_id = codes "h";
  delivery_id = codes "delivery_pub_s";
  from_status = DeliveryStatus.delivered;
  to_status = DeliveryStatus.failed;
  reason = codes "r";
  occurred_at = codes "4";
}

abbrev with_history : DeliveryRecord
with_history = record failed_delivery { history = entry_of_failure ∷ [] }

abbrev material : FailureMaterial
material = record {
  failure_material_id = codes "m";
  delivery_id = codes "delivery_pub_s";
  failure_reason = codes "r";
  dead_letter_ref = none;
  audit_ref = codes "u";
  version = 0;
}

abbrev dead_letter : DeadLetterEntry
dead_letter = record {
  dead_letter_id = codes "dead_letter_delivery_pub_s_m";
  delivery_id = codes "delivery_pub_s";
  failure_reason = codes "r";
  history_ref = codes "h";
  audit_chain_ref = codes "audit_chain_u";
  status = DeadLetterStatus.open_entry;
  version = 0;
}

from_failed_delivery_example : is_ok (from_failed_delivery with_history material) ≡ true
unfolding is_blank
from_failed_delivery_example =
    (from_failed_delivery_iff with_history material).1 (refl, refl, (entry_of_failure, refl, refl))

replay_of_failed_delivery_example :
    (can_prepare_replay dead_letter (audit_chain_ref_from (codes "u")) ≡ ok tt)
    × ((p : ReplayPreparation) × (prepare dead_letter true ≡ ok p)
        × (p.dead_letter_id ≡ dead_letter.dead_letter_id)
        × (p.audit_chain_ref ≡ audit_chain_ref_from (codes "u"))
        × (mark_ready p (codes "v") true ≡ (
          record p { status = ReplayPreparationStatus.ready; approval_ref = some (codes "v") },
          ok tt,
        )))
unfolding from_failed_delivery is_blank sanitize is_ascii_alphanumeric audit_chain_ref_from text_eq
replay_of_failed_delivery_example =
    replay_of_failed_delivery with_history material true (codes "v") {e = dead_letter} refl refl

abbrev late : Entry
late =
    by_timeout_signal (codes "delivery_pub_s") source TimeoutReason.dispatch_timeout true
      (codes "3")

failure_to_dead_letter_example :
    let f = feedback_of FeedbackStatus.timeout (some (codes "dispatch_timeout")) in
    let d = with_status DeliveryStatus.delivered in
    let h = transition d.delivery_id d.status DeliveryStatus.failed (codes "r") (codes "4") in
    let failed = fail_delivery d f (codes "r") (codes "4") true in
    (failed.1 ≡ ok tt)
    × (failed.0.status ≡ DeliveryStatus.failed)
    × ((m : FailureMaterial) × (from_feedback f h (codes "u") ≡ ok m)
        × (is_ok (from_failed_delivery failed.0 m) ≡ true))
unfolding receive timeout is_blank sanitize is_ascii_alphanumeric is_failure can_transition
failure_to_dead_letter_example =
    failure_to_dead_letter late (with_status DeliveryStatus.delivered) (codes "r") (codes "4") true
      (codes "u") refl refl refl refl refl

abbrev prepared : ReplayPreparation
prepared = record {
  replay_id = codes "replay_preparation_dead_letter_delivery_pub_s_m";
  dead_letter_id = codes "dead_letter_delivery_pub_s_m";
  status = ReplayPreparationStatus.draft;
  audit_chain_ref = codes "audit_chain_u";
  approval_ref = none;
  version = 0;
}

abbrev replay_calls : List ReplayCall
replay_calls = rejects (codes "no") true ∷ marks_ready (codes "v") true ∷ []

abbrev ready : ReplayPreparation
ready = record prepared { status = ReplayPreparationStatus.ready; approval_ref = some (codes "v") }

replay_run-decided_example : SameDecision ready (replay_run ready replay_calls)
replay_run-decided_example = replay_run-decided ready replay_calls (λ e. cc)

prepare-approved_iff_ready_example :
    is_some (replay_run prepared replay_calls).approval_ref
    ≡ replay_eq (replay_run prepared replay_calls).status ReplayPreparationStatus.ready
unfolding prepare is_blank sanitize is_ascii_alphanumeric has_trusted_chain
prepare-approved_iff_ready_example =
    prepare-approved_iff_ready dead_letter true {p = prepared} replay_calls refl
