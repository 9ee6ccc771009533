-- ===== src/Domain/Feedback/Outcome.antt =====
-- What a feedback says of its delivery, whichever way it came in.
use quantalithos_bus.Base.{◌≡◌, refl, Bool, true, false, not, arith, if◌then◌else◌, Result, ok}
use quantalithos_bus.Base.Text.{is_blank}
use quantalithos_bus.Contracts.Core.{Core}
use quantalithos_bus.Contracts.Status.{DeliveryStatus, FeedbackKind, BackendStatus, TimeoutReason}
use quantalithos_bus.Contracts.Metadata.{DeliveryId, delivery_timeout}
use quantalithos_bus.Domain.Errors.{DomainError}
use quantalithos_bus.Contracts.Inputs.{RecordDeliveryFeedbackCommand}
use quantalithos_bus.Domain.Delivery.{DeliveryRecord, mark_failed}
use quantalithos_bus.Domain.Delivery.History.{can_transition}
use quantalithos_bus.Domain.Feedback.{
  FeedbackSource, FeedbackResult, timeout, from_command, from_backend_signal, is_success,
  is_failure, is_duplicate, implied_delivery_status, failure_reason,
}

abbrev is_ack : FeedbackKind → Bool
is_ack FeedbackKind.ack = true
is_ack FeedbackKind.fail = false

abbrev is_delivered : BackendStatus → Bool
is_delivered BackendStatus.delivered = true
is_delivered BackendStatus.failed = false

module _ ⦃core : Core⦄ where
  open core use {ActorContext, Timestamp}

  -- The ways a feedback enters the bus.
  pub data Entry : Type 0 where
    by_command : RecordDeliveryFeedbackCommand → ActorContext → Entry
    by_backend_signal :
        DeliveryId → FeedbackSource → BackendStatus → ActorContext → Timestamp → Entry
    by_timeout_signal :
        DeliveryId → FeedbackSource → TimeoutReason → ActorContext → Timestamp → Entry

  unfoldable pub receive : Entry → Result DomainError FeedbackResult
  receive (by_command command actor) = from_command command actor
  receive (by_backend_signal id source status actor at) =
      from_backend_signal id source status actor at
  receive (by_timeout_signal id source reason actor at) = timeout id source reason actor at

  -- The outcome that the sender reports.
  abbrev pub reports_success : Entry → Bool
  reports_success (by_command command actor) = is_ack command.feedback_kind
  reports_success (by_backend_signal id source status actor at) = is_delivered status
  reports_success (by_timeout_signal id source reason actor at) = false

  -- A feedback that enters the bus is a success or a failure as its sender reports, never a
  -- duplicate, and it implies `completed` or `failed` accordingly.
  pub receive_outcome :
      (e : Entry) {f : FeedbackResult}
      → receive e ≡ ok f
      → (is_success f ≡ reports_success e)
        × (is_failure f ≡ not (reports_success e))
        × (is_duplicate f ≡ false)
        × (implied_delivery_status f
            ≡ (if reports_success e then DeliveryStatus.completed else DeliveryStatus.failed))
  unfolding receive from_command from_backend_signal timeout is_success is_failure is_duplicate
      implied_delivery_status
  receive_outcome (by_command command actor) h = ground arith
  receive_outcome (by_backend_signal id source status actor at) h = ground arith
  receive_outcome (by_timeout_signal id source reason actor at) h = ground arith

  timeout_reason-visible : is_blank delivery_timeout ≡ false
  unfolding delivery_timeout is_blank
  timeout_reason-visible = refl

  receive-reason :
      (e : Entry) {f : FeedbackResult}
      → receive e ≡ ok f
      → is_failure f ≡ true
      → is_blank (failure_reason f) ≡ false
  unfolding receive from_command from_backend_signal timeout is_failure failure_reason
  receive-reason (by_command command actor) h p = ground arith
  receive-reason (by_backend_signal id source status actor at) h p = ground arith
  receive-reason (by_timeout_signal id source reason actor at) h p =
      ground (arith, timeout_reason-visible)

  -- A failure that enters the bus gives a reason with which every delivery that may fail is marked
  -- as failed, and nothing of the delivery but its status changes.
  pub receive-mark_failed :
      (e : Entry) {f : FeedbackResult} (d : DeliveryRecord) (actor : ActorContext)
      → receive e ≡ ok f
      → is_failure f ≡ true
      → can_transition d.status DeliveryStatus.failed ≡ true
      → mark_failed d (failure_reason f) actor
        ≡ (record d { status = DeliveryStatus.failed }, ok tt)
  unfolding mark_failed
  receive-mark_failed e {f} d actor h p t =
      let reason = receive-reason e h p in ground (arith, reason)
