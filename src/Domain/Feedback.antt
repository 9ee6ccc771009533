-- ===== src/Domain/Feedback.antt =====
-- crates/domain/src/feedback.rs: where a feedback comes from, and what it says of a delivery.
pub mod Outcome
use quantalithos_bus.Base.{
  ◌>>=◌, ◌+◌, Bool, true, false, Option, none, some, ◌++◌, if◌then◌else◌, Result, ok, err,
}
use quantalithos_bus.Base.Text.{Text, codes, is_blank}
use quantalithos_bus.Contracts.Core.{Core}
use quantalithos_bus.Contracts.Status.{
  DeliveryStatus, FeedbackKind, FeedbackStatus, BackendStatus, TimeoutReason, feedback_eq,
}
use quantalithos_bus.Contracts.Metadata.{
  AuditRef, BackendResultRef, DeliveryAttemptId, DeliveryId, ExternalFeedbackRef, FailureReason,
  FeedbackId, FeedbackReason, sanitize, delivery_timeout,
}
use quantalithos_bus.Domain.Errors.{DomainError}
use quantalithos_bus.Contracts.Inputs.{RecordDeliveryFeedbackCommand}

-- `backend_status.as_str()` and `timeout_reason.as_str()`.
unfoldable pub backend_status_name : BackendStatus → Text
backend_status_name BackendStatus.delivered = codes "delivered"
backend_status_name BackendStatus.failed = codes "failed"

unfoldable pub timeout_reason_name : TimeoutReason → Text
timeout_reason_name TimeoutReason.dispatch_timeout = codes "dispatch_timeout"

pub record FeedbackSource : Type 0 where
  pub attempt_id : DeliveryAttemptId
  pub external_feedback_ref : ExternalFeedbackRef

unfoldable pub source_new :
    DeliveryAttemptId → ExternalFeedbackRef → Result DomainError FeedbackSource
source_new attempt_id external_feedback_ref =
    if is_blank attempt_id
    then err (DomainError.invalid_feedback_result "attempt_id")
    else if is_blank external_feedback_ref
    then err (DomainError.invalid_feedback_result "external_feedback_ref")
    else ok (record { attempt_id = attempt_id; external_feedback_ref = external_feedback_ref })

unfoldable pub source_from_backend_signal :
    DeliveryAttemptId → BackendStatus → BackendResultRef → Result DomainError FeedbackSource
unfolding source_new backend_status_name
source_from_backend_signal attempt_id backend_status backend_result_ref = source_new attempt_id (
    codes "backend_signal:"
    ++ attempt_id
    ++ codes ":"
    ++ backend_status_name backend_status
    ++ codes ":"
    ++ backend_result_ref)

unfoldable pub source_from_timeout_signal :
    DeliveryAttemptId → TimeoutReason → Result DomainError FeedbackSource
unfolding source_new timeout_reason_name
source_from_timeout_signal attempt_id timeout_reason =
    source_new attempt_id
      (codes "timeout_signal:" ++ attempt_id ++ codes ":" ++ timeout_reason_name timeout_reason)

-- `reason.as_ref().is_some_and(|candidate| candidate.as_str().trim().is_empty())`
abbrev pub is_some_blank : Option Text → Bool
is_some_blank none = false
is_some_blank (some reason) = is_blank reason

abbrev reason_or : Option FeedbackReason → FailureReason → FailureReason
reason_or none r = r
reason_or (some reason) r = reason

-- The `match`es of the status predicates.
abbrev is_failure_status : FeedbackStatus → Bool
is_failure_status FeedbackStatus.fail = true
is_failure_status FeedbackStatus.timeout = true
is_failure_status _ = false

abbrev implied : FeedbackStatus → DeliveryStatus
implied FeedbackStatus.ack = DeliveryStatus.completed
implied FeedbackStatus.fail = DeliveryStatus.failed
implied FeedbackStatus.timeout = DeliveryStatus.failed
implied FeedbackStatus.duplicate = DeliveryStatus.delivered

abbrev failure_reason_of : FeedbackStatus → Option FeedbackReason → FailureReason
failure_reason_of FeedbackStatus.fail reason = reason_or reason (codes "feedback_failed")
failure_reason_of FeedbackStatus.timeout reason = delivery_timeout
failure_reason_of _ reason = codes "feedback_not_failure"

module _ ⦃core : Core⦄ where
  open core use {ActorContext, Timestamp, time_as_str, Version, version_zero}

  pub record FeedbackResult : Type 0 where
    pub feedback_id : FeedbackId
    pub delivery_id : DeliveryId
    pub status : FeedbackStatus
    pub reason : Option FeedbackReason
    pub observed_at : Timestamp
    pub actor : ActorContext
    pub source : FeedbackSource
    pub version : Version
    pub audit_ref : Option AuditRef

  unfoldable pub build :
      DeliveryId
      → FeedbackStatus
      → Option FeedbackReason
      → ActorContext
      → Timestamp
      → FeedbackSource
      → Result DomainError FeedbackResult
  build delivery_id status reason actor observed_at source =
      if is_blank delivery_id
      then err (DomainError.invalid_feedback_result "delivery_id")
      else if is_blank (time_as_str observed_at)
      then err (DomainError.invalid_feedback_result "observed_at")
      else if is_some_blank reason
      then err (DomainError.invalid_feedback_result "feedback_reason")
      else ok (record {
        feedback_id =
            codes "feedback_"
            ++ sanitize delivery_id
            ++ codes "_"
            ++ sanitize source.external_feedback_ref;
        delivery_id = delivery_id;
        status = status;
        reason = reason;
        observed_at = observed_at;
        actor = actor;
        source = source;
        version = version_zero;
        audit_ref = none;
      })

  unfoldable pub ack :
      DeliveryId
      → FeedbackSource
      → Option FeedbackReason
      → ActorContext
      → Timestamp
      → Result DomainError FeedbackResult
  unfolding build
  ack delivery_id source reason actor observed_at =
      build delivery_id FeedbackStatus.ack reason actor observed_at source

  unfoldable pub fail :
      DeliveryId
      → FeedbackSource
      → FeedbackReason
      → ActorContext
      → Timestamp
      → Result DomainError FeedbackResult
  unfolding build
  fail delivery_id source reason actor observed_at =
      build delivery_id FeedbackStatus.fail (some reason) actor observed_at source

  unfoldable pub timeout :
      DeliveryId
      → FeedbackSource
      → TimeoutReason
      → ActorContext
      → Timestamp
      → Result DomainError FeedbackResult
  unfolding build timeout_reason_name
  timeout delivery_id source reason actor observed_at =
      build delivery_id FeedbackStatus.timeout (some (timeout_reason_name reason)) actor observed_at
        source

  -- The `match` of `from_command` on the kind.
  command_feedback :
      FeedbackKind
      → RecordDeliveryFeedbackCommand
      → ActorContext
      → FeedbackSource
      → Result DomainError FeedbackResult
  unfolding ack fail
  command_feedback FeedbackKind.ack c actor source =
      ack c.delivery_id source (some c.feedback_reason) actor c.observed_at
  command_feedback FeedbackKind.fail c actor source =
      fail c.delivery_id source c.feedback_reason actor c.observed_at

  unfoldable pub from_command :
      RecordDeliveryFeedbackCommand → ActorContext → Result DomainError FeedbackResult
  unfolding command_feedback source_new
  from_command command actor = do
    source ← source_new command.attempt_id command.external_feedback_ref
    command_feedback command.feedback_kind command actor source

  unfoldable pub from_backend_signal :
      DeliveryId
      → FeedbackSource
      → BackendStatus
      → ActorContext
      → Timestamp
      → Result DomainError FeedbackResult
  unfolding ack fail
  from_backend_signal delivery_id source BackendStatus.delivered actor observed_at =
      ack delivery_id source none actor observed_at
  from_backend_signal delivery_id source BackendStatus.failed actor observed_at =
      fail delivery_id source (codes "backend_failed") actor observed_at

  unfoldable pub set_version : FeedbackResult → Version → FeedbackResult
  set_version feedback version = record feedback { version = version }

  unfoldable pub attach_audit_ref : FeedbackResult → AuditRef → FeedbackResult
  attach_audit_ref feedback audit_ref = record feedback { audit_ref = some audit_ref }

  unfoldable pub is_success : FeedbackResult → Bool
  is_success feedback = feedback_eq feedback.status FeedbackStatus.ack

  unfoldable pub is_failure : FeedbackResult → Bool
  is_failure feedback = is_failure_status feedback.status

  unfoldable pub is_duplicate : FeedbackResult → Bool
  is_duplicate feedback = feedback_eq feedback.status FeedbackStatus.duplicate

  unfoldable pub implied_delivery_status : FeedbackResult → DeliveryStatus
  implied_delivery_status feedback = implied feedback.status

  unfoldable pub failure_reason : FeedbackResult → FailureReason
  unfolding delivery_timeout
  failure_reason feedback = failure_reason_of feedback.status feedback.reason
