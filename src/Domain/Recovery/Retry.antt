-- ===== src/Domain/Recovery/Retry.antt =====
-- crates/domain/src/recovery.rs: the retry plan of a failed delivery.
use quantalithos_bus.Base.{
  ◌-◌, Bool, not, ◌&&◌, ◌||◌, ◌++◌, ltb, ◌==◌, if◌then◌else◌, Result, ok, err,
}
use quantalithos_bus.Base.Text.{codes, is_blank}
use quantalithos_bus.Contracts.Core.{Core}
use quantalithos_bus.Contracts.Status.{DeliveryStatus, RetryPlanStatus, delivery_eq, retry_eq}
use quantalithos_bus.Contracts.Metadata.{
  DeliveryAttemptId, DeliveryId, FailureReason, RecoveryReason, RetryPlanId, RetryPolicyRef,
  AttemptCount, AttemptLimit, is_zero, sanitize, BackendDeliveryResult,
}
use quantalithos_bus.Domain.Errors.{DomainError}
use quantalithos_bus.Domain.Delivery.{DeliveryRecord}

module _ ⦃core : Core⦄ where
  open core use {ActorContext, Timestamp, time_as_str, Version, version_zero}

  pub record RetryPlan : Type 0 where
    pub retry_plan_id : RetryPlanId
    pub delivery_id : DeliveryId
    pub next_attempt_at : Timestamp
    pub max_attempts : AttemptLimit
    pub remaining_attempts : AttemptCount
    pub status : RetryPlanStatus
    pub version : Version

  unfoldable pub create :
      DeliveryRecord
      → FailureReason
      → RetryPolicyRef
      → AttemptLimit
      → Timestamp
      → Result DomainError RetryPlan
  unfolding is_zero
  create delivery reason policy_ref max_attempts now =
      if not (delivery_eq delivery.status DeliveryStatus.failed)
      then err DomainError.retry_not_allowed
      else if is_blank reason
      then err (DomainError.invalid_retry_plan "failure_reason")
      else if is_blank policy_ref
      then err (DomainError.invalid_retry_plan "retry_policy_ref")
      else if is_zero max_attempts
      then err (DomainError.invalid_retry_plan "max_attempts")
      else if is_blank (time_as_str now)
      then err (DomainError.invalid_retry_plan "next_attempt_at")
      else ok (record {
        retry_plan_id =
            codes "retry_plan_"
            ++ sanitize delivery.delivery_id
            ++ codes "_"
            ++ sanitize policy_ref
            ++ codes "_"
            ++ sanitize (time_as_str now);
        delivery_id = delivery.delivery_id;
        next_attempt_at = now;
        max_attempts = max_attempts;
        remaining_attempts = max_attempts;
        status = RetryPlanStatus.scheduled;
        version = version_zero;
      })

  unfoldable pub has_remaining_attempts : RetryPlan → Bool
  has_remaining_attempts self =
      retry_eq self.status RetryPlanStatus.scheduled && ltb 0 self.remaining_attempts

  unfoldable pub mark_attempted :
      RetryPlan
      → DeliveryAttemptId
      → BackendDeliveryResult
      → RetryPlan × Result DomainError (Unit {0})
  mark_attempted self attempt_id result =
      if not (retry_eq self.status RetryPlanStatus.scheduled)
      then (self, err DomainError.retry_not_allowed)
      else if is_blank attempt_id
      then (self, err (DomainError.invalid_retry_plan "attempt_id"))
      else if self.remaining_attempts == 0
      then (self, err DomainError.retry_exhausted_cannot_dispatch)
      else (record self { remaining_attempts = self.remaining_attempts - 1 }, ok tt)

  unfoldable pub mark_exhausted :
      RetryPlan → ActorContext → RetryPlan × Result DomainError (Unit {0})
  mark_exhausted self actor =
      if not (retry_eq self.status RetryPlanStatus.scheduled) || ltb 0 self.remaining_attempts
      then (
        self,
        err (DomainError.invalid_retry_plan_transition self.status RetryPlanStatus.exhausted),
      )
      else (record self { status = RetryPlanStatus.exhausted }, ok tt)

  unfoldable pub cancel :
      RetryPlan → ActorContext → RecoveryReason → RetryPlan × Result DomainError (Unit {0})
  cancel self actor reason =
      if is_blank reason
      then (self, err (DomainError.invalid_retry_plan "recovery_reason"))
      else if not (retry_eq self.status RetryPlanStatus.scheduled)
      then (
        self,
        err (DomainError.invalid_retry_plan_transition self.status RetryPlanStatus.cancelled),
      )
      else (record self { status = RetryPlanStatus.cancelled }, ok tt)

  unfoldable pub set_version : RetryPlan → Version → RetryPlan
  set_version self version = record self { version = version }
