-- ===== src/Domain/Recovery/Policy.antt =====
-- crates/domain/src/recovery.rs: the recovery eligibility policy.
use quantalithos_bus.Base.{not, ◌||◌, ◌++◌, ltb, if◌then◌else◌, Result, ok, err}
use quantalithos_bus.Base.Text.{codes, is_blank, text_eq}
use quantalithos_bus.Contracts.Core.{Core}
use quantalithos_bus.Contracts.Status.{
  DeliveryStatus, RetryPlanStatus, DeadLetterStatus, delivery_eq, retry_eq, dead_letter_eq,
}
use quantalithos_bus.Contracts.Metadata.{
  AuditChainRef, RecoveryPolicyConfigRef, RecoveryPolicyRef, is_zero, sanitize,
}
use quantalithos_bus.Domain.Errors.{DomainError}
use quantalithos_bus.Domain.Delivery.{DeliveryRecord}
use quantalithos_bus.Domain.Recovery.Retry.{RetryPlan, has_remaining_attempts}
use quantalithos_bus.Domain.Recovery.Failure.{FailureMaterial, is_governance_decision}
use quantalithos_bus.Domain.Recovery.DeadLetter.{DeadLetterEntry, has_trusted_chain}

-- Values of `RecoveryEligibilityPolicy`, which hold only the policy's reference.
unfoldable pub policy_from_config : RecoveryPolicyConfigRef → RecoveryPolicyRef
policy_from_config config_ref = codes "recovery_policy_" ++ sanitize config_ref

module _ ⦃core : Core⦄ where
  -- The methods of `RecoveryEligibilityPolicy`; none of them reads the policy.
  unfoldable pub can_retry : DeliveryRecord → RetryPlan → Result DomainError (Unit {0})
  unfolding is_zero has_remaining_attempts
  can_retry delivery plan =
      if not (delivery_eq delivery.status DeliveryStatus.failed)
        || not (text_eq plan.delivery_id delivery.delivery_id)
      then err DomainError.retry_not_allowed
      else if not (retry_eq plan.status RetryPlanStatus.scheduled)
      then err DomainError.retry_not_allowed
      else if is_zero plan.max_attempts
      then err (DomainError.invalid_retry_plan "max_attempts")
      else if ltb plan.max_attempts plan.remaining_attempts
      then err (DomainError.invalid_retry_plan "remaining_attempts")
      else if not (has_remaining_attempts plan)
      then err DomainError.retry_exhausted_cannot_dispatch
      else ok tt

  unfoldable pub can_dead_letter : DeliveryRecord → FailureMaterial → Result DomainError (Unit {0})
  unfolding is_governance_decision
  can_dead_letter delivery material =
      if not (delivery_eq delivery.status DeliveryStatus.failed)
        || not (text_eq material.delivery_id delivery.delivery_id)
      then err DomainError.dead_letter_not_allowed
      else if is_governance_decision material
      then err DomainError.dead_letter_not_allowed
      else if is_blank material.audit_ref
      then err (DomainError.invalid_failure_material "audit_ref")
      else ok tt

  unfoldable pub can_prepare_replay :
      DeadLetterEntry → AuditChainRef → Result DomainError (Unit {0})
  unfolding has_trusted_chain
  can_prepare_replay entry audit_chain_ref =
      if dead_letter_eq entry.status DeadLetterStatus.closed
      then err DomainError.dead_letter_closed
      else if not (has_trusted_chain entry)
      then err DomainError.replay_preparation_not_allowed
      else if is_blank audit_chain_ref || not (text_eq entry.audit_chain_ref audit_chain_ref)
      then err DomainError.replay_preparation_not_allowed
      else ok tt
