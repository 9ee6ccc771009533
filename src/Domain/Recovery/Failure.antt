-- ===== src/Domain/Recovery/Failure.antt =====
-- crates/domain/src/recovery.rs: the material of a failed delivery.
use quantalithos_bus.Base.{
  Bool, true, false, not, Option, none, some, ◌++◌, if◌then◌else◌, Result, ok, err,
}
use quantalithos_bus.Base.Text.{codes, is_blank, text_eq}
use quantalithos_bus.Contracts.Core.{Core}
use quantalithos_bus.Contracts.Status.{DeliveryStatus, delivery_eq}
use quantalithos_bus.Contracts.Metadata.{
  AuditRef, DeadLetterRef, DeliveryId, FailureMaterialId, FailureReason, sanitize,
}
use quantalithos_bus.Domain.Errors.{DomainError}
use quantalithos_bus.Domain.Feedback.{FeedbackResult, is_failure, failure_reason}
use quantalithos_bus.Domain.Delivery.History.{DeliveryHistoryEntry}

module _ ⦃core : Core⦄ where
  open core use {Version, version_zero}

  pub record FailureMaterial : Type 0 where
    pub failure_material_id : FailureMaterialId
    pub delivery_id : DeliveryId
    pub failure_reason : FailureReason
    pub dead_letter_ref : Option DeadLetterRef
    pub audit_ref : AuditRef
    pub version : Version

  unfoldable pub from_feedback :
      FeedbackResult → DeliveryHistoryEntry → AuditRef → Result DomainError FailureMaterial
  unfolding is_failure failure_reason
  from_feedback feedback history audit_ref =
      if not (is_failure feedback)
      then err (DomainError.invalid_failure_material "feedback.status")
      else if not (text_eq history.delivery_id feedback.delivery_id)
      then err (DomainError.invalid_failure_material "history.delivery_id")
      else if not (delivery_eq history.to_status DeliveryStatus.failed)
      then err (DomainError.invalid_failure_material "history.to_status")
      else if is_blank audit_ref
      then err (DomainError.invalid_failure_material "audit_ref")
      else ok (record {
        failure_material_id =
            codes "failure_material_"
            ++ sanitize feedback.delivery_id
            ++ codes "_"
            ++ sanitize audit_ref;
        delivery_id = feedback.delivery_id;
        failure_reason = failure_reason feedback;
        dead_letter_ref = none;
        audit_ref = audit_ref;
        version = version_zero;
      })

  unfoldable pub is_governance_decision : FailureMaterial → Bool
  is_governance_decision self = false

  unfoldable pub has_dead_letter : FailureMaterial → Bool
  has_dead_letter self = elim self.dead_letter_ref [ none ↦ false | some ref ↦ true ]

  unfoldable pub set_version : FailureMaterial → Version → FailureMaterial
  set_version self version = record self { version = version }
