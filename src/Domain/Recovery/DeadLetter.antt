-- ===== src/Domain/Recovery/DeadLetter.antt =====
-- crates/domain/src/recovery.rs: dead-letter entries.
use quantalithos_bus.Base.{
  Bool, not, ◌&&◌, ◌||◌, Option, none, some, ◌++◌, if◌then◌else◌, get_last?, Result, ok, err,
}
use quantalithos_bus.Base.Text.{codes, is_blank, text_eq}
use quantalithos_bus.Contracts.Core.{Core}
use quantalithos_bus.Contracts.Status.{
  DeliveryStatus, DeadLetterStatus, delivery_eq, dead_letter_eq,
}
use quantalithos_bus.Contracts.Metadata.{
  AuditChainRef, CloseReason, DeadLetterId, DeliveryHistoryRef, DeliveryId, FailureReason, sanitize,
  audit_chain_ref_from,
}
use quantalithos_bus.Domain.Errors.{DomainError}
use quantalithos_bus.Domain.Audit.{BusAuditEntry}
use quantalithos_bus.Domain.Delivery.{DeliveryRecord}
use quantalithos_bus.Domain.Delivery.History.{DeliveryHistoryEntry}
use quantalithos_bus.Domain.Recovery.Failure.{FailureMaterial}

module _ ⦃core : Core⦄ where
  open core use {ActorContext, Version, version_zero}

  pub record DeadLetterEntry : Type 0 where
    pub dead_letter_id : DeadLetterId
    pub delivery_id : DeliveryId
    pub failure_reason : FailureReason
    pub history_ref : DeliveryHistoryRef
    pub audit_chain_ref : AuditChainRef
    pub status : DeadLetterStatus
    pub version : Version

  unfoldable pub has_trusted_chain : DeadLetterEntry → Bool
  has_trusted_chain self = not (is_blank self.history_ref) && not (is_blank self.audit_chain_ref)

  unfoldable pub from_dead_letter :
      DeadLetterEntry → BusAuditEntry → Result DomainError FailureMaterial
  unfolding has_trusted_chain
  from_dead_letter entry audit =
      if not (has_trusted_chain entry)
      then err (DomainError.invalid_failure_material "audit_chain_ref")
      else if is_blank audit.audit_ref
      then err (DomainError.invalid_failure_material "audit_ref")
      else ok (record {
        failure_material_id =
            codes "failure_material_"
            ++ sanitize entry.delivery_id
            ++ codes "_"
            ++ sanitize entry.dead_letter_id;
        delivery_id = entry.delivery_id;
        failure_reason = entry.failure_reason;
        dead_letter_ref = some entry.dead_letter_id;
        audit_ref = audit.audit_ref;
        version = version_zero;
      })

  -- `from_failed_delivery` below its search for the last history entry.
  unfoldable pub dead_letter_with :
      DeliveryRecord
      → FailureMaterial
      → Option DeliveryHistoryEntry
      → Result DomainError DeadLetterEntry
  unfolding audit_chain_ref_from
  dead_letter_with delivery material none =
      err (DomainError.invalid_dead_letter_entry "history_ref")
  dead_letter_with delivery material (some history) =
      let history_ref : DeliveryHistoryRef = history.history_id in
      let audit_chain_ref = audit_chain_ref_from material.audit_ref in
      if is_blank history_ref
      then err (DomainError.invalid_dead_letter_entry "history_ref")
      else if is_blank audit_chain_ref
      then err (DomainError.invalid_dead_letter_entry "audit_chain_ref")
      else ok (record {
        dead_letter_id =
            codes "dead_letter_"
            ++ sanitize delivery.delivery_id
            ++ codes "_"
            ++ sanitize material.failure_material_id;
        delivery_id = delivery.delivery_id;
        failure_reason = material.failure_reason;
        history_ref = history_ref;
        audit_chain_ref = audit_chain_ref;
        status = DeadLetterStatus.open_entry;
        version = version_zero;
      })

  unfoldable pub from_failed_delivery :
      DeliveryRecord → FailureMaterial → Result DomainError DeadLetterEntry
  unfolding dead_letter_with
  from_failed_delivery delivery material =
      if not (delivery_eq delivery.status DeliveryStatus.failed)
      then err DomainError.dead_letter_not_allowed
      else if not (text_eq material.delivery_id delivery.delivery_id)
      then err DomainError.dead_letter_not_allowed
      else dead_letter_with delivery material (get_last? delivery.history)

  unfoldable pub start_review :
      DeadLetterEntry → ActorContext → DeadLetterEntry × Result DomainError (Unit {0})
  start_review self actor =
      if not (dead_letter_eq self.status DeadLetterStatus.open_entry)
      then (
        self,
        err (DomainError.invalid_dead_letter_transition self.status DeadLetterStatus.reviewing),
      )
      else (record self { status = DeadLetterStatus.reviewing }, ok tt)

  unfoldable pub close :
      DeadLetterEntry → ActorContext → CloseReason → DeadLetterEntry × Result DomainError (Unit {0})
  close self actor reason =
      if is_blank reason
      then (self, err (DomainError.invalid_dead_letter_entry "close_reason"))
      else if not (
          dead_letter_eq self.status DeadLetterStatus.open_entry
          || dead_letter_eq self.status DeadLetterStatus.reviewing)
      then (
        self,
        err (DomainError.invalid_dead_letter_transition self.status DeadLetterStatus.closed),
      )
      else (record self { status = DeadLetterStatus.closed }, ok tt)

  unfoldable pub set_version : DeadLetterEntry → Version → DeadLetterEntry
  set_version self version = record self { version = version }
