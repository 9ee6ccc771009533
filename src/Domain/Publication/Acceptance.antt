-- ===== src/Domain/Publication/Acceptance.antt =====
-- crates/domain/src/publication.rs: the acceptance decision on a publication.
use quantalithos_bus.Base.{Bool, not, Option, none, some, ◌++◌, if◌then◌else◌, Result, ok, err}
use quantalithos_bus.Base.Text.{codes}
use quantalithos_bus.Contracts.Core.{Core}
use quantalithos_bus.Contracts.Status.{PublicationAcceptanceStatus, acceptance_eq}
use quantalithos_bus.Contracts.Metadata.{
  AuditRef, PublicationAcceptanceId, PublicationId, RejectionReasonRef, sanitize,
}
use quantalithos_bus.Domain.Errors.{DomainError}
use quantalithos_bus.Domain.Publication.Material.{PublicationMaterial, has_payload_reference}

pub data PublicationRejectReason : Type 0 where
  missing_core_event_ref payload_boundary_violation : PublicationRejectReason

unfoldable pub reason_ref : PublicationRejectReason → RejectionReasonRef
reason_ref missing_core_event_ref = codes "validation.core_event_ref_missing"
reason_ref payload_boundary_violation = codes "boundary.payload_body_rejected"

module _ ⦃core : Core⦄ where
  open core use {ActorContext, Timestamp}

  pub record PublicationAcceptance : Type 0 where
    pub acceptance_id : PublicationAcceptanceId
    pub publication_id : PublicationId
    pub status : PublicationAcceptanceStatus
    pub reject_reason : Option PublicationRejectReason
    pub accepted_at : Option Timestamp
    pub decision_audit_ref : Option AuditRef

  unfoldable pub start_pending :
      PublicationMaterial → ActorContext → Result DomainError PublicationAcceptance
  unfolding has_payload_reference
  start_pending material actor =
      if not (has_payload_reference material)
      then err (DomainError.invalid_publication_material "payload_ref")
      else ok (record {
        acceptance_id = codes "acceptance_" ++ sanitize material.publication_id;
        publication_id = material.publication_id;
        status = PublicationAcceptanceStatus.pending;
        reject_reason = none;
        accepted_at = none;
        decision_audit_ref = none;
      })

  -- The `match self.status` of `accept`; the first argument is that status.
  accept_from :
      PublicationAcceptanceStatus
      → PublicationAcceptance
      → Timestamp
      → AuditRef
      → PublicationAcceptance × Result DomainError (Unit {0})
  accept_from PublicationAcceptanceStatus.pending self occurred_at audit_ref = (
    record self {
      status = PublicationAcceptanceStatus.accepted;
      reject_reason = none;
      accepted_at = some occurred_at;
      decision_audit_ref = some audit_ref;
    },
    ok tt,
  )
  accept_from status self occurred_at audit_ref =
      (self, err (DomainError.invalid_state_transition status PublicationAcceptanceStatus.accepted))

  unfoldable pub accept :
      PublicationAcceptance
      → ActorContext
      → Timestamp
      → AuditRef
      → PublicationAcceptance × Result DomainError (Unit {0})
  unfolding accept_from
  accept self actor occurred_at audit_ref = accept_from self.status self occurred_at audit_ref

  reject_from :
      PublicationAcceptanceStatus
      → PublicationAcceptance
      → PublicationRejectReason
      → AuditRef
      → PublicationAcceptance × Result DomainError (Unit {0})
  reject_from PublicationAcceptanceStatus.pending self reason audit_ref = (
    record self {
      status = PublicationAcceptanceStatus.rejected;
      reject_reason = some reason;
      accepted_at = none;
      decision_audit_ref = some audit_ref;
    },
    ok tt,
  )
  reject_from status self reason audit_ref =
      (self, err (DomainError.invalid_state_transition status PublicationAcceptanceStatus.rejected))

  unfoldable pub reject :
      PublicationAcceptance
      → PublicationRejectReason
      → ActorContext
      → AuditRef
      → PublicationAcceptance × Result DomainError (Unit {0})
  unfolding reject_from
  reject self reason actor audit_ref = reject_from self.status self reason audit_ref

  unfoldable pub is_accepted : PublicationAcceptance → Bool
  is_accepted self = acceptance_eq self.status PublicationAcceptanceStatus.accepted
