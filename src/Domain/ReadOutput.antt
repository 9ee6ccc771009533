-- ===== src/Domain/ReadOutput.antt =====
-- crates/domain/src/read_output.rs: the read-only projections and the guard of sensitive reads.
pub mod Access
use quantalithos_bus.Base.{
  Bool, true, false, not, Option, none, some, if◌then◌else◌, Result, ok, err, ok_or, ◌>>=◌,
}
use quantalithos_bus.Base.Text.{is_blank}
use quantalithos_bus.Contracts.Core.{Core}
use quantalithos_bus.Contracts.Metadata.{
  AuditRef, AuthorizationRef, DeadLetterRef, DeliveryId, FailureMaterialId, FailureSummaryId,
  ProjectionVersion, TransportViewId, transport_view_id_from, failure_summary_id_from,
}
use quantalithos_bus.Contracts.Projections.{initial_version}
use quantalithos_bus.Domain.Errors.{ProjectionStatus, DomainError}
use quantalithos_bus.Domain.Audit.{
  BusAuditEntry, PrivilegedAccessScope, PrivilegedAccessRejectionReason, missing_authorization_ref,
  missing_role_hint,
}
use quantalithos_bus.Domain.Delivery.{DeliveryRecord}
use quantalithos_bus.Domain.Recovery.Failure.{FailureMaterial}

pub record TransportViewProjection : Type 0 where
  pub view_id : TransportViewId
  pub delivery_id : DeliveryId
  pub status : ProjectionStatus
  pub version : ProjectionVersion
  pub source_audit_ref : AuditRef

pub record FailureSummaryProjection : Type 0 where
  pub summary_id : FailureSummaryId
  pub failure_material_id : FailureMaterialId
  pub status : ProjectionStatus
  pub source_dead_letter_ref : Option DeadLetterRef
  pub source_audit_ref : AuditRef

unfoldable pub is_stale : ProjectionStatus → Bool
is_stale ProjectionStatus.stale = true
is_stale _ = false

unfoldable pub is_active : TransportViewProjection → Bool
is_active self = elim self.status [ ProjectionStatus.active ↦ true | _ ↦ false ]

unfoldable pub mark_view_stale :
    TransportViewProjection → AuditRef → TransportViewProjection × Result DomainError (Unit {0})
unfolding is_stale
mark_view_stale self source_audit_ref =
    if is_blank source_audit_ref
    then (self, err (DomainError.invalid_transport_view_projection "source_audit_ref"))
    else if is_stale self.status
    then (
      self,
      err (
          DomainError.invalid_projection_status_transition ProjectionStatus.stale
            ProjectionStatus.stale),
    )
    else (
      record self { status = ProjectionStatus.stale; source_audit_ref = source_audit_ref },
      ok tt,
    )

unfoldable pub mark_summary_stale :
    FailureSummaryProjection → AuditRef → FailureSummaryProjection × Result DomainError (Unit {0})
unfolding is_stale
mark_summary_stale self source_audit_ref =
    if is_blank source_audit_ref
    then (self, err (DomainError.invalid_failure_summary_projection "source_audit_ref"))
    else if is_stale self.status
    then (
      self,
      err (
          DomainError.invalid_projection_status_transition ProjectionStatus.stale
            ProjectionStatus.stale),
    )
    else (
      record self { status = ProjectionStatus.stale; source_audit_ref = source_audit_ref },
      ok tt,
    )

pub data ProjectionWriteIntent : Type 0 where
  projection_only truth_write : ProjectionWriteIntent

unfoldable pub allows_projection_write : ProjectionWriteIntent → Bool
allows_projection_write projection_only = true
allows_projection_write truth_write = false

unfoldable pub rejects_truth_write : ProjectionWriteIntent → Bool
rejects_truth_write projection_only = false
rejects_truth_write truth_write = true

pub record PrivilegedReadAuthorization : Type 0 where
  pub scope : PrivilegedAccessScope
  pub authorization_ref : AuthorizationRef

-- `filter(|value| !value.as_str().trim().is_empty())`.
unfoldable pub not_blank : Option AuthorizationRef → Option AuthorizationRef
not_blank none = none
not_blank (some value) = if is_blank value then none else some value

module _ ⦃core : Core⦄ where
  open core use {ActorContext, has_role_refs}

  unfoldable pub derive_view :
      DeliveryRecord → BusAuditEntry → Result DomainError TransportViewProjection
  derive_view delivery audit =
      if is_blank audit.audit_ref
      then err (DomainError.invalid_transport_view_projection "source_audit_ref")
      else ok (record {
        view_id = transport_view_id_from delivery.delivery_id;
        delivery_id = delivery.delivery_id;
        status = ProjectionStatus.active;
        version = initial_version;
        source_audit_ref = audit.audit_ref;
      })

  unfoldable pub derive_summary :
      FailureMaterial → BusAuditEntry → Result DomainError FailureSummaryProjection
  derive_summary material audit =
      if is_blank audit.audit_ref
      then err (DomainError.invalid_failure_summary_projection "source_audit_ref")
      else ok (record {
        summary_id = failure_summary_id_from material.failure_material_id;
        failure_material_id = material.failure_material_id;
        status = ProjectionStatus.active;
        source_dead_letter_ref = material.dead_letter_ref;
        source_audit_ref = audit.audit_ref;
      })

  unfoldable pub authorize_sensitive_read :
      PrivilegedAccessScope
      → ActorContext
      → Option AuthorizationRef
      → Result PrivilegedAccessRejectionReason PrivilegedReadAuthorization
  unfolding not_blank
  authorize_sensitive_read scope actor authorization_ref = do
    authorization ← ok_or (not_blank authorization_ref) missing_authorization_ref
    if not (has_role_refs actor)
        then err missing_role_hint
        else ok (record { scope = scope; authorization_ref = authorization })
