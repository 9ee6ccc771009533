-- ===== src/Application/Services/Publication.antt =====
-- crates/application/src/services/publication.rs: the acceptance of publications, by command and from the outbox.
pub mod Accept
use quantalithos_bus.Base.{true, false, Option, none, some, Result, ok, err, if◌then◌else◌}
use quantalithos_bus.Base.Actions.{pure, raise, lift, some_or, ◌>>=◌, ◌>>◌, map_err}
use quantalithos_bus.Base.Text.{codes, text_eq}
use quantalithos_bus.Contracts.Core.{Core}
use quantalithos_bus.Contracts.Status.{PublicationAcceptanceStatus}
use quantalithos_bus.Contracts.Receipts.{
  PublicationAcceptanceResult, publication_acceptance_accepted, publication_acceptance_rejected,
}
use quantalithos_bus.Contracts.Metadata.{AuditRef}
use quantalithos_bus.Domain.Audit.{BusAuditEntry, SubjectRef, AuditAction}
use quantalithos_bus.Domain.Delivery.{is_some_of}
use quantalithos_bus.Domain.Errors.{DomainError}
use quantalithos_bus.Domain.Idempotency.Scope.{IdempotencyScope}
use quantalithos_bus.Domain.Idempotency.Digest.{
  IdempotencyAnchor, IdempotencyConflict, RecordRef, RequestDigest, bind,
}
use quantalithos_bus.Domain.Publication.Acceptance.{
  PublicationAcceptance, PublicationRejectReason, reason_ref, accept, reject,
}
use quantalithos_bus.Domain.Publication.Material.{PublicationMaterial}
use quantalithos_bus.Application.Ports.{UnitOfWorkPurpose, RepositoryError, BusRecordKind}
use quantalithos_bus.Application.Errors.{ApplicationError, boundary_violation_error, conflict_error}
use quantalithos_bus.Application.Errors.From.{from_domain, from_repository}
use quantalithos_bus.Infra.System.Repositories.{
  publication_get, publication_store_material, publication_insert, idempotency_bind,
  idempotency_mark_conflict, audit_append,
}
use quantalithos_bus.Application.Services.{
  App, begin_unit, commit_unit, clock_now, from_store, or_rollback, new_record_id,
}

-- `ApplicationError::from(RepositoryError::CorruptedRecord)`
unfoldable pub corrupted : ApplicationError
unfolding from_repository
corrupted = from_repository RepositoryError.corrupted_record

unfoldable pub boundary_error_from_result : PublicationAcceptanceResult → ApplicationError
boundary_error_from_result result =
    boundary_violation_error "boundary.payload_body_rejected"
      (codes "payload body is not accepted by bus protocol") (some result.audit_ref)

unfoldable pub validation_error_from_rejected_result :
    PublicationAcceptanceResult → ApplicationError
validation_error_from_rejected_result result = ApplicationError.validation (record {
  code = "validation.core_event_ref_missing";
  message = codes "core_event_ref is required";
  details_ref = some result.audit_ref;
})

unfoldable pub error_from_rejected_result : PublicationAcceptanceResult → ApplicationError
unfolding boundary_error_from_result validation_error_from_rejected_result is_some_of reason_ref
error_from_rejected_result result =
    if is_some_of result.rejection_reason_ref
      (reason_ref PublicationRejectReason.payload_boundary_violation)
    then boundary_error_from_result result
    else validation_error_from_rejected_result result

-- The audited action of a decision.
unfoldable pub decision_action : Option PublicationRejectReason → AuditAction
decision_action (some reason) = AuditAction.publication_rejected reason
decision_action none = AuditAction.publication_accepted

module _ ⦃core : Core⦄ where
  open core use {ActorContext, Timestamp, TraceId, IdempotencyKey}

  unfoldable pub accepted_result : PublicationAcceptance → App PublicationAcceptanceResult
  unfolding some_or ◌>>=◌ pure corrupted
  accepted_result acceptance = do
    audit_ref ← some_or corrupted acceptance.decision_audit_ref
    pure (publication_acceptance_accepted acceptance.publication_id audit_ref)

  unfoldable pub rejected_result :
      PublicationAcceptance → PublicationRejectReason → App PublicationAcceptanceResult
  unfolding some_or ◌>>=◌ pure corrupted reason_ref
  rejected_result acceptance reason = do
    audit_ref ← some_or corrupted acceptance.decision_audit_ref
    pure (publication_acceptance_rejected acceptance.publication_id (reason_ref reason) audit_ref)

  -- `match acceptance.status`; the first argument is that status.
  unfoldable pub result_of_status :
      PublicationAcceptanceStatus → PublicationAcceptance → App PublicationAcceptanceResult
  unfolding accepted_result rejected_result some_or ◌>>=◌ corrupted raise
  result_of_status PublicationAcceptanceStatus.accepted acceptance = accepted_result acceptance
  result_of_status PublicationAcceptanceStatus.rejected acceptance = do
    reason ← some_or corrupted acceptance.reject_reason
    rejected_result acceptance reason
  result_of_status PublicationAcceptanceStatus.pending acceptance = raise corrupted

  unfoldable pub load_bound_result : RecordRef → App PublicationAcceptanceResult
  unfolding from_store publication_get some_or ◌>>=◌ result_of_status corrupted raise
  load_bound_result (RecordRef.publication publication_id) = do
    found ← from_store (publication_get publication_id)
    acceptance ← some_or corrupted found
    result_of_status acceptance.status acceptance
  load_bound_result (RecordRef.feedback feedback_id) = raise corrupted

  unfoldable pub load_existing_result : IdempotencyAnchor → App PublicationAcceptanceResult
  unfolding load_bound_result
  load_existing_result anchor = load_bound_result anchor.bound_record_ref

  unfoldable pub begin_idempotency_conflict :
      {A : Type 0}
      → UnitOfWorkPurpose
      → IdempotencyScope
      → IdempotencyKey
      → IdempotencyAnchor
      → RequestDigest
      → ActorContext
      → TraceId
      → App A
  unfolding begin_unit clock_now new_record_id or_rollback idempotency_mark_conflict audit_append
      commit_unit raise ◌>>=◌ from_repository
  begin_idempotency_conflict purpose scope key existing_anchor incoming_digest actor trace_ref = do
    handle ← begin_unit purpose actor
    now ← clock_now
    audit_ref ← new_record_id BusRecordKind.audit_entry
    let conflict : IdempotencyConflict = record {
      scope = scope;
      key = key;
      existing_digest = existing_anchor.request_digest;
      incoming_digest = incoming_digest;
      occurred_at = now;
      trace_ref = trace_ref;
    }
    let audit_entry : BusAuditEntry = record {
      audit_ref = audit_ref;
      subject_ref = SubjectRef.idempotency_key scope key;
      action = AuditAction.idempotency_conflict;
      actor = actor;
      occurred_at = now;
      trace_ref = trace_ref;
    }
    _ ← or_rollback handle from_repository (idempotency_mark_conflict scope key conflict handle)
    _ ← or_rollback handle from_repository (audit_append audit_entry handle)
    _ ← commit_unit handle
    raise (
        conflict_error "conflict.idempotency_request_mismatch"
          (codes "idempotency key was reused for a different request") (some audit_ref))

  -- `acceptance.reject(…)` or `acceptance.accept(…)`, as the reason says.
  unfoldable pub decide :
      Option PublicationRejectReason
      → PublicationAcceptance
      → ActorContext
      → Timestamp
      → AuditRef
      → PublicationAcceptance × Result DomainError (Unit {0})
  unfolding accept reject
  decide (some reason) acceptance actor now audit_ref = reject acceptance reason actor audit_ref
  decide none acceptance actor now audit_ref = accept acceptance actor now audit_ref

  -- The `match reason` at the end of `commit_publication_decision`.
  unfoldable pub decision_result :
      Option PublicationRejectReason → PublicationAcceptance → App PublicationAcceptanceResult
  unfolding accepted_result rejected_result
  decision_result (some reason) acceptance = rejected_result acceptance reason
  decision_result none acceptance = accepted_result acceptance

  unfoldable pub commit_publication_decision :
      UnitOfWorkPurpose
      → PublicationMaterial
      → PublicationAcceptance
      → ActorContext
      → TraceId
      → RequestDigest
      → IdempotencyScope
      → IdempotencyKey
      → Option PublicationRejectReason
      → App PublicationAcceptanceResult
  unfolding begin_unit clock_now new_record_id decide lift from_domain decision_action bind
      or_rollback publication_store_material publication_insert audit_append idempotency_bind
      commit_unit decision_result ◌>>=◌ from_repository
  commit_publication_decision purpose material acceptance actor trace_ref request_digest scope
        idempotency_key reason =
      do
        handle ← begin_unit purpose actor
        now ← clock_now
        audit_ref ← new_record_id BusRecordKind.audit_entry
        let (decided, outcome) = decide reason acceptance actor now audit_ref
        _ ← lift (map_err from_domain outcome)
        let audit_entry : BusAuditEntry = record {
          audit_ref = audit_ref;
          subject_ref = SubjectRef.publication decided.publication_id;
          action = decision_action reason;
          actor = actor;
          occurred_at = now;
          trace_ref = trace_ref;
        }
        anchor_id ← new_record_id BusRecordKind.idempotency_anchor
        let anchor =
            bind anchor_id scope idempotency_key request_digest
              (RecordRef.publication decided.publication_id) now trace_ref
        _ ← or_rollback handle from_repository (publication_store_material material handle)
        _ ← or_rollback handle from_repository (publication_insert decided handle)
        _ ← or_rollback handle from_repository (audit_append audit_entry handle)
        _ ← or_rollback handle from_repository (idempotency_bind anchor handle)
        _ ← commit_unit handle
        decision_result reason decided
