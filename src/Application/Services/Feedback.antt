-- ===== src/Application/Services/Feedback.antt =====
-- crates/application/src/services/feedback.rs: what the entry points of feedback share.
pub mod Record
pub mod Signal
pub mod Timeout
use quantalithos_bus.Base.{
  true, not, Option, none, some, ◌++◌, Result, ok, err, String, if◌then◌else◌,
}
use quantalithos_bus.Base.Actions.{pure, raise, lift, some_or, ◌>>=◌, ◌>>◌}
use quantalithos_bus.Base.Text.{codes}
use quantalithos_bus.Contracts.Core.{Core}
use quantalithos_bus.Contracts.Status.{FeedbackStatus, feedback_eq}
use quantalithos_bus.Contracts.Metadata.{AuditRef, DeliveryId, DeliveryAttemptId}
use quantalithos_bus.Contracts.Receipts.{
  FeedbackRecordResult, BackendSignalNormalizedResult, BackendSignalResult, TimeoutRecordResult,
  feedback_record_recorded, backend_signal_duplicate, timeout_record_duplicate,
}
use quantalithos_bus.Domain.Audit.{BusAuditEntry, SubjectRef, AuditAction}
use quantalithos_bus.Domain.Delivery.{DeliveryRecord, is_some_of}
use quantalithos_bus.Domain.Delivery.Attempt.{DeliveryAttempt, find_attempt, is_finished}
use quantalithos_bus.Domain.Feedback.{FeedbackResult, attach_audit_ref, implied_delivery_status}
use quantalithos_bus.Domain.Idempotency.Scope.{IdempotencyScope}
use quantalithos_bus.Domain.Idempotency.Digest.{IdempotencyAnchor, RecordRef, RequestDigest, bind}
use quantalithos_bus.Application.Ports.{UnitOfWorkHandle, RepositoryError, BusRecordKind}
use quantalithos_bus.Application.Errors.{ApplicationError, not_found_error, conflict_error}
use quantalithos_bus.Application.Errors.From.{from_repository}
use quantalithos_bus.Infra.System.Repositories.{
  feedback_get, feedback_insert, delivery_save, audit_append, idempotency_bind,
}
use quantalithos_bus.Application.Services.{
  App, commit_unit, clock_now, from_store, or_rollback, new_record_id,
}
use quantalithos_bus.Application.Services.Publication.{corrupted}

unfoldable pub backend_signal_outcome :
    FeedbackStatus → Result ApplicationError BackendSignalNormalizedResult
unfolding corrupted
backend_signal_outcome FeedbackStatus.ack = ok BackendSignalNormalizedResult.ack
backend_signal_outcome FeedbackStatus.fail = ok BackendSignalNormalizedResult.fail
backend_signal_outcome _ = err corrupted

-- The error of `insert`, as the entry points report it.
unfoldable pub insert_error : RepositoryError → ApplicationError
unfolding from_repository
insert_error RepositoryError.unique_violation =
    conflict_error "conflict.feedback_already_recorded"
      (codes "feedback source was already recorded") none
insert_error other = from_repository other

-- An error that is one of the services' already.
abbrev pub same_error : ApplicationError → ApplicationError
same_error error = error

module _ ⦃core : Core⦄ where
  open core use {ActorContext, TraceId, IdempotencyKey}

  unfoldable pub result_from_feedback : FeedbackResult → App FeedbackRecordResult
  unfolding some_or ◌>>=◌ pure corrupted implied_delivery_status
  result_from_feedback feedback = do
    audit_ref ← some_or corrupted feedback.audit_ref
    pure (
        feedback_record_recorded feedback.feedback_id feedback.delivery_id
          (implied_delivery_status feedback) audit_ref)

  unfoldable pub load_bound_feedback : RecordRef → App FeedbackResult
  unfolding from_store feedback_get some_or ◌>>=◌ raise corrupted
  load_bound_feedback (RecordRef.feedback feedback_id) = do
    found ← from_store (feedback_get feedback_id)
    some_or corrupted found
  load_bound_feedback (RecordRef.publication publication_id) = raise corrupted

  unfoldable pub load_feedback : IdempotencyAnchor → App FeedbackResult
  unfolding load_bound_feedback
  load_feedback anchor = load_bound_feedback anchor.bound_record_ref

  unfoldable pub load_existing_feedback_result : IdempotencyAnchor → App FeedbackRecordResult
  unfolding load_feedback result_from_feedback ◌>>=◌
  load_existing_feedback_result anchor = do
    feedback ← load_feedback anchor
    result_from_feedback feedback

  unfoldable pub load_existing_backend_signal_result :
      IdempotencyAnchor → DeliveryId → DeliveryAttemptId → App BackendSignalResult
  unfolding load_feedback some_or lift backend_signal_outcome ◌>>=◌ pure corrupted
  load_existing_backend_signal_result anchor delivery_id attempt_id = do
    feedback ← load_feedback anchor
    audit_ref ← some_or corrupted feedback.audit_ref
    outcome ← lift (backend_signal_outcome feedback.status)
    pure (backend_signal_duplicate delivery_id attempt_id outcome feedback.feedback_id audit_ref)

  -- `if feedback.status != Timeout { return Err(…) }`
  unfoldable pub timeout_status : FeedbackStatus → Result ApplicationError (Unit {0})
  unfolding corrupted
  timeout_status status =
      if not (feedback_eq status FeedbackStatus.timeout) then err corrupted else ok tt

  unfoldable pub load_existing_timeout_result :
      IdempotencyAnchor → DeliveryId → App TimeoutRecordResult
  unfolding load_feedback timeout_status lift some_or ◌>>=◌ pure corrupted
  load_existing_timeout_result anchor delivery_id = do
    feedback ← load_feedback anchor
    _ ← lift (timeout_status feedback.status)
    audit_ref ← some_or corrupted feedback.audit_ref
    pure (timeout_record_duplicate delivery_id feedback.feedback_id true audit_ref)

  -- `load_attempt` on what the search finds.
  unfoldable pub attempt_found :
      DeliveryAttemptId → Option DeliveryAttempt → Result ApplicationError DeliveryAttempt
  attempt_found attempt_id (some candidate) = ok candidate
  attempt_found attempt_id none = err (
      not_found_error "not_found.delivery_attempt"
        (codes "delivery attempt " ++ attempt_id ++ codes " was not found") none)

  unfoldable pub load_attempt :
      DeliveryRecord → DeliveryAttemptId → Result ApplicationError DeliveryAttempt
  unfolding attempt_found find_attempt
  load_attempt delivery attempt_id =
      attempt_found attempt_id (find_attempt attempt_id delivery.attempts)

  -- The attempt found, if it is the last one.
  unfoldable pub current_attempt :
      DeliveryRecord
      → DeliveryAttemptId
      → String
      → String
      → Result ApplicationError DeliveryAttempt
      → Result ApplicationError (Unit {0})
  unfolding is_some_of
  current_attempt delivery attempt_id conflict_code conflict_message (err error) = err error
  current_attempt delivery attempt_id conflict_code conflict_message (ok attempt) =
      if not (is_some_of delivery.last_attempt_ref attempt_id)
      then err (conflict_error conflict_code (codes conflict_message) none)
      else ok tt

  unfoldable pub validate_current_attempt :
      DeliveryRecord → DeliveryAttemptId → String → String → Result ApplicationError (Unit {0})
  unfolding current_attempt load_attempt
  validate_current_attempt delivery attempt_id conflict_code conflict_message =
      current_attempt delivery attempt_id conflict_code conflict_message
        (load_attempt delivery attempt_id)

  unfoldable pub require_finished :
      Result ApplicationError DeliveryAttempt → Result ApplicationError (Unit {0})
  unfolding is_finished
  require_finished (err error) = err error
  require_finished (ok attempt) =
      if not (is_finished attempt)
      then err (
          conflict_error "conflict.delivery_attempt_unfinished"
            (codes "delivery attempt is not finished") none)
      else ok tt

  unfoldable pub current_and_finished :
      Result ApplicationError (Unit {0})
      → Result ApplicationError DeliveryAttempt
      → Result ApplicationError (Unit {0})
  unfolding require_finished
  current_and_finished (err error) attempt = err error
  current_and_finished (ok _) attempt = require_finished attempt

  unfoldable pub validate_feedback_attempt :
      DeliveryRecord → DeliveryAttemptId → Result ApplicationError (Unit {0})
  unfolding validate_current_attempt current_and_finished load_attempt
  validate_feedback_attempt delivery attempt_id =
      current_and_finished
        (validate_current_attempt delivery attempt_id "conflict.late_feedback"
          "feedback does not target the current delivery attempt")
        (load_attempt delivery attempt_id)

  unfoldable pub feedback_audit_entry :
      AuditRef → DeliveryId → FeedbackResult → ActorContext → TraceId → BusAuditEntry
  feedback_audit_entry audit_ref delivery_id feedback actor trace_ref = record {
    audit_ref = audit_ref;
    subject_ref = SubjectRef.delivery delivery_id;
    action = AuditAction.feedback_recorded feedback.status;
    actor = actor;
    occurred_at = feedback.observed_at;
    trace_ref = trace_ref;
  }

  -- What the three entry points do at the end: they store the feedback, the delivery, the audit entry and the anchor,
  -- and commit. The result is the feedback with its audit reference, and that reference.
  unfoldable pub store_feedback :
      UnitOfWorkHandle
      → DeliveryRecord
      → DeliveryRecord
      → FeedbackResult
      → ActorContext
      → TraceId
      → IdempotencyScope
      → IdempotencyKey
      → RequestDigest
      → App (FeedbackResult × AuditRef)
  unfolding or_rollback new_record_id attach_audit_ref feedback_audit_entry bind clock_now
      feedback_insert delivery_save audit_append idempotency_bind commit_unit ◌>>=◌ pure
      insert_error from_repository
  store_feedback uow original delivery feedback actor trace_ref scope key request_digest = do
    audit_ref ← or_rollback uow same_error (new_record_id BusRecordKind.audit_entry)
    let attached = attach_audit_ref feedback audit_ref
    let audit_entry = feedback_audit_entry audit_ref delivery.delivery_id attached actor trace_ref
    anchor_id ← or_rollback uow same_error (new_record_id BusRecordKind.idempotency_anchor)
    now ← clock_now
    let anchor =
        bind anchor_id scope key request_digest (RecordRef.feedback attached.feedback_id) now
          trace_ref
    _ ← or_rollback uow insert_error (feedback_insert attached uow)
    _ ← or_rollback uow from_repository (delivery_save delivery original.version uow)
    _ ← or_rollback uow from_repository (audit_append audit_entry uow)
    _ ← or_rollback uow from_repository (idempotency_bind anchor uow)
    _ ← commit_unit uow
    pure (attached, audit_ref)

  -- An unknown delivery: the signal is audited as ignored.
  unfoldable pub ignore_signal :
      UnitOfWorkHandle → DeliveryId → AuditAction → ActorContext → TraceId → App AuditRef
  unfolding or_rollback new_record_id clock_now audit_append commit_unit ◌>>=◌ pure from_repository
  ignore_signal uow delivery_id action actor trace_ref = do
    audit_ref ← or_rollback uow same_error (new_record_id BusRecordKind.audit_entry)
    now ← clock_now
    let audit_entry : BusAuditEntry = record {
      audit_ref = audit_ref;
      subject_ref = SubjectRef.delivery delivery_id;
      action = action;
      actor = actor;
      occurred_at = now;
      trace_ref = trace_ref;
    }
    _ ← or_rollback uow from_repository (audit_append audit_entry uow)
    _ ← commit_unit uow
    pure audit_ref
