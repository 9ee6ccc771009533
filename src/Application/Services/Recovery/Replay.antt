-- ===== src/Application/Services/Recovery/Replay.antt =====
-- crates/application/src/services/recovery.rs: the preparation of a replay.
use quantalithos_bus.Base.{◌++◌, not, none, Result, ok, err, if◌then◌else◌}
use quantalithos_bus.Base.Actions.{pure, lift, raise, ◌>>=◌}
use quantalithos_bus.Base.Text.{codes, is_blank}
use quantalithos_bus.Contracts.Core.{Core}
use quantalithos_bus.Contracts.Inputs.{PrepareReplayCommand}
use quantalithos_bus.Contracts.Receipts.{ReplayPreparationResult, replay_preparation_ready}
use quantalithos_bus.Domain.Audit.{
  BusAuditEntry, SubjectRef, AuditAction, PrivilegedAccessDecision, PrivilegedAccessRejectionReason,
  PrivilegedAccessScope,
}
use quantalithos_bus.Domain.Recovery.Policy.{can_prepare_replay}
use quantalithos_bus.Domain.Recovery.Replay.{prepare, mark_ready}
use quantalithos_bus.Application.Ports.{
  UnitOfWorkPurpose, UnitOfWorkHandle, RepositoryError, BusRecordKind,
}
use quantalithos_bus.Application.Errors.{
  ApplicationError, boundary_violation_error, conflict_error, not_found_error, validation_error,
}
use quantalithos_bus.Application.Errors.From.{from_domain, from_repository}
use quantalithos_bus.Infra.Store.Queries.{AuditChain, is_empty}
use quantalithos_bus.Infra.System.Repositories.{
  audit_append, audit_append_access, audit_load_chain, recovery_get_dead_letter,
  recovery_save_replay_preparation,
}
use quantalithos_bus.Application.Services.{
  App, begin_unit, commit_unit, clock_now, from_store, rollback_with, settle, or_rollback,
  found_or_rollback, new_record_id,
}

unfoldable pub validate_prepare_replay : PrepareReplayCommand → Result ApplicationError (Unit {0})
validate_prepare_replay command =
    if is_blank command.audit_chain_ref
    then err (validation_error "validation.audit_chain_ref" (codes "audit_chain_ref is required"))
    else if is_blank command.approval_ref
    then err (validation_error "validation.replay_approval_ref" (codes "approval_ref is required"))
    else if is_blank command.replay_reason
    then err (validation_error "validation.replay_reason" (codes "replay_reason is required"))
    else ok tt

unfoldable pub privileged_access_error : PrivilegedAccessRejectionReason → ApplicationError
privileged_access_error PrivilegedAccessRejectionReason.missing_authorization_ref =
    boundary_violation_error "boundary.authorization_ref_required"
      (codes "a trusted authorization_ref is required for replay preparation") none
privileged_access_error PrivilegedAccessRejectionReason.missing_role_hint =
    boundary_violation_error "boundary.privileged_role_hint_required"
      (codes "a trusted actor role hint is required for replay preparation") none

-- The `match error` of the save.
unfoldable pub replay_save_error : RepositoryError → ApplicationError
unfolding from_repository
replay_save_error RepositoryError.unique_violation =
    conflict_error "conflict.replay_preparation_exists"
      (codes "a replay preparation already exists for the dead letter and approval") none
replay_save_error error = from_repository error

module _ ⦃core : Core⦄ where
  open core use {
    ActorContext, CommandMetadata, has_role_refs, request_trace_id, request_requested_at,
  }

  unfoldable pub validate_privileged_actor :
      ActorContext → Result PrivilegedAccessRejectionReason (Unit {0})
  validate_privileged_actor actor =
      if not (has_role_refs actor)
      then err PrivilegedAccessRejectionReason.missing_role_hint
      else ok tt

  unfoldable pub append_access_audit :
      SubjectRef → PrivilegedAccessDecision → ActorContext → CommandMetadata → App (Unit {0})
  unfolding new_record_id from_store audit_append_access ◌>>=◌ pure
  append_access_audit subject_ref decision actor meta = do
    audit_ref ← new_record_id BusRecordKind.audit_entry
    let entry : BusAuditEntry = record {
      audit_ref = audit_ref;
      subject_ref = subject_ref;
      action = AuditAction.privileged_access PrivilegedAccessScope.replay_preparation decision;
      actor = actor;
      occurred_at = request_requested_at meta;
      trace_ref = request_trace_id meta;
    }
    _ ← from_store (audit_append_access entry)
    pure tt

  -- `if audit_chain.is_empty() { return self.rollback_with(…).await; }`
  unfoldable pub require_audit_chain : UnitOfWorkHandle → AuditChain → App (Unit {0})
  unfolding is_empty rollback_with pure
  require_audit_chain uow audit_chain =
      if is_empty audit_chain
      then rollback_with uow (
          boundary_violation_error "boundary.audit_chain_missing"
            (codes "a trusted audit chain is required for replay preparation") none)
      else pure tt

  -- `prepare`, for an actor who may.
  unfoldable pub prepare_privileged :
      PrepareReplayCommand → ActorContext → CommandMetadata → App ReplayPreparationResult
  unfolding begin_unit from_store recovery_get_dead_letter found_or_rollback audit_load_chain
      require_audit_chain settle can_prepare_replay prepare mark_ready or_rollback
      recovery_save_replay_preparation replay_save_error clock_now new_record_id audit_append
      commit_unit from_domain from_repository ◌>>=◌ pure
  prepare_privileged command actor meta = do
    uow ← begin_unit UnitOfWorkPurpose.prepare_replay actor
    found ← from_store (recovery_get_dead_letter command.dead_letter_id)
    entry ←
        found_or_rollback uow
          (not_found_error "not_found.dead_letter"
            (codes "dead letter " ++ command.dead_letter_id ++ codes " was not found") none)
          found
    audit_chain ← from_store (audit_load_chain command.audit_chain_ref)
    _ ← require_audit_chain uow audit_chain
    _ ← settle uow from_domain (can_prepare_replay entry command.audit_chain_ref)
    draft ← settle uow from_domain (prepare entry actor)
    let (preparation, marked) = mark_ready draft command.approval_ref actor
    _ ← settle uow from_domain marked
    _ ← or_rollback uow replay_save_error (recovery_save_replay_preparation preparation uow)
    occurred_at ← clock_now
    audit_ref ← new_record_id BusRecordKind.audit_entry
    let audit : BusAuditEntry = record {
      audit_ref = audit_ref;
      subject_ref = SubjectRef.replay preparation.replay_id;
      action = AuditAction.replay_preparation_ready;
      actor = actor;
      occurred_at = occurred_at;
      trace_ref = request_trace_id meta;
    }
    _ ← or_rollback uow from_repository (audit_append audit uow)
    _ ← commit_unit uow
    pure (replay_preparation_ready preparation.replay_id preparation.dead_letter_id audit_ref)

  -- `if let Err(reason) = Self::validate_privileged_actor(&actor) { … }` and the rest.
  unfoldable pub prepare_as :
      Result PrivilegedAccessRejectionReason (Unit {0})
      → PrepareReplayCommand
      → ActorContext
      → CommandMetadata
      → App ReplayPreparationResult
  unfolding append_access_audit privileged_access_error prepare_privileged ◌>>=◌ raise
  prepare_as (ok u) command actor meta = prepare_privileged command actor meta
  prepare_as (err reason) command actor meta = do
    _ ←
        append_access_audit (SubjectRef.dead_letter command.dead_letter_id)
          (PrivilegedAccessDecision.rejected reason) actor meta
    raise (privileged_access_error reason)

  unfoldable pub prepare_replay :
      PrepareReplayCommand → ActorContext → CommandMetadata → App ReplayPreparationResult
  unfolding validate_prepare_replay validate_privileged_actor lift prepare_as ◌>>=◌
  prepare_replay command actor meta = do
    _ ← lift (validate_prepare_replay command)
    prepare_as (validate_privileged_actor actor) command actor meta
