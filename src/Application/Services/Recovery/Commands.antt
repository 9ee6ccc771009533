-- ===== src/Application/Services/Recovery/Commands.antt =====
-- crates/application/src/services/recovery.rs: the request of a retry, and the move of a failed delivery to the dead
-- letters.
use quantalithos_bus.Base.{
  Bool, true, false, not, Option, none, some, List, [], ◌∷◌, Result, ok, err, if◌then◌else◌,
}
use quantalithos_bus.Base.Actions.{pure, lift, ◌>>=◌}
use quantalithos_bus.Base.Text.{codes, is_blank}
use quantalithos_bus.Contracts.Core.{Core}
use quantalithos_bus.Contracts.Status.{DeliveryStatus, delivery_eq}
use quantalithos_bus.Contracts.Metadata.{OperatorNoteRef, AuditRef, moved_to_dead_letter}
use quantalithos_bus.Contracts.Inputs.{RequestRetryCommand, MoveDeliveryToDeadLetterCommand}
use quantalithos_bus.Contracts.Receipts.{
  RetryPlanResult, retry_plan_scheduled, DeadLetterResult, dead_letter_opened,
}
use quantalithos_bus.Domain.Audit.{BusAuditEntry, SubjectRef, AuditAction}
use quantalithos_bus.Domain.Delivery.{append_history, mark_dead_lettered}
use quantalithos_bus.Domain.Delivery.History.{DeliveryHistoryEntry, transition}
use quantalithos_bus.Domain.Recovery.DeadLetter.{DeadLetterEntry, from_failed_delivery}
use quantalithos_bus.Domain.Recovery.Policy.{can_retry, can_dead_letter}
use quantalithos_bus.Domain.Recovery.Retry.{create}
use quantalithos_bus.Application.Ports.{
  UnitOfWorkPurpose, UnitOfWorkHandle, RepositoryError, BusRecordKind,
}
use quantalithos_bus.Application.Errors.{ApplicationError, conflict_error, validation_error}
use quantalithos_bus.Application.Errors.From.{from_domain, from_repository}
use quantalithos_bus.Infra.System.Repositories.{
  audit_append, delivery_load_history, delivery_save, recovery_save_dead_letter,
  recovery_save_retry_plan,
}
use quantalithos_bus.Application.Services.{
  App, begin_unit, commit_unit, clock_now, rollback_with, settle, or_rollback, new_record_id,
}
use quantalithos_bus.Application.Services.Recovery.{
  load_failed_delivery, load_failure_material, retry_audit,
}

unfoldable pub validate_request_retry : RequestRetryCommand → Result ApplicationError (Unit {0})
validate_request_retry command =
    if is_blank command.failure_material_ref
    then err (
        validation_error "validation.failure_material_ref"
          (codes "failure_material_ref is required"))
    else if is_blank command.retry_policy_ref
    then err (validation_error "validation.retry_policy_ref" (codes "retry_policy_ref is required"))
    else if is_blank command.requested_reason
    then err
        (validation_error "validation.retry_request_reason" (codes "requested_reason is required"))
    else ok tt

-- `operator_note_ref.as_ref().is_some_and(…)`
unfoldable pub note_is_blank : Option OperatorNoteRef → Bool
note_is_blank none = false
note_is_blank (some value) = is_blank value

unfoldable pub validate_move_to_dead_letter :
    MoveDeliveryToDeadLetterCommand → Result ApplicationError (Unit {0})
unfolding note_is_blank
validate_move_to_dead_letter command =
    if is_blank command.failure_material_ref
    then err (
        validation_error "validation.failure_material_ref"
          (codes "failure_material_ref is required"))
    else if is_blank command.dead_letter_reason
    then err
        (validation_error "validation.dead_letter_reason" (codes "dead_letter_reason is required"))
    else if note_is_blank command.operator_note_ref
    then err (
        validation_error "validation.operator_note_ref"
          (codes "operator_note_ref must not be blank"))
    else ok tt

-- The `match error` of a save of a new plan, and of a new dead letter.
unfoldable pub retry_save_error : RepositoryError → ApplicationError
unfolding from_repository
retry_save_error RepositoryError.unique_violation =
    conflict_error "conflict.retry_plan_active"
      (codes "an active retry plan already exists for the delivery") none
retry_save_error error = from_repository error

unfoldable pub dead_letter_save_error : RepositoryError → ApplicationError
unfolding from_repository
dead_letter_save_error RepositoryError.unique_violation =
    conflict_error "conflict.dead_letter_active"
      (codes "an active dead-letter entry already exists for the delivery") none
dead_letter_save_error error = from_repository error

module _ ⦃core : Core⦄ where
  open core use {ActorContext, CommandMetadata, Timestamp, TraceId, request_trace_id}

  unfoldable pub request_retry :
      RequestRetryCommand → ActorContext → CommandMetadata → App RetryPlanResult
  unfolding validate_request_retry lift begin_unit or_rollback load_failed_delivery
      load_failure_material clock_now create settle can_retry recovery_save_retry_plan
      retry_save_error new_record_id retry_audit audit_append commit_unit from_domain
      from_repository ◌>>=◌ pure
  request_retry command actor meta = do
    _ ← lift (validate_request_retry command)
    uow ← begin_unit UnitOfWorkPurpose.request_retry actor
    delivery ← or_rollback uow (λ error. error) (load_failed_delivery command.delivery_id uow)
    material ← or_rollback uow (λ error. error) (load_failure_material command.failure_material_ref)
    now ← clock_now
    retry_plan ←
        settle uow from_domain (
          create delivery material.failure_reason command.retry_policy_ref command.max_attempts now)
    _ ← settle uow from_domain (can_retry delivery retry_plan)
    _ ← or_rollback uow retry_save_error (recovery_save_retry_plan retry_plan none uow)
    audit_ref ← new_record_id BusRecordKind.audit_entry
    let audit =
        retry_audit AuditAction.retry_requested audit_ref retry_plan actor (request_trace_id meta)
          now
    _ ← or_rollback uow from_repository (audit_append audit uow)
    _ ← commit_unit uow
    pure (
        retry_plan_scheduled retry_plan.retry_plan_id retry_plan.delivery_id
          retry_plan.remaining_attempts retry_plan.next_attempt_at audit_ref)

  unfoldable pub dead_letter_created_audit :
      AuditRef → DeadLetterEntry → ActorContext → TraceId → Timestamp → BusAuditEntry
  dead_letter_created_audit audit_ref entry actor trace_ref occurred_at = record {
    audit_ref = audit_ref;
    subject_ref = SubjectRef.dead_letter entry.dead_letter_id;
    action = AuditAction.dead_letter_created;
    actor = actor;
    occurred_at = occurred_at;
    trace_ref = trace_ref;
  }

  -- `history.last().map(|entry| entry.to_status != DeliveryStatus::Failed).unwrap_or(true)`
  unfoldable pub lacks_failed_history : List DeliveryHistoryEntry → Bool
  lacks_failed_history [] = true
  lacks_failed_history (entry ∷ []) = not (delivery_eq entry.to_status DeliveryStatus.failed)
  lacks_failed_history (entry ∷ next ∷ history) = lacks_failed_history (next ∷ history)

  unfoldable pub require_failed_history :
      UnitOfWorkHandle → List DeliveryHistoryEntry → App (Unit {0})
  unfolding lacks_failed_history rollback_with pure
  require_failed_history uow history =
      if lacks_failed_history history
      then rollback_with uow (
          conflict_error "conflict.dead_letter_history"
            (codes "delivery is missing the failed history required for dead letter") none)
      else pure tt

  unfoldable pub move_to_dead_letter :
      MoveDeliveryToDeadLetterCommand → ActorContext → CommandMetadata → App DeadLetterResult
  unfolding validate_move_to_dead_letter lift begin_unit or_rollback load_failed_delivery
      load_failure_material delivery_load_history require_failed_history settle can_dead_letter
      from_failed_delivery mark_dead_lettered clock_now append_history transition
      moved_to_dead_letter recovery_save_dead_letter dead_letter_save_error delivery_save
      new_record_id dead_letter_created_audit audit_append commit_unit from_domain from_repository
      ◌>>=◌ pure
  move_to_dead_letter command actor meta = do
    _ ← lift (validate_move_to_dead_letter command)
    uow ← begin_unit UnitOfWorkPurpose.move_delivery_to_dead_letter actor
    delivery ← or_rollback uow (λ error. error) (load_failed_delivery command.delivery_id uow)
    material ← or_rollback uow (λ error. error) (load_failure_material command.failure_material_ref)
    history ← or_rollback uow from_repository (delivery_load_history command.delivery_id)
    _ ← require_failed_history uow history
    _ ← settle uow from_domain (can_dead_letter delivery material)
    entry ← settle uow from_domain (from_failed_delivery delivery material)
    let (dead, marked) = mark_dead_lettered delivery entry.dead_letter_id actor
    _ ← settle uow from_domain marked
    occurred_at ← clock_now
    let (logged, appended) = append_history dead (
        transition dead.delivery_id DeliveryStatus.failed DeliveryStatus.dead_lettered
          moved_to_dead_letter occurred_at)
    _ ← settle uow from_domain appended
    _ ← or_rollback uow dead_letter_save_error (recovery_save_dead_letter entry material uow)
    _ ← or_rollback uow from_repository (delivery_save logged delivery.version uow)
    audit_ref ← new_record_id BusRecordKind.audit_entry
    let audit = dead_letter_created_audit audit_ref entry actor (request_trace_id meta) occurred_at
    _ ← or_rollback uow from_repository (audit_append audit uow)
    _ ← commit_unit uow
    pure (
        dead_letter_opened entry.dead_letter_id logged.delivery_id material.failure_material_id
          audit_ref)
