-- ===== src/Application/Errors/From.antt =====
-- crates/application/src/errors.rs: the errors of the layers below, as errors of the services.
use quantalithos_bus.Base.{true, false, none, ◌++◌}
use quantalithos_bus.Base.Text.{codes}
use quantalithos_bus.Domain.Errors.{DomainError}
use quantalithos_bus.Domain.Display.{domain_display}
use quantalithos_bus.Application.Ports.{RepositoryError, UnitOfWorkError}
use quantalithos_bus.Application.Errors.{
  ApplicationError, IdGenerationError, SourcePortError, PublisherPortError, TransportPortError,
  validation_error, conflict_error, boundary_violation_error, dependency_error, internal_error,
}

unfoldable pub from_domain : DomainError → ApplicationError
unfolding domain_display
from_domain (DomainError.invalid_publication_material field) =
    validation_error "validation.publication_material"
      (codes "invalid publication material field: " ++ codes field)
from_domain (DomainError.invalid_subscriber_scope field) =
    validation_error "validation.subscriber_scope"
      (codes "invalid subscriber scope field: " ++ codes field)
from_domain (DomainError.invalid_delivery_record field) =
    validation_error "validation.delivery_record"
      (codes "invalid delivery record field: " ++ codes field)
from_domain (DomainError.invalid_delivery_attempt field) =
    validation_error "validation.delivery_attempt"
      (codes "invalid delivery attempt field: " ++ codes field)
from_domain (DomainError.invalid_feedback_result field) =
    validation_error "validation.feedback_result"
      (codes "invalid feedback result field: " ++ codes field)
from_domain (DomainError.invalid_retry_plan field) =
    validation_error "validation.retry_plan" (codes "invalid retry plan field: " ++ codes field)
from_domain (DomainError.invalid_dead_letter_entry field) =
    validation_error "validation.dead_letter_entry"
      (codes "invalid dead-letter field: " ++ codes field)
from_domain (DomainError.invalid_replay_preparation field) =
    validation_error "validation.replay_preparation"
      (codes "invalid replay preparation field: " ++ codes field)
from_domain (DomainError.invalid_failure_material field) =
    validation_error "validation.failure_material"
      (codes "invalid failure material field: " ++ codes field)
from_domain (DomainError.invalid_transport_view_projection field) =
    validation_error "validation.transport_view_projection"
      (codes "invalid transport view projection field: " ++ codes field)
from_domain (DomainError.invalid_failure_summary_projection field) =
    validation_error "validation.failure_summary_projection"
      (codes "invalid failure summary projection field: " ++ codes field)
from_domain (DomainError.invalid_recovery_policy field) =
    validation_error "validation.recovery_policy"
      (codes "invalid recovery policy field: " ++ codes field)
from_domain DomainError.invalid_request_digest =
    internal_error "internal.request_digest" (codes "request digest could not be computed") false
      none
from_domain DomainError.payload_boundary_violation =
    boundary_violation_error "boundary.payload_body_rejected"
      (codes "payload body is not accepted by bus protocol") none
from_domain (DomainError.invalid_state_transition from_status to_status) =
    conflict_error "conflict.publication_state"
      (domain_display (DomainError.invalid_state_transition from_status to_status)) none
from_domain DomainError.terminal_state_reopen_rejected =
    conflict_error "conflict.publication_state"
      (domain_display DomainError.terminal_state_reopen_rejected) none
from_domain DomainError.publication_rejected_cannot_schedule_delivery =
    conflict_error "conflict.publication_state"
      (domain_display DomainError.publication_rejected_cannot_schedule_delivery) none
from_domain (DomainError.invalid_delivery_transition from_status to_status) =
    conflict_error "conflict.delivery_state"
      (domain_display (DomainError.invalid_delivery_transition from_status to_status)) none
from_domain DomainError.terminal_delivery_state_reopen_rejected =
    conflict_error "conflict.delivery_state"
      (domain_display DomainError.terminal_delivery_state_reopen_rejected) none
from_domain DomainError.attempt_not_finished =
    conflict_error "conflict.delivery_state" (domain_display DomainError.attempt_not_finished) none
from_domain DomainError.attempt_already_finished =
    conflict_error "conflict.delivery_state" (domain_display DomainError.attempt_already_finished)
      none
from_domain DomainError.attempt_does_not_belong_to_delivery =
    conflict_error "conflict.delivery_state"
      (domain_display DomainError.attempt_does_not_belong_to_delivery) none
from_domain DomainError.attempt_outcome_does_not_deliver =
    conflict_error "conflict.delivery_state"
      (domain_display DomainError.attempt_outcome_does_not_deliver) none
from_domain DomainError.attempt_ref_mismatch =
    conflict_error "conflict.delivery_state" (domain_display DomainError.attempt_ref_mismatch) none
from_domain DomainError.attempt_finished_before_start =
    conflict_error "conflict.delivery_state"
      (domain_display DomainError.attempt_finished_before_start) none
from_domain (DomainError.invalid_retry_plan_transition from_status to_status) =
    conflict_error "conflict.retry_plan_state"
      (domain_display (DomainError.invalid_retry_plan_transition from_status to_status)) none
from_domain DomainError.retry_not_allowed =
    conflict_error "conflict.retry_plan_state" (domain_display DomainError.retry_not_allowed) none
from_domain DomainError.retry_exhausted_cannot_dispatch =
    conflict_error "conflict.retry_plan_state"
      (domain_display DomainError.retry_exhausted_cannot_dispatch) none
from_domain (DomainError.invalid_dead_letter_transition from_status to_status) =
    conflict_error "conflict.dead_letter_state"
      (domain_display (DomainError.invalid_dead_letter_transition from_status to_status)) none
from_domain DomainError.dead_letter_not_allowed =
    conflict_error "conflict.dead_letter_state" (domain_display DomainError.dead_letter_not_allowed)
      none
from_domain DomainError.dead_letter_closed =
    conflict_error "conflict.dead_letter_state" (domain_display DomainError.dead_letter_closed) none
from_domain (DomainError.invalid_replay_preparation_transition from_status to_status) =
    conflict_error "conflict.replay_preparation_state"
      (domain_display (DomainError.invalid_replay_preparation_transition from_status to_status))
      none
from_domain DomainError.replay_preparation_not_allowed =
    conflict_error "conflict.replay_preparation_state"
      (domain_display DomainError.replay_preparation_not_allowed) none
from_domain (DomainError.invalid_projection_status_transition from_status to_status) =
    conflict_error "conflict.projection_state"
      (domain_display (DomainError.invalid_projection_status_transition from_status to_status)) none
from_domain DomainError.target_scope_mismatch =
    validation_error "validation.transport_semantic"
      (domain_display DomainError.target_scope_mismatch)
from_domain DomainError.non_durable_transport_semantic =
    validation_error "validation.transport_semantic"
      (domain_display DomainError.non_durable_transport_semantic)
from_domain DomainError.backend_capability_mapping_rejected =
    conflict_error "conflict.backend_capability_mapping"
      (domain_display DomainError.backend_capability_mapping_rejected) none
from_domain DomainError.backend_private_field_leak =
    boundary_violation_error "boundary.backend_private_field_rejected"
      (domain_display DomainError.backend_private_field_leak) none
from_domain DomainError.dead_letter_cannot_dispatch_directly =
    boundary_violation_error "boundary.recovery_executor_rejected"
      (domain_display DomainError.dead_letter_cannot_dispatch_directly) none
from_domain DomainError.replay_preparation_is_not_executor =
    boundary_violation_error "boundary.recovery_executor_rejected"
      (domain_display DomainError.replay_preparation_is_not_executor) none
from_domain DomainError.read_only_projection_violation =
    boundary_violation_error "boundary.read_only_projection_rejected"
      (domain_display DomainError.read_only_projection_violation) none

unfoldable pub from_repository : RepositoryError → ApplicationError
from_repository RepositoryError.unavailable =
    dependency_error "dependency.repository_unavailable" (codes "repository unavailable") true none
from_repository RepositoryError.version_conflict =
    conflict_error "conflict.version" (codes "version conflict") none
from_repository RepositoryError.unique_violation =
    conflict_error "conflict.unique" (codes "unique constraint conflict") none
from_repository RepositoryError.sequence_conflict =
    conflict_error "conflict.audit_sequence" (codes "audit sequence conflict") none
from_repository RepositoryError.corrupted_record =
    internal_error "internal.corrupted_record" (codes "corrupted record") true none

unfoldable pub from_unit_of_work : UnitOfWorkError → ApplicationError
from_unit_of_work UnitOfWorkError.begin_failed =
    dependency_error "dependency.transaction_unavailable" (codes "write transaction unavailable")
      true none
from_unit_of_work UnitOfWorkError.commit_failed =
    dependency_error "dependency.commit_failed" (codes "commit failed") true none
from_unit_of_work UnitOfWorkError.commit_uncertain =
    internal_error "internal.commit_uncertain" (codes "commit outcome is uncertain") true none
from_unit_of_work UnitOfWorkError.rollback_failed =
    internal_error "internal.rollback_failed" (codes "rollback failed") true none
from_unit_of_work UnitOfWorkError.invalid_handle =
    internal_error "internal.invalid_transaction_handle" (codes "invalid transaction handle") true
      none

unfoldable pub from_id_generation : IdGenerationError → ApplicationError
from_id_generation _ =
    internal_error "internal.id_generation_failed" (codes "record id generation failed") false none

unfoldable pub from_source : SourcePortError → ApplicationError
from_source SourcePortError.unavailable =
    dependency_error "dependency.outbox_source_unavailable" (codes "outbox source unavailable") true
      none
from_source SourcePortError.cursor_invalid =
    validation_error "validation.outbox_cursor" (codes "outbox cursor is invalid")
from_source SourcePortError.ack_failed =
    dependency_error "dependency.outbox_ack_failed" (codes "outbox source acknowledgment failed")
      true none
from_source SourcePortError.boundary_violation =
    boundary_violation_error "boundary.outbox_source_fact_rejected"
      (codes "outbox source fact violated the bus boundary policy") none

unfoldable pub from_publisher : PublisherPortError → ApplicationError
from_publisher PublisherPortError.retryable_failure =
    dependency_error "dependency.outbound_publisher_unavailable"
      (codes "outbound publisher is temporarily unavailable") true none
from_publisher PublisherPortError.schema_violation =
    boundary_violation_error "boundary.outbound_event_schema_rejected"
      (codes "outbound event schema is invalid") none
from_publisher PublisherPortError.boundary_violation =
    boundary_violation_error "boundary.outbound_event_rejected"
      (codes "outbound event crossed a protected boundary") none
from_publisher PublisherPortError.duplicate =
    conflict_error "conflict.outbound_event_duplicate"
      (codes "outbound event was already published") none

unfoldable pub from_transport : TransportPortError → ApplicationError
from_transport TransportPortError.backend_unavailable =
    dependency_error "dependency.transport_backend_unavailable"
      (codes "transport backend unavailable") true none
from_transport TransportPortError.dispatch_timeout =
    dependency_error "dependency.transport_backend_unavailable"
      (codes "transport backend unavailable") true none
from_transport TransportPortError.capability_mismatch =
    conflict_error "conflict.backend_capability_mapping"
      (codes "transport semantic does not match backend capability") none
from_transport TransportPortError.private_body_violation =
    boundary_violation_error "boundary.backend_private_field_rejected"
      (codes "backend response carried private body content") none
