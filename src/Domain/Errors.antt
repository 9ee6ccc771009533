-- ===== src/Domain/Errors.antt =====
-- crates/domain/src/errors.rs. A `&'static str` names the field at fault.
use Prim.Native.String.{String}
use quantalithos_bus.Contracts.Status.{
  PublicationAcceptanceStatus, DeliveryStatus, RetryPlanStatus, DeadLetterStatus,
  ReplayPreparationStatus,
}

-- crates/domain/src/read_output.rs declares it; the errors name it.
pub data ProjectionStatus : Type 0 where
  building active stale rebuilding : ProjectionStatus

pub data DomainError : Type 0 where
  invalid_publication_material : String → DomainError
  invalid_subscriber_scope : String → DomainError
  invalid_delivery_record : String → DomainError
  invalid_delivery_attempt : String → DomainError
  invalid_feedback_result : String → DomainError
  invalid_retry_plan : String → DomainError
  invalid_dead_letter_entry : String → DomainError
  invalid_replay_preparation : String → DomainError
  invalid_failure_material : String → DomainError
  invalid_transport_view_projection : String → DomainError
  invalid_failure_summary_projection : String → DomainError
  invalid_recovery_policy : String → DomainError
  invalid_request_digest : DomainError
  payload_boundary_violation : DomainError
  invalid_state_transition : PublicationAcceptanceStatus → PublicationAcceptanceStatus → DomainError
  invalid_delivery_transition : DeliveryStatus → DeliveryStatus → DomainError
  invalid_retry_plan_transition : RetryPlanStatus → RetryPlanStatus → DomainError
  invalid_dead_letter_transition : DeadLetterStatus → DeadLetterStatus → DomainError
  invalid_replay_preparation_transition :
      ReplayPreparationStatus → ReplayPreparationStatus → DomainError
  invalid_projection_status_transition : ProjectionStatus → ProjectionStatus → DomainError
  terminal_state_reopen_rejected : DomainError
  terminal_delivery_state_reopen_rejected : DomainError
  publication_rejected_cannot_schedule_delivery : DomainError
  target_scope_mismatch : DomainError
  non_durable_transport_semantic : DomainError
  backend_capability_mapping_rejected : DomainError
  backend_private_field_leak : DomainError
  retry_not_allowed : DomainError
  dead_letter_not_allowed : DomainError
  replay_preparation_not_allowed : DomainError
  retry_exhausted_cannot_dispatch : DomainError
  dead_letter_closed : DomainError
  dead_letter_cannot_dispatch_directly : DomainError
  replay_preparation_is_not_executor : DomainError
  read_only_projection_violation : DomainError
  attempt_not_finished : DomainError
  attempt_already_finished : DomainError
  attempt_does_not_belong_to_delivery : DomainError
  attempt_outcome_does_not_deliver : DomainError
  attempt_ref_mismatch : DomainError
  attempt_finished_before_start : DomainError
