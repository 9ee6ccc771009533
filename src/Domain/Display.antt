-- ===== src/Domain/Display.antt =====
-- crates/domain/src/errors.rs: the messages of the domain errors.
use quantalithos_bus.Base.{◌++◌}
use quantalithos_bus.Base.Text.{Text, codes}
use quantalithos_bus.Contracts.Status.{
  PublicationAcceptanceStatus, RetryPlanStatus, DeadLetterStatus, ReplayPreparationStatus,
}
use quantalithos_bus.Domain.Errors.{DomainError, ProjectionStatus}
use quantalithos_bus.Domain.Delivery.History.{debug_name}

-- The derived `Debug` of the statuses.
unfoldable pub acceptance_debug_name : PublicationAcceptanceStatus → Text
acceptance_debug_name PublicationAcceptanceStatus.pending = codes "Pending"
acceptance_debug_name PublicationAcceptanceStatus.accepted = codes "Accepted"
acceptance_debug_name PublicationAcceptanceStatus.rejected = codes "Rejected"

unfoldable pub retry_debug_name : RetryPlanStatus → Text
retry_debug_name RetryPlanStatus.scheduled = codes "Scheduled"
retry_debug_name RetryPlanStatus.exhausted = codes "Exhausted"
retry_debug_name RetryPlanStatus.cancelled = codes "Cancelled"

unfoldable pub dead_letter_debug_name : DeadLetterStatus → Text
dead_letter_debug_name DeadLetterStatus.open_entry = codes "Open"
dead_letter_debug_name DeadLetterStatus.reviewing = codes "Reviewing"
dead_letter_debug_name DeadLetterStatus.closed = codes "Closed"

unfoldable pub replay_debug_name : ReplayPreparationStatus → Text
replay_debug_name ReplayPreparationStatus.draft = codes "Draft"
replay_debug_name ReplayPreparationStatus.ready = codes "Ready"
replay_debug_name ReplayPreparationStatus.rejected = codes "Rejected"
replay_debug_name ReplayPreparationStatus.superseded = codes "Superseded"

unfoldable pub projection_debug_name : ProjectionStatus → Text
projection_debug_name ProjectionStatus.building = codes "Building"
projection_debug_name ProjectionStatus.active = codes "Active"
projection_debug_name ProjectionStatus.stale = codes "Stale"
projection_debug_name ProjectionStatus.rebuilding = codes "Rebuilding"

-- `error.to_string()`.
unfoldable pub domain_display : DomainError → Text
unfolding acceptance_debug_name debug_name retry_debug_name dead_letter_debug_name replay_debug_name
    projection_debug_name
domain_display (DomainError.invalid_publication_material field) =
    codes "invalid publication material: " ++ codes field
domain_display (DomainError.invalid_subscriber_scope field) =
    codes "invalid subscriber scope: " ++ codes field
domain_display (DomainError.invalid_delivery_record field) =
    codes "invalid delivery record: " ++ codes field
domain_display (DomainError.invalid_delivery_attempt field) =
    codes "invalid delivery attempt: " ++ codes field
domain_display (DomainError.invalid_feedback_result field) =
    codes "invalid feedback result: " ++ codes field
domain_display (DomainError.invalid_retry_plan field) = codes "invalid retry plan: " ++ codes field
domain_display (DomainError.invalid_dead_letter_entry field) =
    codes "invalid dead letter entry: " ++ codes field
domain_display (DomainError.invalid_replay_preparation field) =
    codes "invalid replay preparation: " ++ codes field
domain_display (DomainError.invalid_failure_material field) =
    codes "invalid failure material: " ++ codes field
domain_display (DomainError.invalid_transport_view_projection field) =
    codes "invalid transport view projection: " ++ codes field
domain_display (DomainError.invalid_failure_summary_projection field) =
    codes "invalid failure summary projection: " ++ codes field
domain_display (DomainError.invalid_recovery_policy field) =
    codes "invalid recovery policy: " ++ codes field
domain_display DomainError.invalid_request_digest = codes "invalid request digest"
domain_display DomainError.payload_boundary_violation = codes "payload boundary violation"
domain_display (DomainError.invalid_state_transition from_status to_status) =
    codes "invalid state transition: "
    ++ acceptance_debug_name from_status
    ++ codes " -> "
    ++ acceptance_debug_name to_status
domain_display (DomainError.invalid_delivery_transition from_status to_status) =
    codes "invalid delivery transition: "
    ++ debug_name from_status
    ++ codes " -> "
    ++ debug_name to_status
domain_display (DomainError.invalid_retry_plan_transition from_status to_status) =
    codes "invalid retry plan transition: "
    ++ retry_debug_name from_status
    ++ codes " -> "
    ++ retry_debug_name to_status
domain_display (DomainError.invalid_dead_letter_transition from_status to_status) =
    codes "invalid dead letter transition: "
    ++ dead_letter_debug_name from_status
    ++ codes " -> "
    ++ dead_letter_debug_name to_status
domain_display (DomainError.invalid_replay_preparation_transition from_status to_status) =
    codes "invalid replay preparation transition: "
    ++ replay_debug_name from_status
    ++ codes " -> "
    ++ replay_debug_name to_status
domain_display (DomainError.invalid_projection_status_transition from_status to_status) =
    codes "invalid projection status transition: "
    ++ projection_debug_name from_status
    ++ codes " -> "
    ++ projection_debug_name to_status
domain_display DomainError.terminal_state_reopen_rejected =
    codes "terminal acceptance state cannot be reopened"
domain_display DomainError.terminal_delivery_state_reopen_rejected =
    codes "terminal delivery state cannot be reopened"
domain_display DomainError.publication_rejected_cannot_schedule_delivery =
    codes "rejected publication cannot schedule delivery"
domain_display DomainError.target_scope_mismatch =
    codes "target scope does not match accepted publication material"
domain_display DomainError.non_durable_transport_semantic =
    codes "transport semantic does not require a durable record"
domain_display DomainError.backend_capability_mapping_rejected =
    codes "backend capability mapping rejected"
domain_display DomainError.backend_private_field_leak =
    codes "backend private field leaked into platform semantic"
domain_display DomainError.retry_not_allowed = codes "retry is not allowed"
domain_display DomainError.dead_letter_not_allowed = codes "dead letter is not allowed"
domain_display DomainError.replay_preparation_not_allowed =
    codes "replay preparation is not allowed"
domain_display DomainError.retry_exhausted_cannot_dispatch =
    codes "exhausted retry plan cannot dispatch"
domain_display DomainError.dead_letter_closed = codes "dead letter is already closed"
domain_display DomainError.dead_letter_cannot_dispatch_directly =
    codes "dead letter cannot dispatch directly"
domain_display DomainError.replay_preparation_is_not_executor =
    codes "replay preparation is not the replay executor"
domain_display DomainError.read_only_projection_violation =
    codes "read-only projection attempted to mutate truth"
domain_display DomainError.attempt_not_finished = codes "delivery attempt is not finished"
domain_display DomainError.attempt_already_finished = codes "delivery attempt was already finished"
domain_display DomainError.attempt_does_not_belong_to_delivery =
    codes "delivery attempt belongs to a different delivery"
domain_display DomainError.attempt_outcome_does_not_deliver =
    codes "delivery attempt outcome does not justify delivery"
domain_display DomainError.attempt_ref_mismatch =
    codes "delivery attempt does not match the recorded attempt"
domain_display DomainError.attempt_finished_before_start =
    codes "delivery attempt finished before it started"
