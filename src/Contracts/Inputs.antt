-- ===== src/Contracts/Inputs.antt =====
-- The inputs of the write path: crates/contracts/src/commands.rs and crates/contracts/src/events.rs.
use quantalithos_bus.Contracts.Core.{Core}
use quantalithos_bus.Contracts.Status.{
  PayloadKind, DeliveryMode, FeedbackKind, BackendStatus, TimeoutReason,
}
use quantalithos_bus.Contracts.Metadata.{
  SourceSystem, SourceRecordRef, CoreEventRef, PayloadRef, PayloadDigest, TargetScope, DeliveryId,
  DeliveryAttemptId, FeedbackReason, ExternalFeedbackRef, EventId, EventSourceRef,
  CoreEventEnvelopeRef, CommittedOutboxFactRef, BackendCapabilityRef, BackendResultRef,
  FailureMaterialRef, RetryPolicyRef, RetryRequestReason, AttemptLimit, DeadLetterReason,
  OperatorNoteRef, DeadLetterId, AuditChainRef, ReplayApprovalRef, ReplayReason,
}
use quantalithos_bus.Base.{Option}

pub record AcceptPublicationCommand : Type 0 where
  pub source_system : SourceSystem
  pub source_record_ref : SourceRecordRef
  pub core_event_ref : CoreEventRef
  pub payload_ref : PayloadRef
  pub payload_kind : PayloadKind
  pub payload_digest : PayloadDigest
  pub delivery_mode : DeliveryMode
  pub target_scope : TargetScope

pub record RequestRetryCommand : Type 0 where
  pub delivery_id : DeliveryId
  pub failure_material_ref : FailureMaterialRef
  pub retry_policy_ref : RetryPolicyRef
  pub requested_reason : RetryRequestReason
  pub max_attempts : AttemptLimit

pub record MoveDeliveryToDeadLetterCommand : Type 0 where
  pub delivery_id : DeliveryId
  pub failure_material_ref : FailureMaterialRef
  pub dead_letter_reason : DeadLetterReason
  pub operator_note_ref : Option OperatorNoteRef

pub record PrepareReplayCommand : Type 0 where
  pub dead_letter_id : DeadLetterId
  pub audit_chain_ref : AuditChainRef
  pub approval_ref : ReplayApprovalRef
  pub replay_reason : ReplayReason

module _ ⦃core : Core⦄ where
  open core use {Timestamp, IdempotencyKey}

  pub record RecordDeliveryFeedbackCommand : Type 0 where
    pub delivery_id : DeliveryId
    pub attempt_id : DeliveryAttemptId
    pub feedback_kind : FeedbackKind
    pub feedback_reason : FeedbackReason
    pub observed_at : Timestamp
    pub external_feedback_ref : ExternalFeedbackRef

  pub record CommittedOutboxFactInput : Type 0 where
    pub event_id : EventId
    pub source_ref : EventSourceRef
    pub core_event_envelope_ref : CoreEventEnvelopeRef
    pub core_event_ref : CoreEventRef
    pub committed_fact_ref : CommittedOutboxFactRef
    pub source_system : SourceSystem
    pub source_record_ref : SourceRecordRef
    pub payload_ref : PayloadRef
    pub payload_kind : PayloadKind
    pub payload_digest : PayloadDigest
    pub delivery_mode : DeliveryMode
    pub target_scope : TargetScope
    pub idempotency_key : IdempotencyKey

  pub record BackendDeliverySignalInput : Type 0 where
    pub event_id : EventId
    pub source_ref : EventSourceRef
    pub delivery_id : DeliveryId
    pub attempt_id : DeliveryAttemptId
    pub backend_capability_ref : BackendCapabilityRef
    pub backend_status : BackendStatus
    pub backend_result_ref : BackendResultRef
    pub idempotency_key : IdempotencyKey

  pub record DeliveryTimeoutSignalInput : Type 0 where
    pub event_id : EventId
    pub source_ref : EventSourceRef
    pub delivery_id : DeliveryId
    pub attempt_id : DeliveryAttemptId
    pub timeout_reason : TimeoutReason
    pub occurred_at : Timestamp
    pub idempotency_key : IdempotencyKey
