-- ===== src/Contracts/Receipts.antt =====
-- crates/contracts/src/receipts.rs: the results of the write path.
use quantalithos_bus.Base.{Bool, false, Option, none, some}
use quantalithos_bus.Contracts.Core.{Core}
use quantalithos_bus.Contracts.Status.{
  DeadLetterStatus, DeliveryStatus, FeedbackRecordStatus, PublicationAcceptanceStatus,
  ReplayPreparationStatus, RetryPlanStatus,
}
use quantalithos_bus.Contracts.Metadata.{
  AttemptCount, AuditRef, DeadLetterId, DeliveryId, DeliveryAttemptId, FailureMaterialRef,
  FeedbackId, PublicationId, RejectionReasonRef, ReplayPreparationId, RetryPlanId,
}

pub record PublicationAcceptanceResult : Type 0 where
  pub publication_id : PublicationId
  pub acceptance_status : PublicationAcceptanceStatus
  pub rejection_reason_ref : Option RejectionReasonRef
  pub audit_ref : AuditRef

abbrev pub publication_acceptance_accepted : PublicationId → AuditRef → PublicationAcceptanceResult
publication_acceptance_accepted publication_id audit_ref = record {
  publication_id = publication_id;
  acceptance_status = PublicationAcceptanceStatus.accepted;
  rejection_reason_ref = none;
  audit_ref = audit_ref;
}

abbrev pub publication_acceptance_rejected :
    PublicationId → RejectionReasonRef → AuditRef → PublicationAcceptanceResult
publication_acceptance_rejected publication_id rejection_reason_ref audit_ref = record {
  publication_id = publication_id;
  acceptance_status = PublicationAcceptanceStatus.rejected;
  rejection_reason_ref = some rejection_reason_ref;
  audit_ref = audit_ref;
}

pub data OutboxRelayStatus : Type 0 where
  accepted duplicate : OutboxRelayStatus

pub record OutboxRelayResult : Type 0 where
  pub publication_id : PublicationId
  pub relay_status : OutboxRelayStatus
  pub audit_ref : AuditRef

abbrev pub outbox_relay_accepted : PublicationId → AuditRef → OutboxRelayResult
outbox_relay_accepted publication_id audit_ref = record {
  publication_id = publication_id;
  relay_status = OutboxRelayStatus.accepted;
  audit_ref = audit_ref;
}

abbrev pub outbox_relay_duplicate : PublicationId → AuditRef → OutboxRelayResult
outbox_relay_duplicate publication_id audit_ref = record {
  publication_id = publication_id;
  relay_status = OutboxRelayStatus.duplicate;
  audit_ref = audit_ref;
}

pub record FeedbackRecordResult : Type 0 where
  pub feedback_id : FeedbackId
  pub delivery_id : DeliveryId
  pub feedback_status : FeedbackRecordStatus
  pub delivery_status : DeliveryStatus
  pub audit_ref : AuditRef

abbrev pub feedback_record_recorded :
    FeedbackId → DeliveryId → DeliveryStatus → AuditRef → FeedbackRecordResult
feedback_record_recorded feedback_id delivery_id delivery_status audit_ref = record {
  feedback_id = feedback_id;
  delivery_id = delivery_id;
  feedback_status = FeedbackRecordStatus.recorded;
  delivery_status = delivery_status;
  audit_ref = audit_ref;
}

pub data BackendSignalStatus : Type 0 where
  recorded duplicate ignored : BackendSignalStatus

pub data BackendSignalNormalizedResult : Type 0 where
  ack fail : BackendSignalNormalizedResult

pub record BackendSignalResult : Type 0 where
  pub delivery_id : DeliveryId
  pub attempt_id : DeliveryAttemptId
  pub signal_status : BackendSignalStatus
  pub normalized_result : Option BackendSignalNormalizedResult
  pub feedback_id : Option FeedbackId
  pub audit_ref : AuditRef

abbrev pub backend_signal_recorded :
    DeliveryId
    → DeliveryAttemptId
    → BackendSignalNormalizedResult
    → FeedbackId
    → AuditRef
    → BackendSignalResult
backend_signal_recorded delivery_id attempt_id normalized_result feedback_id audit_ref = record {
  delivery_id = delivery_id;
  attempt_id = attempt_id;
  signal_status = BackendSignalStatus.recorded;
  normalized_result = some normalized_result;
  feedback_id = some feedback_id;
  audit_ref = audit_ref;
}

abbrev pub backend_signal_duplicate :
    DeliveryId
    → DeliveryAttemptId
    → BackendSignalNormalizedResult
    → FeedbackId
    → AuditRef
    → BackendSignalResult
backend_signal_duplicate delivery_id attempt_id normalized_result feedback_id audit_ref = record {
  delivery_id = delivery_id;
  attempt_id = attempt_id;
  signal_status = BackendSignalStatus.duplicate;
  normalized_result = some normalized_result;
  feedback_id = some feedback_id;
  audit_ref = audit_ref;
}

abbrev pub backend_signal_ignored : DeliveryId → DeliveryAttemptId → AuditRef → BackendSignalResult
backend_signal_ignored delivery_id attempt_id audit_ref = record {
  delivery_id = delivery_id;
  attempt_id = attempt_id;
  signal_status = BackendSignalStatus.ignored;
  normalized_result = none;
  feedback_id = none;
  audit_ref = audit_ref;
}

pub data TimeoutRecordStatus : Type 0 where
  timeout_recorded duplicate ignored : TimeoutRecordStatus

pub record TimeoutRecordResult : Type 0 where
  pub delivery_id : DeliveryId
  pub feedback_id : Option FeedbackId
  pub feedback_status : TimeoutRecordStatus
  pub recovery_candidate : Bool
  pub audit_ref : AuditRef

abbrev pub timeout_record_recorded : DeliveryId → FeedbackId → Bool → AuditRef → TimeoutRecordResult
timeout_record_recorded delivery_id feedback_id recovery_candidate audit_ref = record {
  delivery_id = delivery_id;
  feedback_id = some feedback_id;
  feedback_status = TimeoutRecordStatus.timeout_recorded;
  recovery_candidate = recovery_candidate;
  audit_ref = audit_ref;
}

abbrev pub timeout_record_duplicate :
    DeliveryId → FeedbackId → Bool → AuditRef → TimeoutRecordResult
timeout_record_duplicate delivery_id feedback_id recovery_candidate audit_ref = record {
  delivery_id = delivery_id;
  feedback_id = some feedback_id;
  feedback_status = TimeoutRecordStatus.duplicate;
  recovery_candidate = recovery_candidate;
  audit_ref = audit_ref;
}

abbrev pub timeout_record_ignored : DeliveryId → AuditRef → TimeoutRecordResult
timeout_record_ignored delivery_id audit_ref = record {
  delivery_id = delivery_id;
  feedback_id = none;
  feedback_status = TimeoutRecordStatus.ignored;
  recovery_candidate = false;
  audit_ref = audit_ref;
}

pub record DeadLetterResult : Type 0 where
  pub dead_letter_id : DeadLetterId
  pub delivery_id : DeliveryId
  pub dead_letter_status : DeadLetterStatus
  pub failure_material_ref : FailureMaterialRef
  pub audit_ref : AuditRef

abbrev pub dead_letter_opened :
    DeadLetterId → DeliveryId → FailureMaterialRef → AuditRef → DeadLetterResult
dead_letter_opened dead_letter_id delivery_id failure_material_ref audit_ref = record {
  dead_letter_id = dead_letter_id;
  delivery_id = delivery_id;
  dead_letter_status = DeadLetterStatus.open_entry;
  failure_material_ref = failure_material_ref;
  audit_ref = audit_ref;
}

pub record ReplayPreparationResult : Type 0 where
  pub replay_preparation_id : ReplayPreparationId
  pub dead_letter_id : DeadLetterId
  pub replay_preparation_status : ReplayPreparationStatus
  pub audit_ref : AuditRef

abbrev pub replay_preparation_ready :
    ReplayPreparationId → DeadLetterId → AuditRef → ReplayPreparationResult
replay_preparation_ready replay_preparation_id dead_letter_id audit_ref = record {
  replay_preparation_id = replay_preparation_id;
  dead_letter_id = dead_letter_id;
  replay_preparation_status = ReplayPreparationStatus.ready;
  audit_ref = audit_ref;
}

module _ ⦃core : Core⦄ where
  open core use {Timestamp}

  pub record RetryPlanResult : Type 0 where
    pub retry_plan_id : RetryPlanId
    pub delivery_id : DeliveryId
    pub retry_status : RetryPlanStatus
    pub remaining_attempts : AttemptCount
    pub next_run_at : Timestamp
    pub audit_ref : AuditRef

  abbrev pub retry_plan_scheduled :
      RetryPlanId → DeliveryId → AttemptCount → Timestamp → AuditRef → RetryPlanResult
  retry_plan_scheduled retry_plan_id delivery_id remaining_attempts next_run_at audit_ref = record {
    retry_plan_id = retry_plan_id;
    delivery_id = delivery_id;
    retry_status = RetryPlanStatus.scheduled;
    remaining_attempts = remaining_attempts;
    next_run_at = next_run_at;
    audit_ref = audit_ref;
  }
