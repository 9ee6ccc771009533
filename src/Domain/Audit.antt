-- ===== src/Domain/Audit.antt =====
-- crates/domain/src/audit.rs: the audit entries.
use quantalithos_bus.Base.Text.{Text, codes}
use quantalithos_bus.Contracts.Core.{Core}
use quantalithos_bus.Contracts.Status.{FeedbackStatus}
use quantalithos_bus.Contracts.Metadata.{
  AuditRef, DeadLetterId, DeliveryId, FailureReason, PublicationId, ReplayPreparationId,
  RetryPlanId,
}
use quantalithos_bus.Domain.Idempotency.Scope.{IdempotencyScope}
use quantalithos_bus.Domain.Publication.Acceptance.{PublicationRejectReason}

pub data PrivilegedAccessScope : Type 0 where
  failure_summary bus_audit_trail replay_preparation : PrivilegedAccessScope

pub data PrivilegedAccessRejectionReason : Type 0 where
  missing_authorization_ref missing_role_hint : PrivilegedAccessRejectionReason

pub data PrivilegedAccessDecision : Type 0 where
  granted : PrivilegedAccessDecision
  rejected : PrivilegedAccessRejectionReason → PrivilegedAccessDecision

pub data AuditAction : Type 0 where
  publication_accepted : AuditAction
  publication_rejected : PublicationRejectReason → AuditAction
  delivery_dispatch_started delivery_delivered : AuditAction
  delivery_failed : FailureReason → AuditAction
  feedback_recorded : FeedbackStatus → AuditAction
  retry_requested retry_attempted retry_exhausted : AuditAction
  dead_letter_created replay_preparation_ready : AuditAction
  privileged_access : PrivilegedAccessScope → PrivilegedAccessDecision → AuditAction
  backend_signal_ignored timeout_signal_ignored idempotency_conflict : AuditAction

-- The inner `match` of `event_kind`.
access_kind : PrivilegedAccessScope → PrivilegedAccessDecision → Text
access_kind failure_summary granted = codes "failure_summary_access_granted"
access_kind failure_summary (rejected r) = codes "failure_summary_access_rejected"
access_kind bus_audit_trail granted = codes "bus_audit_trail_access_granted"
access_kind bus_audit_trail (rejected r) = codes "bus_audit_trail_access_rejected"
access_kind replay_preparation granted = codes "replay_preparation_access_granted"
access_kind replay_preparation (rejected r) = codes "replay_preparation_access_rejected"

unfoldable pub event_kind : AuditAction → Text
unfolding access_kind
event_kind publication_accepted = codes "publication_accepted"
event_kind (publication_rejected r) = codes "publication_rejected"
event_kind delivery_dispatch_started = codes "delivery_dispatch_started"
event_kind delivery_delivered = codes "delivery_delivered"
event_kind (delivery_failed r) = codes "delivery_failed"
event_kind (feedback_recorded s) = codes "feedback_recorded"
event_kind retry_requested = codes "retry_requested"
event_kind retry_attempted = codes "retry_attempted"
event_kind retry_exhausted = codes "retry_exhausted"
event_kind dead_letter_created = codes "dead_letter_created"
event_kind replay_preparation_ready = codes "replay_preparation_ready"
event_kind (privileged_access scope decision) = access_kind scope decision
event_kind backend_signal_ignored = codes "backend_signal_ignored"
event_kind timeout_signal_ignored = codes "timeout_signal_ignored"
event_kind idempotency_conflict = codes "idempotency_conflict"

module _ ⦃core : Core⦄ where
  open core use {ActorContext, Timestamp, TraceId, IdempotencyKey, key_as_str}

  pub data SubjectRef : Type 0 where
    publication : PublicationId → SubjectRef
    delivery : DeliveryId → SubjectRef
    read_output : Text → SubjectRef
    retry_plan : RetryPlanId → SubjectRef
    dead_letter : DeadLetterId → SubjectRef
    replay : ReplayPreparationId → SubjectRef
    idempotency_key : IdempotencyScope → IdempotencyKey → SubjectRef

  unfoldable pub record_ref : SubjectRef → Text
  record_ref (publication id) = id
  record_ref (delivery id) = id
  record_ref (read_output ref) = ref
  record_ref (retry_plan id) = id
  record_ref (dead_letter id) = id
  record_ref (replay id) = id
  record_ref (idempotency_key scope key) = key_as_str key

  pub record BusAuditEntry : Type 0 where
    pub audit_ref : AuditRef
    pub subject_ref : SubjectRef
    pub action : AuditAction
    pub actor : ActorContext
    pub occurred_at : Timestamp
    pub trace_ref : TraceId
