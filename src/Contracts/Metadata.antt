-- ===== src/Contracts/Metadata.antt =====
-- The value objects of crates/contracts/src/metadata.rs. A `string_newtype!` is its text: `new` and
-- `as_str` are the identity, and so are the conversions `From` between two of them. A
-- `numeric_newtype!` over `u32` is its number, with the additions of an optimised build, which wrap.
use Prim.Native.Nat.{ℕ, ◌+◌, ◌%◌, ◌^◌}
use mathlib.Core.Bool.{Bool, ◌&&◌}
use mathlib.Core.Option.{Option}
use mathlib.Core.List.{[], ◌∷◌, ◌++◌}
use quantalithos_bus.Base.{◌==◌, if◌then◌else◌}
use quantalithos_bus.Base.Text.{Text, codes, is_ascii_alphanumeric, text_eq}
use quantalithos_bus.Contracts.Core.{Core}
use quantalithos_bus.Contracts.Status.{
  BackendKind, in_memory, BackendDeliveryStatus, JobTriggerSource,
}

abbrev pub AuditRef : Type 0
AuditRef = Text

abbrev pub AuthorizationRef : Type 0
AuthorizationRef = Text

abbrev pub AuditChainRef : Type 0
AuditChainRef = Text

abbrev pub BackendCapabilityId : Type 0
BackendCapabilityId = Text

abbrev pub BackendDeliveryRef : Type 0
BackendDeliveryRef = Text

abbrev pub BackendResultRef : Type 0
BackendResultRef = Text

abbrev pub BackendProfileRef : Type 0
BackendProfileRef = Text

abbrev pub CapabilityVersion : Type 0
CapabilityVersion = Text

abbrev pub CommittedOutboxFactRef : Type 0
CommittedOutboxFactRef = Text

abbrev pub CloseReason : Type 0
CloseReason = Text

abbrev pub CoreEventRef : Type 0
CoreEventRef = Text

abbrev pub CoreEventEnvelopeRef : Type 0
CoreEventEnvelopeRef = Text

abbrev pub DeadLetterId : Type 0
DeadLetterId = Text

abbrev pub DeadLetterRef : Type 0
DeadLetterRef = Text

abbrev pub DeliveryAttemptId : Type 0
DeliveryAttemptId = Text

abbrev pub DeliveryAttemptRef : Type 0
DeliveryAttemptRef = Text

abbrev pub DeliveryHistoryId : Type 0
DeliveryHistoryId = Text

abbrev pub DeliveryHistoryRef : Type 0
DeliveryHistoryRef = Text

abbrev pub DeliveryId : Type 0
DeliveryId = Text

abbrev pub FailureSummaryId : Type 0
FailureSummaryId = Text

abbrev pub EventId : Type 0
EventId = Text

abbrev pub EventSourceRef : Type 0
EventSourceRef = Text

abbrev pub FailureMaterialId : Type 0
FailureMaterialId = Text

abbrev pub ExternalFeedbackRef : Type 0
ExternalFeedbackRef = Text

abbrev pub FailureReason : Type 0
FailureReason = Text

abbrev pub FeedbackId : Type 0
FeedbackId = Text

abbrev pub FeedbackReason : Type 0
FeedbackReason = Text

abbrev pub HistoryReason : Type 0
HistoryReason = Text

abbrev pub OutboxFactRef : Type 0
OutboxFactRef = Text

abbrev pub PayloadDigest : Type 0
PayloadDigest = Text

abbrev pub PayloadRef : Type 0
PayloadRef = Text

abbrev pub PublicationAcceptanceId : Type 0
PublicationAcceptanceId = Text

abbrev pub PublicationId : Type 0
PublicationId = Text

abbrev pub ProjectionVersion : Type 0
ProjectionVersion = Text

abbrev pub RejectionReasonRef : Type 0
RejectionReasonRef = Text

abbrev pub RecoveryPolicyConfigRef : Type 0
RecoveryPolicyConfigRef = Text

abbrev pub RecoveryPolicyRef : Type 0
RecoveryPolicyRef = Text

abbrev pub RecoveryReason : Type 0
RecoveryReason = Text

abbrev pub ReplayApprovalRef : Type 0
ReplayApprovalRef = Text

abbrev pub ReplayPreparationId : Type 0
ReplayPreparationId = Text

abbrev pub ReplayPreparationRef : Type 0
ReplayPreparationRef = Text

abbrev pub ReplayRejectReason : Type 0
ReplayRejectReason = Text

abbrev pub RetryPlanId : Type 0
RetryPlanId = Text

abbrev pub RetryPolicyRef : Type 0
RetryPolicyRef = Text

abbrev pub RetryRequestReason : Type 0
RetryRequestReason = Text

abbrev pub DeadLetterReason : Type 0
DeadLetterReason = Text

abbrev pub OperatorNoteRef : Type 0
OperatorNoteRef = Text

abbrev pub ReplayReason : Type 0
ReplayReason = Text

abbrev pub SourceRecordRef : Type 0
SourceRecordRef = Text

abbrev pub SourceSystem : Type 0
SourceSystem = Text

abbrev pub SubscriberRef : Type 0
SubscriberRef = Text

abbrev pub TransportViewId : Type 0
TransportViewId = Text

abbrev pub TransportSemanticId : Type 0
TransportSemanticId = Text

abbrev pub DeliveryScanCursor : Type 0
DeliveryScanCursor = Text

abbrev pub RetryScanCursor : Type 0
RetryScanCursor = Text

abbrev pub OutboxCursor : Type 0
OutboxCursor = Text

abbrev pub FailureMaterialRef : Type 0
FailureMaterialRef = Text

abbrev pub ConsumerMarker : Type 0
ConsumerMarker = Text

abbrev pub AttemptCount : Type 0
AttemptCount = ℕ

abbrev pub AttemptLimit : Type 0
AttemptLimit = ℕ

abbrev pub AttemptNo : Type 0
AttemptNo = ℕ

abbrev pub PageLimit : Type 0
PageLimit = ℕ

abbrev pub u32_mod : ℕ
u32_mod = 2 ^ 32

unfoldable pub next_attempt_no : AttemptCount → AttemptNo
next_attempt_no n = (n + 1) % u32_mod

unfoldable pub increment : AttemptCount → AttemptCount
increment n = (n + 1) % u32_mod

unfoldable pub is_zero : AttemptLimit → Bool
is_zero n = n == 0

-- Letters and digits stay, all else becomes `_`.
unfoldable pub sanitize : Text → Text
sanitize [] = []
sanitize (c ∷ s) = (if is_ascii_alphanumeric c then c else b'_') ∷ sanitize s

unfoldable pub audit_chain_ref_from : AuditRef → AuditChainRef
audit_chain_ref_from audit_ref = codes "audit_chain_" ++ sanitize audit_ref

unfoldable pub transport_view_id_from : DeliveryId → TransportViewId
transport_view_id_from delivery_id = codes "transport_view_" ++ sanitize delivery_id

unfoldable pub failure_summary_id_from : FailureMaterialId → FailureSummaryId
failure_summary_id_from id = codes "failure_summary_" ++ sanitize id

unfoldable pub delivery_timeout : FailureReason
delivery_timeout = codes "delivery_timeout"

unfoldable pub dispatching_started : HistoryReason
dispatching_started = codes "dispatching_started"

unfoldable pub delivery_arrived : HistoryReason
delivery_arrived = codes "delivery_arrived"

unfoldable pub delivery_failed : HistoryReason
delivery_failed = codes "delivery_failed"

unfoldable pub retry_rescheduled : HistoryReason
retry_rescheduled = codes "retry_rescheduled"

unfoldable pub moved_to_dead_letter : HistoryReason
moved_to_dead_letter = codes "dead_lettered"

unfoldable pub backend_unavailable : FailureReason
backend_unavailable = codes "backend_unavailable"

unfoldable pub dispatch_failed : FailureReason
dispatch_failed = codes "dispatch_failed"

unfoldable pub feedback_ack : HistoryReason
feedback_ack = codes "feedback_ack"

unfoldable pub feedback_fail : HistoryReason
feedback_fail = codes "feedback_fail"

unfoldable pub feedback_timeout : HistoryReason
feedback_timeout = codes "feedback_timeout"

pub record TargetScope : Type 0 where
  pub project_id : Text
  pub topic : Text

pub record SubscriberScope : Type 0 where
  pub project_id : Text
  pub topic : Text

unfoldable pub subscriber_scope_from : TargetScope → SubscriberScope
subscriber_scope_from s = record { project_id = s.project_id; topic = s.topic }

unfoldable pub subscriber_scope_eq : SubscriberScope → SubscriberScope → Bool
subscriber_scope_eq a b = text_eq a.project_id b.project_id && text_eq a.topic b.topic

pub record BackendCapabilityRef : Type 0 where
  pub capability_id : BackendCapabilityId
  pub backend_kind : BackendKind
  pub profile_ref : BackendProfileRef
  pub capability_version : CapabilityVersion

backend_kind_name : BackendKind → Text
backend_kind_name in_memory = codes "in_memory"

unfoldable pub capability_from_profile :
    BackendProfileRef → BackendKind → CapabilityVersion → BackendCapabilityRef
unfolding backend_kind_name
capability_from_profile profile_ref kind version = record {
  capability_id =
      codes "capability_"
      ++ sanitize profile_ref
      ++ codes "_"
      ++ backend_kind_name kind
      ++ codes "_"
      ++ sanitize version;
  backend_kind = kind;
  profile_ref = profile_ref;
  capability_version = version;
}

-- The one backend kind equals itself.
unfoldable pub capability_eq : BackendCapabilityRef → BackendCapabilityRef → Bool
capability_eq a b =
    text_eq a.capability_id b.capability_id
    && text_eq a.profile_ref b.profile_ref
    && text_eq a.capability_version b.capability_version

pub record BackendDeliveryResult : Type 0 where
  pub status : BackendDeliveryStatus
  pub backend_ref : Option BackendDeliveryRef

module _ ⦃core : Core⦄ where
  open core use {TraceId, JobRunId}

  pub record JobMetadata : Type 0 where
    pub job_run_id : JobRunId
    pub trace_ref : TraceId
    pub trigger_source : JobTriggerSource

  pub record EventMetadata : Type 0 where
    pub trace_ref : TraceId

  abbrev pub event_metadata_from_job : JobMetadata → EventMetadata
  event_metadata_from_job meta = record { trace_ref = meta.trace_ref }
