-- ===== src/Infra/Store.antt =====
-- crates/infra/src/store.rs: the state of the in-memory store. Each method locks the whole state, so a method
-- is a function from the state to the state it leaves and its result.
pub mod Transactions
pub mod Staging
pub mod RecoveryStaging
pub mod Seeds
pub mod Queries
pub mod Calls
pub mod Isolation
pub mod Closing
pub mod Consistency
pub mod Saving
pub mod Uniqueness
pub mod Racing
use quantalithos_bus.Base.{
  ℕ, ◌≡◌, ◌↔◌, Bool, false, ◌&&◌, Option, none, some, List, [], arith, Result, ok, err,
}
use quantalithos_bus.Base.Maps.{MapKey, Map, get, insert, text_key, id_key, pair_key}
use quantalithos_bus.Contracts.Core.{Core}
use quantalithos_bus.Contracts.Metadata.{
  DeadLetterId, DeliveryId, ExternalFeedbackRef, FailureMaterialId, FailureSummaryId, FeedbackId,
  ProjectionVersion, PublicationId, ReplayApprovalRef, ReplayPreparationId, RetryPlanId,
  TransportViewId,
}
use quantalithos_bus.Contracts.Projections.{BackendId, BackendHealthView}
use quantalithos_bus.Application.Ports.{UnitOfWorkPurpose, RepositoryError}
use quantalithos_bus.Domain.Audit.{BusAuditEntry}
use quantalithos_bus.Domain.Delivery.{DeliveryRecord}
use quantalithos_bus.Domain.Feedback.{FeedbackResult}
use quantalithos_bus.Domain.Idempotency.Scope.{IdempotencyScope, scope_eq, scope_eq_iff}
use quantalithos_bus.Domain.Idempotency.Digest.{IdempotencyAnchor, IdempotencyConflict}
use quantalithos_bus.Domain.Publication.Acceptance.{PublicationAcceptance}
use quantalithos_bus.Domain.Publication.Material.{PublicationMaterial}
use quantalithos_bus.Domain.ReadOutput.{FailureSummaryProjection, TransportViewProjection}
use quantalithos_bus.Domain.Recovery.DeadLetter.{DeadLetterEntry}
use quantalithos_bus.Domain.Recovery.Failure.{FailureMaterial}
use quantalithos_bus.Domain.Recovery.Replay.{ReplayPreparation}
use quantalithos_bus.Domain.Recovery.Retry.{RetryPlan}

abbrev scope_key : MapKey IdempotencyScope
scope_key = record { same = scope_eq; before = λ a b. false; same_iff = scope_eq_iff }

module _ ⦃core : Core⦄ where
  open core use {IdempotencyKey, key_eq, key_eq_iff, Version, version_zero, next_version}

  abbrev pub anchor_key : MapKey (IdempotencyScope × IdempotencyKey)
  anchor_key =
      pair_key ⦃k = scope_key⦄
        ⦃l = record { same = key_eq; before = λ a b. false; same_iff = key_eq_iff }⦄

  pub record StagedTransaction : Type 0 where
    pub purpose : Option UnitOfWorkPurpose
    pub deliveries : Map DeliveryId DeliveryRecord
    pub feedbacks : Map FeedbackId FeedbackResult
    pub feedback_sources : Map (DeliveryId × ExternalFeedbackRef) FeedbackId
    pub publications : Map PublicationId PublicationAcceptance
    pub publication_materials : Map PublicationId PublicationMaterial
    pub transport_view_projections : Map TransportViewId TransportViewProjection
    pub failure_summary_projections : Map FailureSummaryId FailureSummaryProjection
    pub backend_health_views : Map BackendId BackendHealthView
    pub retry_plans : Map RetryPlanId RetryPlan
    pub dead_letters : Map DeadLetterId DeadLetterEntry
    pub replay_preparations : Map ReplayPreparationId ReplayPreparation
    pub failure_materials : Map FailureMaterialId FailureMaterial
    pub anchors : Map (IdempotencyScope × IdempotencyKey) IdempotencyAnchor
    pub conflicts : List IdempotencyConflict
    pub audits : List BusAuditEntry

  -- `StagedTransaction { _purpose: Some(purpose), ..StagedTransaction::default() }`.
  unfoldable pub staged_new : UnitOfWorkPurpose → StagedTransaction
  staged_new purpose = record {
    purpose = some purpose;
    deliveries = [];
    feedbacks = [];
    feedback_sources = [];
    publications = [];
    publication_materials = [];
    transport_view_projections = [];
    failure_summary_projections = [];
    backend_health_views = [];
    retry_plans = [];
    dead_letters = [];
    replay_preparations = [];
    failure_materials = [];
    anchors = [];
    conflicts = [];
    audits = [];
  }

  pub record MemoryStore : Type 0 where
    pub next_transaction_id : ℕ
    pub next_audit_sequence : ℕ
    pub deliveries : Map DeliveryId DeliveryRecord
    pub delivery_versions : Map DeliveryId Version
    pub feedbacks : Map FeedbackId FeedbackResult
    pub feedback_versions : Map FeedbackId Version
    pub feedback_sources : Map (DeliveryId × ExternalFeedbackRef) FeedbackId
    pub publications : Map PublicationId PublicationAcceptance
    pub publication_materials : Map PublicationId PublicationMaterial
    pub publication_versions : Map PublicationId Version
    pub transport_view_projections : Map TransportViewId TransportViewProjection
    pub failure_summary_projections : Map FailureSummaryId FailureSummaryProjection
    pub failure_summary_versions : Map FailureSummaryId ProjectionVersion
    pub backend_health_views : Map BackendId BackendHealthView
    pub backend_health_versions : Map BackendId ProjectionVersion
    pub retry_plans : Map RetryPlanId RetryPlan
    pub retry_plan_versions : Map RetryPlanId Version
    pub active_retry_plans : Map DeliveryId RetryPlanId
    pub dead_letters : Map DeadLetterId DeadLetterEntry
    pub dead_letter_versions : Map DeadLetterId Version
    pub active_dead_letters : Map DeliveryId DeadLetterId
    pub replay_preparations : Map ReplayPreparationId ReplayPreparation
    pub replay_preparation_versions : Map ReplayPreparationId Version
    pub replay_ready_by_dead_letter_approval :
        Map (DeadLetterId × ReplayApprovalRef) ReplayPreparationId
    pub failure_materials : Map FailureMaterialId FailureMaterial
    pub failure_material_versions : Map FailureMaterialId Version
    pub anchors : Map (IdempotencyScope × IdempotencyKey) IdempotencyAnchor
    pub conflicts : List IdempotencyConflict
    pub audits : List BusAuditEntry
    pub transactions : Map ℕ StagedTransaction

  -- `MemoryStoreInner::default()`.
  abbrev pub store_new : MemoryStore
  store_new = record {
    next_transaction_id = 0;
    next_audit_sequence = 0;
    deliveries = [];
    delivery_versions = [];
    feedbacks = [];
    feedback_versions = [];
    feedback_sources = [];
    publications = [];
    publication_materials = [];
    publication_versions = [];
    transport_view_projections = [];
    failure_summary_projections = [];
    failure_summary_versions = [];
    backend_health_views = [];
    backend_health_versions = [];
    retry_plans = [];
    retry_plan_versions = [];
    active_retry_plans = [];
    dead_letters = [];
    dead_letter_versions = [];
    active_dead_letters = [];
    replay_preparations = [];
    replay_preparation_versions = [];
    replay_ready_by_dead_letter_approval = [];
    failure_materials = [];
    failure_material_versions = [];
    anchors = [];
    conflicts = [];
    audits = [];
    transactions = [];
  }

  -- The literal 1.
  abbrev pub version_one : Version
  version_one = next_version version_zero
