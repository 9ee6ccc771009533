-- ===== src/Infra/Store/Calls.antt =====
-- The staging calls of a transaction, as values.
use quantalithos_bus.Base.{ℕ, Option, List, [], ◌∷◌}
use quantalithos_bus.Base.Maps.{text_key, id_key, pair_key}
use quantalithos_bus.Contracts.Core.{Core}
use quantalithos_bus.Contracts.Projections.{BackendHealthView}
use quantalithos_bus.Domain.Audit.{BusAuditEntry}
use quantalithos_bus.Domain.Delivery.{DeliveryRecord}
use quantalithos_bus.Domain.Feedback.{FeedbackResult}
use quantalithos_bus.Domain.Idempotency.Scope.{IdempotencyScope}
use quantalithos_bus.Domain.Idempotency.Digest.{IdempotencyAnchor, IdempotencyConflict}
use quantalithos_bus.Domain.Publication.Acceptance.{PublicationAcceptance}
use quantalithos_bus.Domain.Publication.Material.{PublicationMaterial}
use quantalithos_bus.Domain.ReadOutput.{FailureSummaryProjection, TransportViewProjection}
use quantalithos_bus.Domain.Recovery.DeadLetter.{DeadLetterEntry}
use quantalithos_bus.Domain.Recovery.Failure.{FailureMaterial}
use quantalithos_bus.Domain.Recovery.Replay.{ReplayPreparation}
use quantalithos_bus.Domain.Recovery.Retry.{RetryPlan}
use quantalithos_bus.Infra.Store.{MemoryStore}
use quantalithos_bus.Infra.Store.Staging.{
  stage_publication, stage_publication_material, stage_idempotency_anchor,
  stage_idempotency_conflict, stage_audit_entry, stage_feedback, stage_delivery_save,
  stage_transport_view_projection, stage_failure_summary_projection, stage_backend_health_view,
}
use quantalithos_bus.Infra.Store.RecoveryStaging.{
  stage_retry_plan_save, stage_dead_letter_save, stage_replay_preparation_save,
}

module _ ⦃core : Core⦄ where
  open core use {IdempotencyKey, Version}

  pub data StageCall : Type 0 where
    stages_publication : PublicationAcceptance → StageCall
    stages_material : PublicationMaterial → StageCall
    stages_anchor : IdempotencyAnchor → StageCall
    stages_conflict : IdempotencyScope → IdempotencyKey → IdempotencyConflict → StageCall
    stages_audit : BusAuditEntry → StageCall
    stages_feedback : FeedbackResult → StageCall
    saves_delivery : DeliveryRecord → Version → StageCall
    saves_retry_plan : RetryPlan → Option Version → StageCall
    saves_dead_letter : DeadLetterEntry → FailureMaterial → StageCall
    saves_replay : ReplayPreparation → StageCall
    stages_view : TransportViewProjection → StageCall
    stages_summary : FailureSummaryProjection → StageCall
    stages_health : BackendHealthView → StageCall

  -- The state that a staging call leaves.
  unfoldable pub stage : MemoryStore → ℕ → StageCall → MemoryStore
  unfolding stage_publication stage_publication_material stage_idempotency_anchor
      stage_idempotency_conflict stage_audit_entry stage_feedback stage_delivery_save
      stage_retry_plan_save stage_dead_letter_save stage_replay_preparation_save
      stage_transport_view_projection stage_failure_summary_projection stage_backend_health_view
  stage s id (stages_publication a) = (stage_publication s id a).0
  stage s id (stages_material m) = (stage_publication_material s id m).0
  stage s id (stages_anchor a) = (stage_idempotency_anchor s id a).0
  stage s id (stages_conflict scope key c) = (stage_idempotency_conflict s id scope key c).0
  stage s id (stages_audit e) = (stage_audit_entry s id e).0
  stage s id (stages_feedback f) = (stage_feedback s id f).0
  stage s id (saves_delivery d v) = (stage_delivery_save s id d v).0
  stage s id (saves_retry_plan p v) = (stage_retry_plan_save s id p v).0
  stage s id (saves_dead_letter e m) = (stage_dead_letter_save s id e m).0
  stage s id (saves_replay p) = (stage_replay_preparation_save s id p).0
  stage s id (stages_view p) = (stage_transport_view_projection s id p).0
  stage s id (stages_summary p) = (stage_failure_summary_projection s id p).0
  stage s id (stages_health v) = (stage_backend_health_view s id v).0

  unfoldable pub stage_all : MemoryStore → ℕ → List StageCall → MemoryStore
  unfolding stage
  stage_all s id [] = s
  stage_all s id (c ∷ calls) = stage_all (stage s id c) id calls
