-- ===== src/Infra/Store/Staging.antt =====
-- crates/infra/src/store.rs: staging writes in an open transaction.
use quantalithos_bus.Base.{
  ℕ, ◌+◌, ◌%◌, not, ◌||◌, Option, none, some, [], ◌∷◌, ◌++◌, if◌then◌else◌, Result, ok, err,
}
use mathlib.Core.Option.{get_or}
use quantalithos_bus.Base.Maps.{get, insert, contains_key, text_key, id_key, pair_key}
use quantalithos_bus.Contracts.Core.{Core}
use quantalithos_bus.Contracts.Metadata.{DeliveryId, ExternalFeedbackRef, ProjectionVersion}
use quantalithos_bus.Contracts.Projections.{BackendHealthView, next_after, u64_mod}
use quantalithos_bus.Application.Ports.{RepositoryError}
use quantalithos_bus.Domain.Audit.{BusAuditEntry}
use quantalithos_bus.Domain.Delivery.{DeliveryRecord}
use quantalithos_bus.Domain.Feedback.{FeedbackResult}
use quantalithos_bus.Domain.Idempotency.Scope.{IdempotencyScope}
use quantalithos_bus.Domain.Idempotency.Digest.{IdempotencyAnchor, IdempotencyConflict}
use quantalithos_bus.Domain.Publication.Acceptance.{PublicationAcceptance}
use quantalithos_bus.Domain.Publication.Material.{PublicationMaterial}
use quantalithos_bus.Domain.ReadOutput.{FailureSummaryProjection, TransportViewProjection}
use quantalithos_bus.Infra.Store.{MemoryStore, StagedTransaction, anchor_key}
use quantalithos_bus.Infra.Store.Queries.{delivery}

module _ ⦃core : Core⦄ where
  open core use {IdempotencyKey, Version, version_zero, next_version, version_eq}

  -- `inner.transactions.get_mut(&transaction_id).ok_or(Unavailable)?` and what follows, which either
  -- fails or writes the staged transaction.
  unfoldable pub store_staged :
      {A : Type 0}
      → MemoryStore
      → ℕ
      → Result RepositoryError (StagedTransaction × A)
      → MemoryStore × Result RepositoryError A
  unfolding insert
  store_staged inner transaction_id (err e) = (inner, err e)
  store_staged inner transaction_id (ok (staged, result)) =
      (record inner { transactions = insert transaction_id staged inner.transactions }, ok result)

  unfoldable pub with_found :
      {A : Type 0}
      → MemoryStore
      → ℕ
      → (StagedTransaction → Result RepositoryError (StagedTransaction × A))
      → Option StagedTransaction
      → MemoryStore × Result RepositoryError A
  unfolding store_staged
  with_found inner transaction_id body none = (inner, err RepositoryError.unavailable)
  with_found inner transaction_id body (some staged) =
      store_staged inner transaction_id (body staged)

  unfoldable pub with_staged :
      {A : Type 0}
      → MemoryStore
      → ℕ
      → (StagedTransaction → Result RepositoryError (StagedTransaction × A))
      → MemoryStore × Result RepositoryError A
  unfolding with_found get
  with_staged inner transaction_id body =
      with_found inner transaction_id body (get transaction_id inner.transactions)

  unfoldable pub stage_publication :
      MemoryStore → ℕ → PublicationAcceptance → MemoryStore × Result RepositoryError Version
  unfolding with_staged contains_key insert get
  stage_publication inner transaction_id acceptance =
      if contains_key acceptance.publication_id inner.publications
      then (inner, err RepositoryError.unique_violation)
      else with_staged inner transaction_id (λ staged.
        if contains_key acceptance.publication_id staged.publications
        then err RepositoryError.unique_violation
        else ok (
          record staged {
            publications = insert acceptance.publication_id acceptance staged.publications;
          },
          next_version
              (get_or (get acceptance.publication_id inner.publication_versions) version_zero),
        ))

  unfoldable pub stage_publication_material :
      MemoryStore → ℕ → PublicationMaterial → MemoryStore × Result RepositoryError (Unit {0})
  unfolding with_staged contains_key insert
  stage_publication_material inner transaction_id material =
      if contains_key material.publication_id inner.publication_materials
      then (inner, err RepositoryError.unique_violation)
      else with_staged inner transaction_id (λ staged.
        if contains_key material.publication_id staged.publication_materials
        then err RepositoryError.unique_violation
        else ok (
          record staged {
            publication_materials =
                insert material.publication_id material staged.publication_materials;
          },
          tt,
        ))

  unfoldable pub stage_idempotency_anchor :
      MemoryStore → ℕ → IdempotencyAnchor → MemoryStore × Result RepositoryError (Unit {0})
  unfolding with_staged contains_key insert
  stage_idempotency_anchor inner transaction_id anchor =
      let key : IdempotencyScope × IdempotencyKey = (anchor.scope, anchor.key) in
      if contains_key ⦃key = anchor_key⦄ key inner.anchors
      then (inner, err RepositoryError.unique_violation)
      else with_staged inner transaction_id (λ staged.
        if contains_key ⦃key = anchor_key⦄ key staged.anchors
        then err RepositoryError.unique_violation
        else ok
            (record staged { anchors = insert ⦃key = anchor_key⦄ key anchor staged.anchors }, tt))

  unfoldable pub stage_idempotency_conflict :
      MemoryStore
      → ℕ
      → IdempotencyScope
      → IdempotencyKey
      → IdempotencyConflict
      → MemoryStore × Result RepositoryError (Unit {0})
  unfolding with_staged
  stage_idempotency_conflict inner transaction_id scope key conflict =
      with_staged inner transaction_id
        (λ staged. ok (record staged { conflicts = staged.conflicts ++ conflict ∷ [] }, tt))

  unfoldable pub stage_audit_entry :
      MemoryStore → ℕ → BusAuditEntry → MemoryStore × Result RepositoryError ℕ
  unfolding with_staged
  stage_audit_entry inner transaction_id entry =
      let next_sequence = (inner.next_audit_sequence + 1) % u64_mod in
      with_staged inner transaction_id
        (λ staged. ok (record staged { audits = staged.audits ++ entry ∷ [] }, next_sequence))

  unfoldable pub stage_feedback :
      MemoryStore → ℕ → FeedbackResult → MemoryStore × Result RepositoryError Version
  unfolding with_staged contains_key insert get
  stage_feedback inner transaction_id feedback =
      let source_key : DeliveryId × ExternalFeedbackRef =
        (feedback.delivery_id, feedback.source.external_feedback_ref) in
      let new_version =
        next_version (get_or (get feedback.feedback_id inner.feedback_versions) version_zero) in
      if contains_key feedback.feedback_id inner.feedbacks
      then (inner, err RepositoryError.unique_violation)
      else if contains_key source_key inner.feedback_sources
      then (inner, err RepositoryError.unique_violation)
      else with_staged inner transaction_id (λ staged.
        if contains_key feedback.feedback_id staged.feedbacks
          || contains_key source_key staged.feedback_sources
        then err RepositoryError.unique_violation
        else ok (
          record staged {
            feedback_sources = insert source_key feedback.feedback_id staged.feedback_sources;
            feedbacks =
                insert feedback.feedback_id (record feedback { version = new_version })
                  staged.feedbacks;
          },
          new_version,
        ))

  -- `stage_delivery_save` on the committed version that it finds.
  unfoldable pub save_found :
      MemoryStore
      → ℕ
      → DeliveryRecord
      → Version
      → Option Version
      → MemoryStore × Result RepositoryError Version
  unfolding with_staged insert
  save_found inner transaction_id delivery expected_version none =
      (inner, err RepositoryError.version_conflict)
  save_found inner transaction_id delivery expected_version (some committed_version) =
      if not (version_eq committed_version expected_version)
      then (inner, err RepositoryError.version_conflict)
      else with_staged inner transaction_id (λ staged. ok (
        record staged {
          deliveries =
              insert delivery.delivery_id
                (record delivery { version = next_version expected_version }) staged.deliveries;
        },
        next_version expected_version,
      ))

  unfoldable pub stage_delivery_save :
      MemoryStore → ℕ → DeliveryRecord → Version → MemoryStore × Result RepositoryError Version
  unfolding save_found get
  stage_delivery_save inner transaction_id delivery expected_version =
      save_found inner transaction_id delivery expected_version
        (get delivery.delivery_id inner.delivery_versions)

  unfoldable pub stage_transport_view_projection :
      MemoryStore
      → ℕ
      → TransportViewProjection
      → MemoryStore × Result RepositoryError ProjectionVersion
  unfolding with_staged insert get next_after
  stage_transport_view_projection inner transaction_id projection =
      let current : Option ProjectionVersion =
        elim (get projection.view_id inner.transport_view_projections) [
          | none ↦ none
          | some value ↦ some value.version
        ] in
      with_staged inner transaction_id (λ staged. ok (
        record staged {
          transport_view_projections =
              insert projection.view_id (record projection { version = next_after current })
                staged.transport_view_projections;
        },
        next_after current,
      ))

  unfoldable pub stage_failure_summary_projection :
      MemoryStore
      → ℕ
      → FailureSummaryProjection
      → MemoryStore × Result RepositoryError ProjectionVersion
  unfolding with_staged insert get next_after
  stage_failure_summary_projection inner transaction_id projection =
      let version = next_after (get projection.summary_id inner.failure_summary_versions) in
      with_staged inner transaction_id (λ staged. ok (
        record staged {
          failure_summary_projections =
              insert projection.summary_id projection staged.failure_summary_projections;
        },
        version,
      ))

  unfoldable pub stage_backend_health_view :
      MemoryStore → ℕ → BackendHealthView → MemoryStore × Result RepositoryError ProjectionVersion
  unfolding with_staged insert get next_after
  stage_backend_health_view inner transaction_id view =
      let version = next_after (get view.backend_id inner.backend_health_versions) in
      with_staged inner transaction_id (λ staged. ok (
        record staged {
          backend_health_views = insert view.backend_id view staged.backend_health_views;
        },
        version,
      ))
