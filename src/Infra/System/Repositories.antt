-- ===== src/Infra/System/Repositories.antt =====
-- crates/infra/src/repositories.rs: the repositories over the shared store.
use quantalithos_bus.Base.{ℕ, Option, none, some, List, [], err}
use quantalithos_bus.Base.Actions.{Action, gets}
use quantalithos_bus.Base.Maps.{get, text_key}
use quantalithos_bus.Contracts.Core.{Core}
use quantalithos_bus.Contracts.Metadata.{
  AuditChainRef, DeadLetterId, DeliveryId, DeliveryScanCursor, RetryScanCursor, PageLimit,
  FailureMaterialId, FailureSummaryId, FeedbackId, ProjectionVersion, PublicationId,
  TransportViewId,
}
use quantalithos_bus.Contracts.Projections.{BackendId, BackendHealthView}
use quantalithos_bus.Application.Ports.{UnitOfWorkHandle, RepositoryError}
use quantalithos_bus.Domain.Audit.{BusAuditEntry}
use quantalithos_bus.Infra.Store.Queries.{AuditChain}
use quantalithos_bus.Domain.Delivery.{DeliveryRecord}
use quantalithos_bus.Domain.Delivery.History.{DeliveryHistoryEntry}
use quantalithos_bus.Domain.Feedback.{FeedbackResult}
use quantalithos_bus.Domain.Idempotency.Scope.{IdempotencyScope}
use quantalithos_bus.Domain.Idempotency.Digest.{IdempotencyAnchor, IdempotencyConflict}
use quantalithos_bus.Domain.Publication.Acceptance.{PublicationAcceptance}
use quantalithos_bus.Domain.Publication.Material.{PublicationMaterial}
use quantalithos_bus.Domain.ReadOutput.{FailureSummaryProjection, TransportViewProjection}
use quantalithos_bus.Domain.Recovery.DeadLetter.{DeadLetterEntry}
use quantalithos_bus.Domain.Recovery.Failure.{FailureMaterial}
use quantalithos_bus.Domain.Recovery.Replay.{ReplayPreparation}
use quantalithos_bus.Domain.Recovery.Retry.{RetryPlan}
use quantalithos_bus.Infra.System.{System, on_store}
use quantalithos_bus.Infra.Store.Staging.{
  stage_publication, stage_publication_material, stage_idempotency_anchor,
  stage_idempotency_conflict, stage_audit_entry, stage_feedback, stage_delivery_save,
  stage_transport_view_projection, stage_failure_summary_projection, stage_backend_health_view,
}
use quantalithos_bus.Infra.Store.RecoveryStaging.{
  stage_retry_plan_save, stage_dead_letter_save, stage_replay_preparation_save,
}
use quantalithos_bus.Infra.Store.Seeds.{append_access_audit_entry}
use quantalithos_bus.Infra.Store.Queries.{
  publication, idempotency_anchor, delivery, due_retry_plans, schedulable_deliveries, audit_chain,
}

module _ ⦃core : Core⦄ where
  open core use {IdempotencyKey, Version, Timestamp}

  abbrev pub Repository : Type 0 → Type 0
  Repository A = Action System RepositoryError A

  unfoldable pub publication_store_material :
      PublicationMaterial → UnitOfWorkHandle → Repository (Unit {0})
  unfolding on_store stage_publication_material
  publication_store_material material uow =
      on_store (λ store. stage_publication_material store uow.transaction_id material)

  unfoldable pub publication_insert : PublicationAcceptance → UnitOfWorkHandle → Repository Version
  unfolding on_store stage_publication
  publication_insert acceptance uow =
      on_store (λ store. stage_publication store uow.transaction_id acceptance)

  unfoldable pub publication_get : PublicationId → Repository (Option PublicationAcceptance)
  unfolding gets publication
  publication_get publication_id = gets (λ system. publication system.store publication_id)

  unfoldable pub idempotency_find :
      IdempotencyScope → IdempotencyKey → Repository (Option IdempotencyAnchor)
  unfolding gets idempotency_anchor
  idempotency_find scope key = gets (λ system. idempotency_anchor system.store scope key)

  unfoldable pub idempotency_bind : IdempotencyAnchor → UnitOfWorkHandle → Repository (Unit {0})
  unfolding on_store stage_idempotency_anchor
  idempotency_bind anchor uow =
      on_store (λ store. stage_idempotency_anchor store uow.transaction_id anchor)

  unfoldable pub idempotency_mark_conflict :
      IdempotencyScope
      → IdempotencyKey
      → IdempotencyConflict
      → UnitOfWorkHandle
      → Repository (Unit {0})
  unfolding on_store stage_idempotency_conflict
  idempotency_mark_conflict scope key conflict uow =
      on_store (λ store. stage_idempotency_conflict store uow.transaction_id scope key conflict)

  -- `append` and `append_access`, on what `take_append_failpoint` gives.
  unfoldable pub append_taken :
      BusAuditEntry → UnitOfWorkHandle → Option RepositoryError → Repository ℕ
  unfolding on_store stage_audit_entry
  append_taken entry uow (some error) system =
      (record system { fail_next_append = none }, err error)
  append_taken entry uow none system =
      on_store (λ store. stage_audit_entry store uow.transaction_id entry) system

  unfoldable pub audit_append : BusAuditEntry → UnitOfWorkHandle → Repository ℕ
  unfolding append_taken
  audit_append entry uow system = append_taken entry uow system.fail_next_append system

  unfoldable pub append_access_taken : BusAuditEntry → Option RepositoryError → Repository ℕ
  unfolding on_store append_access_audit_entry
  append_access_taken entry (some error) system =
      (record system { fail_next_append = none }, err error)
  append_access_taken entry none system =
      on_store (λ store. append_access_audit_entry store entry) system

  unfoldable pub audit_append_access : BusAuditEntry → Repository ℕ
  unfolding append_access_taken
  audit_append_access entry system = append_access_taken entry system.fail_next_append system

  unfoldable pub audit_load_chain : AuditChainRef → Repository AuditChain
  unfolding gets audit_chain
  audit_load_chain chain_ref = gets (λ system. audit_chain system.store chain_ref)

  unfoldable pub feedback_insert : FeedbackResult → UnitOfWorkHandle → Repository Version
  unfolding on_store stage_feedback
  feedback_insert feedback uow =
      on_store (λ store. stage_feedback store uow.transaction_id feedback)

  unfoldable pub feedback_get : FeedbackId → Repository (Option FeedbackResult)
  unfolding gets get
  feedback_get feedback_id = gets (λ system. get feedback_id system.store.feedbacks)

  unfoldable pub delivery_get : DeliveryId → Repository (Option DeliveryRecord)
  unfolding gets delivery
  delivery_get delivery_id = gets (λ system. delivery system.store delivery_id)

  unfoldable pub delivery_get_for_update :
      DeliveryId → UnitOfWorkHandle → Repository (Option DeliveryRecord)
  unfolding gets delivery
  delivery_get_for_update delivery_id uow = gets (λ system. delivery system.store delivery_id)

  unfoldable pub delivery_save : DeliveryRecord → Version → UnitOfWorkHandle → Repository Version
  unfolding on_store stage_delivery_save
  delivery_save delivery expected_version uow =
      on_store (λ store. stage_delivery_save store uow.transaction_id delivery expected_version)

  unfoldable pub delivery_find_schedulable :
      DeliveryScanCursor → ℕ → Repository (List DeliveryRecord)
  unfolding gets schedulable_deliveries
  delivery_find_schedulable cursor limit =
      gets (λ system. schedulable_deliveries system.store cursor limit)

  abbrev history_of : Option DeliveryRecord → List DeliveryHistoryEntry
  history_of none = []
  history_of (some delivery) = delivery.history

  unfoldable pub delivery_load_history : DeliveryId → Repository (List DeliveryHistoryEntry)
  unfolding gets delivery
  delivery_load_history delivery_id =
      gets (λ system. history_of (delivery system.store delivery_id))

  unfoldable pub projection_upsert_transport_view :
      TransportViewProjection → UnitOfWorkHandle → Repository ProjectionVersion
  unfolding on_store stage_transport_view_projection
  projection_upsert_transport_view projection uow =
      on_store (λ store. stage_transport_view_projection store uow.transaction_id projection)

  unfoldable pub projection_upsert_failure_summary :
      FailureSummaryProjection → UnitOfWorkHandle → Repository ProjectionVersion
  unfolding on_store stage_failure_summary_projection
  projection_upsert_failure_summary projection uow =
      on_store (λ store. stage_failure_summary_projection store uow.transaction_id projection)

  unfoldable pub projection_upsert_backend_health :
      BackendHealthView → UnitOfWorkHandle → Repository ProjectionVersion
  unfolding on_store stage_backend_health_view
  projection_upsert_backend_health view uow =
      on_store (λ store. stage_backend_health_view store uow.transaction_id view)

  unfoldable pub projection_get_transport_view :
      TransportViewId → Repository (Option TransportViewProjection)
  unfolding gets get
  projection_get_transport_view transport_view_id =
      gets (λ system. get transport_view_id system.store.transport_view_projections)

  unfoldable pub projection_get_failure_summary :
      FailureSummaryId → Repository (Option FailureSummaryProjection)
  unfolding gets get
  projection_get_failure_summary failure_summary_id =
      gets (λ system. get failure_summary_id system.store.failure_summary_projections)

  unfoldable pub projection_get_backend_health : BackendId → Repository (Option BackendHealthView)
  unfolding gets get
  projection_get_backend_health backend_id =
      gets (λ system. get backend_id system.store.backend_health_views)

  unfoldable pub recovery_save_retry_plan :
      RetryPlan → Option Version → UnitOfWorkHandle → Repository Version
  unfolding on_store stage_retry_plan_save
  recovery_save_retry_plan retry_plan expected_version uow =
      on_store (λ store. stage_retry_plan_save store uow.transaction_id retry_plan expected_version)

  unfoldable pub recovery_find_due_retry :
      RetryScanCursor → PageLimit → Timestamp → Repository (List RetryPlan)
  unfolding gets due_retry_plans
  recovery_find_due_retry cursor limit now =
      gets (λ system. due_retry_plans system.store cursor limit now)

  unfoldable pub recovery_save_dead_letter :
      DeadLetterEntry → FailureMaterial → UnitOfWorkHandle → Repository Version
  unfolding on_store stage_dead_letter_save
  recovery_save_dead_letter entry material uow =
      on_store (λ store. stage_dead_letter_save store uow.transaction_id entry material)

  unfoldable pub recovery_get_dead_letter : DeadLetterId → Repository (Option DeadLetterEntry)
  unfolding gets get
  recovery_get_dead_letter dead_letter_id =
      gets (λ system. get dead_letter_id system.store.dead_letters)

  unfoldable pub recovery_save_replay_preparation :
      ReplayPreparation → UnitOfWorkHandle → Repository Version
  unfolding on_store stage_replay_preparation_save
  recovery_save_replay_preparation preparation uow =
      on_store (λ store. stage_replay_preparation_save store uow.transaction_id preparation)

  unfoldable pub recovery_get_failure_material :
      FailureMaterialId → Repository (Option FailureMaterial)
  unfolding gets get
  recovery_get_failure_material failure_material_id =
      gets (λ system. get failure_material_id system.store.failure_materials)
