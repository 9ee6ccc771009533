-- ===== src/Infra/Store/Seeds.antt =====
-- crates/infra/src/store.rs: writes to committed storage that take no transaction.
use quantalithos_bus.Base.{
  ℕ, ◌+◌, ◌%◌, not, ◌&&◌, Option, none, some, [], ◌∷◌, ◌++◌, if◌then◌else◌, Result, ok, err,
}
use quantalithos_bus.Base.Maps.{get, insert, contains_key, text_key, id_key, pair_key}
use quantalithos_bus.Contracts.Core.{Core}
use quantalithos_bus.Contracts.Status.{RetryPlanStatus, DeadLetterStatus, retry_eq, dead_letter_eq}
use quantalithos_bus.Contracts.Metadata.{ProjectionVersion}
use quantalithos_bus.Contracts.Projections.{BackendHealthView, next_after, u64_mod}
use quantalithos_bus.Application.Ports.{RepositoryError}
use quantalithos_bus.Domain.Audit.{BusAuditEntry}
use quantalithos_bus.Domain.Delivery.{DeliveryRecord}
use quantalithos_bus.Domain.ReadOutput.{FailureSummaryProjection, TransportViewProjection}
use quantalithos_bus.Domain.Recovery.DeadLetter.{DeadLetterEntry}
use quantalithos_bus.Domain.Recovery.Failure.{FailureMaterial}
use quantalithos_bus.Domain.Recovery.Retry.{RetryPlan}
use quantalithos_bus.Infra.Store.{MemoryStore, version_one}

module _ ⦃core : Core⦄ where
  open core use {Version}

  unfoldable pub seed_retry_plan :
      MemoryStore → RetryPlan → MemoryStore × Result RepositoryError Version
  unfolding contains_key insert
  seed_retry_plan inner retry_plan =
      if contains_key retry_plan.retry_plan_id inner.retry_plans
      then (inner, err RepositoryError.unique_violation)
      else if retry_eq retry_plan.status RetryPlanStatus.scheduled
          && contains_key retry_plan.delivery_id inner.active_retry_plans
      then (inner, err RepositoryError.unique_violation)
      else (
        record inner {
          active_retry_plans =
              if retry_eq retry_plan.status RetryPlanStatus.scheduled
              then insert retry_plan.delivery_id retry_plan.retry_plan_id inner.active_retry_plans
              else inner.active_retry_plans;
          retry_plan_versions =
              insert retry_plan.retry_plan_id version_one inner.retry_plan_versions;
          retry_plans =
              insert retry_plan.retry_plan_id (record retry_plan { version = version_one })
                inner.retry_plans;
        },
        ok version_one,
      )

  unfoldable pub seed_failure_material :
      MemoryStore → FailureMaterial → MemoryStore × Result RepositoryError Version
  unfolding contains_key insert
  seed_failure_material inner material =
      if contains_key material.failure_material_id inner.failure_materials
      then (inner, err RepositoryError.unique_violation)
      else (
        record inner {
          failure_material_versions =
              insert material.failure_material_id version_one inner.failure_material_versions;
          failure_materials =
              insert material.failure_material_id (record material { version = version_one })
                inner.failure_materials;
        },
        ok version_one,
      )

  unfoldable pub seed_dead_letter :
      MemoryStore → DeadLetterEntry → MemoryStore × Result RepositoryError Version
  unfolding contains_key insert
  seed_dead_letter inner entry =
      if contains_key entry.dead_letter_id inner.dead_letters
      then (inner, err RepositoryError.unique_violation)
      else if not (dead_letter_eq entry.status DeadLetterStatus.closed)
          && contains_key entry.delivery_id inner.active_dead_letters
      then (inner, err RepositoryError.unique_violation)
      else (
        record inner {
          active_dead_letters =
              if not (dead_letter_eq entry.status DeadLetterStatus.closed)
              then insert entry.delivery_id entry.dead_letter_id inner.active_dead_letters
              else inner.active_dead_letters;
          dead_letter_versions = insert entry.dead_letter_id version_one inner.dead_letter_versions;
          dead_letters =
              insert entry.dead_letter_id (record entry { version = version_one })
                inner.dead_letters;
        },
        ok version_one,
      )

  unfoldable pub seed_delivery :
      MemoryStore → DeliveryRecord → MemoryStore × Result RepositoryError Version
  unfolding contains_key insert
  seed_delivery inner delivery =
      if contains_key delivery.delivery_id inner.deliveries
      then (inner, err RepositoryError.unique_violation)
      else (
        record inner {
          delivery_versions = insert delivery.delivery_id version_one inner.delivery_versions;
          deliveries =
              insert delivery.delivery_id (record delivery { version = version_one })
                inner.deliveries;
        },
        ok version_one,
      )

  unfoldable pub seed_transport_view_projection :
      MemoryStore → TransportViewProjection → MemoryStore × Result RepositoryError ProjectionVersion
  unfolding get insert next_after
  seed_transport_view_projection inner projection =
      let current : Option ProjectionVersion =
        elim (get projection.view_id inner.transport_view_projections) [
          | none ↦ none
          | some value ↦ some value.version
        ] in
      (
        record inner {
          transport_view_projections =
              insert projection.view_id (record projection { version = next_after current })
                inner.transport_view_projections;
        },
        ok (next_after current),
      )

  unfoldable pub seed_failure_summary_projection :
      MemoryStore
      → FailureSummaryProjection
      → MemoryStore × Result RepositoryError ProjectionVersion
  unfolding get insert next_after
  seed_failure_summary_projection inner projection =
      let version = next_after (get projection.summary_id inner.failure_summary_versions) in
      (
        record inner {
          failure_summary_versions =
              insert projection.summary_id version inner.failure_summary_versions;
          failure_summary_projections =
              insert projection.summary_id projection inner.failure_summary_projections;
        },
        ok version,
      )

  unfoldable pub seed_backend_health_view :
      MemoryStore → BackendHealthView → MemoryStore × Result RepositoryError ProjectionVersion
  unfolding get insert next_after
  seed_backend_health_view inner view =
      let version = next_after (get view.backend_id inner.backend_health_versions) in
      (
        record inner {
          backend_health_versions = insert view.backend_id version inner.backend_health_versions;
          backend_health_views = insert view.backend_id view inner.backend_health_views;
        },
        ok version,
      )

  unfoldable pub append_access_audit_entry :
      MemoryStore → BusAuditEntry → MemoryStore × Result RepositoryError ℕ
  append_access_audit_entry inner entry =
      let next_sequence = (inner.next_audit_sequence + 1) % u64_mod in
      (
        record inner { next_audit_sequence = next_sequence; audits = inner.audits ++ entry ∷ [] },
        ok next_sequence,
      )
