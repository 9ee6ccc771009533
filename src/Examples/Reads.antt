-- ===== src/Examples/Reads.antt =====
-- Examples on read output and on the uniqueness of publications.
use quantalithos_bus.Base.{◌≡◌, refl, ◌↔◌, ◌≢◌, true, false, some, [], ◌∷◌, ok, err}
use quantalithos_bus.Base.Text.{codes, is_blank, text_eq, is_ascii_alphanumeric}
use quantalithos_bus.Contracts.Metadata.{transport_view_id_from, sanitize}
use quantalithos_bus.Contracts.Projections.{initial_version}
use quantalithos_bus.Base.Maps.{contains_key, get}
use quantalithos_bus.Domain.Audit.{BusAuditEntry, SubjectRef, AuditAction, PrivilegedAccessScope}
use quantalithos_bus.Domain.ReadOutput.{
  TransportViewProjection, authorize_sensitive_read, derive_view, mark_view_stale, is_active,
}
use quantalithos_bus.Domain.ReadOutput.Access.{authorize_sensitive_read_iff, derive_view-stale_once}
use quantalithos_bus.Domain.Errors.{ProjectionStatus}
use quantalithos_bus.Application.Ports.{RepositoryError, UnitOfWorkPurpose}
use quantalithos_bus.Infra.Store.{MemoryStore, store_new}
use quantalithos_bus.Infra.Store.Staging.{stage_publication}
use quantalithos_bus.Infra.Store.Consistency.{begins, store_run}
use quantalithos_bus.Infra.Store.Uniqueness.{publication_stays_unique}
use quantalithos_bus.Examples.Fixtures.{text_core, scheduled_delivery}
use quantalithos_bus.Examples.Publications.{pending}

authorize_sensitive_read_iff_example :
    (authorize_sensitive_read PrivilegedAccessScope.failure_summary true (some (codes "r"))
      ≡ ok
          (record { scope = PrivilegedAccessScope.failure_summary; authorization_ref = codes "r" }))
    ↔ ((some (codes "r") ≡ some (codes "r"))
        × (is_blank (codes "r") ≡ false)
        × (true ≡ true)
        × (PrivilegedAccessScope.failure_summary ≡ PrivilegedAccessScope.failure_summary))
authorize_sensitive_read_iff_example =
    authorize_sensitive_read_iff PrivilegedAccessScope.failure_summary true (some (codes "r"))
      (record { scope = PrivilegedAccessScope.failure_summary; authorization_ref = codes "r" })

abbrev audit : BusAuditEntry
audit = record {
  audit_ref = codes "a";
  subject_ref = SubjectRef.delivery scheduled_delivery.delivery_id;
  action = AuditAction.delivery_delivered;
  actor = true;
  occurred_at = codes "1";
  trace_ref = codes "t";
}

abbrev view : TransportViewProjection
view = record {
  view_id = codes "transport_view_delivery_pub_s";
  delivery_id = scheduled_delivery.delivery_id;
  status = ProjectionStatus.active;
  version = codes "projection_v1";
  source_audit_ref = codes "a";
}

derive_view-stale_once_example :
    let stale = mark_view_stale view (codes "b") in
    (is_active view ≡ true)
    × (stale.1 ≡ ok tt)
    × (is_active stale.0 ≡ false)
    × (stale.0.source_audit_ref ≡ codes "b")
    × (stale.0.delivery_id ≡ scheduled_delivery.delivery_id)
    × ((mark_view_stale stale.0 (codes "c")).0 ≡ stale.0)
    × ((mark_view_stale stale.0 (codes "c")).1 ≢ ok tt)
unfolding derive_view is_blank transport_view_id_from initial_version sanitize is_ascii_alphanumeric
derive_view-stale_once_example =
    derive_view-stale_once scheduled_delivery audit view (codes "b") (codes "c") refl refl

abbrev published : MemoryStore
published = record store_new { publications = (pending.publication_id, pending) ∷ [] }

publication_stays_unique_example :
    let later = store_run published (begins UnitOfWorkPurpose.accept_publication ∷ []) in
    stage_publication later 1 pending ≡ (later, err RepositoryError.unique_violation)
unfolding contains_key get text_eq
publication_stays_unique_example =
    publication_stays_unique published pending (begins UnitOfWorkPurpose.accept_publication ∷ []) 1
      refl
