-- ===== src/Application/Progress/Delivers.antt =====
-- crates/application/src/services/delivery.rs: `progress_one` on a delivery that the backend takes.
use quantalithos_bus.Base.{
  ◌+◌, ◌%◌, ◌<◌, ◌≡◌, refl, ap, ◌∙◌, false, none, some, List, [], ◌∷◌, ◌++◌, arith, length, ok,
}
use quantalithos_bus.Base.Text.{Text, is_blank, text_eq, text_lt}
use quantalithos_bus.Base.Maps.{
  get, insert, remove, insert_all, get-insert, get-insert_other, text_key, id_key,
}
use quantalithos_bus.Contracts.Core.{Core}
use quantalithos_bus.Contracts.Status.{DeliveryStatus, BackendDeliveryStatus}
use quantalithos_bus.Contracts.Metadata.{DeliveryId, u32_mod, BackendDeliveryResult, JobMetadata}
use quantalithos_bus.Contracts.Projections.{BackendId, u64_mod}
use quantalithos_bus.Domain.Audit.{AuditAction, BusAuditEntry}
use quantalithos_bus.Application.Ports.{UnitOfWorkHandle, UnitOfWorkPurpose}
use quantalithos_bus.Domain.Delivery.{DeliveryRecord}
use quantalithos_bus.Domain.Delivery.Invariant.{Inv}
use quantalithos_bus.Domain.Delivery.Dispatching.{first, arrived, scheduled-Dispatch}
use quantalithos_bus.Infra.Store.{staged_new}
use quantalithos_bus.Infra.Store.Queries.{delivery}
use quantalithos_bus.Infra.Store.Transactions.{begin_transaction, commit_staged}
use quantalithos_bus.Infra.Store.Saving.{saved}
use quantalithos_bus.Infra.System.{System}
use quantalithos_bus.Infra.System.Backend.{dispatch_injected}
use quantalithos_bus.Application.Services.Delivery.{
  delivery_audit, item_from_delivery, progress_one,
}
use quantalithos_bus.Application.Progress.{
  delivered_end, progress_one-found, progress_found-Dispatch,
}
use quantalithos_bus.Application.Progress.Save.{
  with_transaction, logged, committed, save_and_log-commits,
}

text_lt-irreflexive : (t : Text) → text_lt t t ≡ false
unfolding text_lt
text_lt-irreflexive [] = refl
text_lt-irreflexive (c ∷ t) = ground (arith, text_lt-irreflexive t)

module _ ⦃core : Core⦄ where
  open core use {ActorContext, Timestamp, time_as_str, next_version}

  -- The audit entries of a dispatch that succeeds.
  abbrev pub dispatch_audits :
      ActorContext → JobMetadata → DeliveryRecord → Timestamp → List BusAuditEntry
  dispatch_audits actor meta d now =
      delivery_audit d.delivery_id "dispatching" AuditAction.delivery_dispatch_started actor
        meta.trace_ref now
      ∷ delivery_audit d.delivery_id "delivered" AuditAction.delivery_delivered actor meta.trace_ref
          now
      ∷ []

  -- `progress_one` on a stored delivery that is scheduled and satisfies the invariant, with fewer than 2^32 - 1 attempts and
  -- a capability whose id is not blank, whose version on record is its own: if the backend reports it as delivered,
  -- and no failpoint is set for appends or commits, it succeeds with the status `delivered`; the store then
  -- holds the delivery under its next version, with the finished attempt and the two moves added, and
  -- the two audit entries of the dispatch at the end of the trail; every other delivery stays.
  pub progress_one-delivers :
      (backend_id : BackendId) (actor : ActorContext) (meta : JobMetadata) (s : System)
      (d : DeliveryRecord) (r : BackendDeliveryResult)
      → get d.delivery_id s.store.deliveries ≡ some d
      → get d.delivery_id s.store.delivery_versions ≡ some d.version
      → Inv d
      → d.status ≡ DeliveryStatus.scheduled
      → length d.attempts + 1 < u32_mod
      → is_blank d.transport_semantic.backend_capability_ref.capability_id ≡ false
      → dispatch_injected
          (get d.delivery_id s.backend.failures)
          d.transport_semantic
          (first d s.now)
          s.backend
        ≡ ok r
      → r.status ≡ BackendDeliveryStatus.delivered
      → s.fail_next_append ≡ none
      → s.fail_next_commit ≡ none
      → let (t, result) = progress_one d.delivery_id backend_id actor meta s in
        (result
          ≡ ok (record {
            delivery_id = d.delivery_id;
            final_status = DeliveryStatus.delivered;
            retryable = false;
            manual_action_required = false;
          }))
        × (delivery t.store d.delivery_id ≡ some (saved (arrived d s.now r s.now) d.version))
        × (get d.delivery_id t.store.delivery_versions ≡ some (next_version d.version))
        × (t.store.audits ≡ s.store.audits ++ dispatch_audits actor meta d s.now)
        × ((k : DeliveryId)
            → text_eq k d.delivery_id ≡ false
            → delivery t.store k ≡ delivery s.store k)
  unfolding begin_transaction delivered_end item_from_delivery committed with_transaction logged
      commit_staged staged_new insert_all insert delivery
  progress_one-delivers backend_id actor meta s d r found version v scheduled few named took
        reported no_append no_commit =
      let purpose = UnitOfWorkPurpose.run_delivery_progression in
      let id = (s.store.next_transaction_id + 1) % u64_mod in
      let uow : UnitOfWorkHandle = record { transaction_id = id; purpose = purpose } in
      let begun = record s { store = (begin_transaction s.store purpose).0 } in
      let c = d.transport_semantic.backend_capability_ref in
      let p =
        scheduled-Dispatch d c s.now r s.now actor v scheduled few named
          (text_lt-irreflexive (time_as_str s.now)) reported in
      let fresh = staged_new purpose in
      let t = record begun {
        backend = record s.backend { failures = remove d.delivery_id s.backend.failures };
      } in
      let ran =
        progress_one-found backend_id actor meta s d found
        ∙ progress_found-Dispatch uow backend_id actor meta begun d r took p
        ∙ save_and_log-commits uow actor meta d s.now (delivered_end actor meta d s.now r) t fresh
            (get-insert id fresh s.store.transactions) version no_append no_commit in
      let after = saved (arrived d s.now r s.now) d.version in
      (
        ap (λ x. x.1) ran,
        ap (λ x. delivery x.0.store d.delivery_id) ran
            ∙ get-insert d.delivery_id after s.store.deliveries,
        ap (λ x. get d.delivery_id x.0.store.delivery_versions) ran
            ∙ get-insert d.delivery_id (next_version d.version) s.store.delivery_versions,
        ap (λ x. x.0.store.audits) ran,
        λ k ne.
            ap (λ x. delivery x.0.store k) ran
            ∙ get-insert_other k d.delivery_id after s.store.deliveries ne,
      )
