-- ===== src/Application/Progress.antt =====
-- crates/application/src/services/delivery.rs: `progress_one` up to the end of a dispatch that succeeds.
pub mod Save
pub mod Delivers
use quantalithos_bus.Base.{
  ℕ, ◌+◌, ◌%◌, ◌<◌, ◌≡◌, refl, ap, ◌∙◌, true, false, none, some, List, [], ◌∷◌, ◌++◌, arith, length,
  Result, ok, and_then,
}
use quantalithos_bus.Base.Actions.{Action, map_err, pure, gets, attempt, action_map_err, ◌>>=◌}
use quantalithos_bus.Base.Text.{Text, codes, is_blank, text_eq, text_lt}
use quantalithos_bus.Base.Maps.{
  get, insert, remove, insert_all, get-insert, get-insert_other, text_key, id_key,
}
use quantalithos_bus.Contracts.Core.{Core}
use quantalithos_bus.Contracts.Status.{DeliveryStatus, BackendDeliveryStatus}
use quantalithos_bus.Contracts.Metadata.{
  DeliveryId, dispatching_started, u32_mod, BackendDeliveryResult, BackendCapabilityRef,
  JobMetadata,
}
use quantalithos_bus.Contracts.Projections.{BackendId, u64_mod}
use quantalithos_bus.Domain.Audit.{AuditAction, BusAuditEntry}
use quantalithos_bus.Application.Ports.{UnitOfWorkHandle, UnitOfWorkPurpose, context_from_job}
use quantalithos_bus.Domain.Delivery.Attempt.{DeliveryAttempt, start}
use quantalithos_bus.Domain.Delivery.{DeliveryRecord, start_attempt, append_history}
use quantalithos_bus.Domain.Delivery.History.{transition}
use quantalithos_bus.Application.Errors.{ApplicationError, TransportPortError, not_found_error}
use quantalithos_bus.Application.Errors.From.{from_domain, from_repository, from_unit_of_work}
use quantalithos_bus.Domain.Delivery.Invariant.{Inv}
use quantalithos_bus.Domain.Delivery.Dispatching.{
  first, dispatching, arrived, Dispatch, scheduled-Dispatch,
}
use quantalithos_bus.Infra.Store.{MemoryStore, StagedTransaction, staged_new}
use quantalithos_bus.Infra.Store.Queries.{delivery}
use quantalithos_bus.Infra.Store.Transactions.{begin_transaction, commit_staged}
use quantalithos_bus.Infra.Store.Staging.{stage_audit_entry, with_staged, with_found, store_staged}
use quantalithos_bus.Infra.Store.Saving.{
  saved, with_delivery, stage_delivery_save-open, commit_transaction-open,
}
use quantalithos_bus.Infra.System.{System, begin, commit, commit_taken, on_store}
use quantalithos_bus.Infra.System.Repositories.{
  delivery_get_for_update, delivery_save, audit_append, append_taken,
}
use quantalithos_bus.Infra.System.Backend.{dispatch, dispatch_injected}
use quantalithos_bus.Application.Services.{
  App, begin_unit, commit_unit, clock_now, from_store, settle, or_rollback, found_or_rollback,
}
use quantalithos_bus.Application.Services.Delivery.{
  Dispatched, delivery_audit, DeliveryProgressionItemResult, item_from_delivery, dispatch_succeeded,
  after_dispatch, progress_one,
}

module _ ⦃core : Core⦄ where
  open core use {ActorContext, Timestamp, time_as_str, next_version}

  bind_ok :
      {S E A B : Type 0} (m : Action S E A) (f : A → Action S E B) (s t : S) (a : A)
      → m s ≡ (t, ok a)
      → (m >>= f) s ≡ f a t
  unfolding ◌>>=◌
  bind_ok m f s t a h = ap (λ p. and_then p (λ t a. f a t)) h

  -- What the handler records of a dispatch that succeeds.
  delivered_end :
      ActorContext → JobMetadata → DeliveryRecord → Timestamp → BackendDeliveryResult → Dispatched
  delivered_end actor meta d now r = record {
    delivery = arrived d now r now;
    retryable = false;
    manual_action_required = false;
    second_audit =
        delivery_audit d.delivery_id "delivered" AuditAction.delivery_delivered actor meta.trace_ref
          now;
  }

  dispatch_succeeded-Dispatch :
      (uow : UnitOfWorkHandle) (actor : ActorContext) (meta : JobMetadata) (s : System)
      (d : DeliveryRecord) (c : BackendCapabilityRef) (r : BackendDeliveryResult)
      → Dispatch d c s.now r s.now actor
      → dispatch_succeeded uow (dispatching d s.now) (first d s.now) actor meta s.now r s
        ≡ (s, ok (delivered_end actor meta d s.now r))
  unfolding dispatch_succeeded delivered_end settle pure ◌>>=◌
  dispatch_succeeded-Dispatch uow actor meta s d c r p = rw (p.finishes, p.marks, p.arrives) refl

  -- `progress_one` from the end of the dispatch, and from the record that was found.
  pub save_and_log :
      UnitOfWorkHandle
      → ActorContext
      → JobMetadata
      → DeliveryRecord
      → Timestamp
      → Dispatched
      → App DeliveryProgressionItemResult
  save_and_log uow actor meta delivery started_at end = do
    let started_audit =
        delivery_audit end.delivery.delivery_id "dispatching" AuditAction.delivery_dispatch_started
          actor meta.trace_ref started_at
    _ ← or_rollback uow from_repository (delivery_save end.delivery delivery.version uow)
    _ ← or_rollback uow from_repository (audit_append started_audit uow)
    _ ← or_rollback uow from_repository (audit_append end.second_audit uow)
    _ ← commit_unit uow
    pure (item_from_delivery end.delivery end.retryable end.manual_action_required)

  progress_finished :
      UnitOfWorkHandle
      → ActorContext
      → JobMetadata
      → DeliveryRecord
      → Timestamp
      → DeliveryRecord
      → DeliveryAttempt
      → Result TransportPortError BackendDeliveryResult
      → App DeliveryProgressionItemResult
  unfolding save_and_log clock_now after_dispatch ◌>>=◌
  progress_finished uow actor meta delivery started_at begun attempt_record dispatch_result = do
    finished_at ← clock_now
    end ← after_dispatch uow begun attempt_record actor meta finished_at dispatch_result
    save_and_log uow actor meta delivery started_at end

  progress_begun :
      UnitOfWorkHandle
      → BackendId
      → ActorContext
      → JobMetadata
      → DeliveryRecord
      → Timestamp
      → DeliveryRecord
      → DeliveryAttempt
      → App DeliveryProgressionItemResult
  unfolding progress_finished attempt dispatch ◌>>=◌
  progress_begun uow backend_id actor meta delivery started_at begun attempt_record = do
    dispatch_result ←
        attempt
          (dispatch begun.transport_semantic attempt_record (context_from_job meta backend_id))
    progress_finished uow actor meta delivery started_at begun attempt_record dispatch_result

  progress_found :
      UnitOfWorkHandle
      → BackendId
      → ActorContext
      → JobMetadata
      → DeliveryRecord
      → App DeliveryProgressionItemResult
  unfolding progress_begun clock_now start_attempt settle append_history ◌>>=◌
  progress_found uow backend_id actor meta delivery = do
    started_at ← clock_now
    let (started, start) =
        start_attempt delivery delivery.transport_semantic.backend_capability_ref started_at
    attempt_record ← settle uow from_domain start
    let (dispatching, appended) = append_history started (
        transition started.delivery_id delivery.status DeliveryStatus.dispatching
          dispatching_started started_at)
    _ ← settle uow from_domain appended
    progress_begun uow backend_id actor meta delivery started_at dispatching attempt_record

  progress_one-found :
      (backend_id : BackendId) (actor : ActorContext) (meta : JobMetadata) (s : System)
      (d : DeliveryRecord)
      → get d.delivery_id s.store.deliveries ≡ some d
      → let begun = (begin_transaction s.store UnitOfWorkPurpose.run_delivery_progression).0 in
        let handle : UnitOfWorkHandle = record {
          transaction_id = (s.store.next_transaction_id + 1) % u64_mod;
          purpose = UnitOfWorkPurpose.run_delivery_progression;
        } in
        progress_one d.delivery_id backend_id actor meta s
        ≡ progress_found handle backend_id actor meta d (record s { store = begun })
  unfolding progress_one progress_found progress_begun progress_finished save_and_log begin_unit
      begin on_store action_map_err begin_transaction from_store delivery_get_for_update gets
      delivery found_or_rollback pure ◌>>=◌
  progress_one-found backend_id actor meta s d found =
      let handle : UnitOfWorkHandle = record {
        transaction_id = (s.store.next_transaction_id + 1) % u64_mod;
        purpose = UnitOfWorkPurpose.run_delivery_progression;
      } in
      let begun = (begin_transaction s.store UnitOfWorkPurpose.run_delivery_progression).0 in
      ap
        (λ o.
          (found_or_rollback handle
                (not_found_error "not_found.delivery"
                  (codes "delivery " ++ d.delivery_id ++ codes " was not found") none)
                o
              >>= progress_found handle backend_id actor meta)
            (record s { store = begun }))
        found

  begins :
      (uow : UnitOfWorkHandle) (backend_id : BackendId) (actor : ActorContext) (meta : JobMetadata)
      (s : System) (d : DeliveryRecord) (r : BackendDeliveryResult)
      → Dispatch d d.transport_semantic.backend_capability_ref s.now r s.now actor
      → progress_found uow backend_id actor meta d s
        ≡ progress_begun uow backend_id actor meta d s.now (dispatching d s.now) (first d s.now) s
  unfolding progress_found clock_now gets settle pure ◌>>=◌
  begins uow backend_id actor meta s d r p = rw (p.starts, p.begins) refl

  dispatches :
      (uow : UnitOfWorkHandle) (backend_id : BackendId) (actor : ActorContext) (meta : JobMetadata)
      (s : System) (d : DeliveryRecord) (r : BackendDeliveryResult)
      → dispatch_injected
          (get d.delivery_id s.backend.failures)
          d.transport_semantic
          (first d s.now)
          s.backend
        ≡ ok r
      → progress_begun uow backend_id actor meta d s.now (dispatching d s.now) (first d s.now) s
        ≡ (after_dispatch uow (dispatching d s.now) (first d s.now) actor meta s.now (ok r)
              >>= save_and_log uow actor meta d s.now)
            (record s {
              backend = record s.backend { failures = remove d.delivery_id s.backend.failures };
            })
  unfolding progress_begun progress_finished clock_now gets attempt dispatch start ◌>>=◌
  dispatches uow backend_id actor meta s d r took =
      let t = record s {
        backend = record s.backend { failures = remove d.delivery_id s.backend.failures };
      } in
      ap
        (λ x.
          (after_dispatch uow (dispatching d s.now) (first d s.now) actor meta s.now x
              >>= save_and_log uow actor meta d s.now)
            t)
        took

  progress_found-Dispatch :
      (uow : UnitOfWorkHandle) (backend_id : BackendId) (actor : ActorContext) (meta : JobMetadata)
      (s : System) (d : DeliveryRecord) (r : BackendDeliveryResult)
      → dispatch_injected
          (get d.delivery_id s.backend.failures)
          d.transport_semantic
          (first d s.now)
          s.backend
        ≡ ok r
      → Dispatch d d.transport_semantic.backend_capability_ref s.now r s.now actor
      → progress_found uow backend_id actor meta d s
        ≡ save_and_log uow actor meta d s.now (delivered_end actor meta d s.now r) (record s {
          backend = record s.backend { failures = remove d.delivery_id s.backend.failures };
        })
  unfolding after_dispatch
  progress_found-Dispatch uow backend_id actor meta s d r took p =
      let t = record s {
        backend = record s.backend { failures = remove d.delivery_id s.backend.failures };
      } in
      begins uow backend_id actor meta s d r p
      ∙ dispatches uow backend_id actor meta s d r took
      ∙ bind_ok (after_dispatch uow (dispatching d s.now) (first d s.now) actor meta s.now (ok r))
          (save_and_log uow actor meta d s.now) t t (delivered_end actor meta d s.now r)
          (dispatch_succeeded-Dispatch uow actor meta t d
            d.transport_semantic.backend_capability_ref r p)
