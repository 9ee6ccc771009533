-- ===== src/Application/Follows/Calls.antt =====
-- The calls of the ports, as calls of the store.
use quantalithos_bus.Base.{Option, none, some, Result, ok, err}
use quantalithos_bus.Base.Actions.{Action, action_map_err, attempt}
use quantalithos_bus.Base.Maps.{id_key, text_key, pair_key}
use quantalithos_bus.Contracts.Core.{Core}
use quantalithos_bus.Contracts.Metadata.{DeliveryId, PublicationId, FeedbackId}
use quantalithos_bus.Application.Ports.{
  UnitOfWorkPurpose, UnitOfWorkHandle, RollbackReason, RepositoryError, UnitOfWorkError,
  BusRecordKind, BackendDispatchContext,
}
use quantalithos_bus.Application.Errors.{ApplicationError}
use quantalithos_bus.Domain.Audit.{BusAuditEntry}
use quantalithos_bus.Domain.Delivery.{DeliveryRecord}
use quantalithos_bus.Domain.Delivery.Attempt.{DeliveryAttempt}
use quantalithos_bus.Domain.Feedback.{FeedbackResult}
use quantalithos_bus.Domain.Idempotency.Scope.{IdempotencyScope}
use quantalithos_bus.Domain.Idempotency.Digest.{IdempotencyAnchor, IdempotencyConflict}
use quantalithos_bus.Domain.Publication.Acceptance.{PublicationAcceptance}
use quantalithos_bus.Domain.Publication.Material.{PublicationMaterial}
use quantalithos_bus.Domain.Publication.Semantic.{TransportSemantic}
use quantalithos_bus.Contracts.Inputs.{BackendDeliverySignalInput}
use quantalithos_bus.Infra.Store.Transactions.{begin_transaction, rollback_transaction}
use quantalithos_bus.Infra.Store.Calls.{
  stage, stages_publication, stages_material, stages_anchor, stages_conflict, stages_audit,
  stages_feedback, saves_delivery,
}
use quantalithos_bus.Infra.System.{
  System, on_store, begin, commit, commit_taken, rollback, next_record_id,
}
use quantalithos_bus.Infra.System.Repositories.{
  publication_store_material, publication_insert, idempotency_bind, idempotency_mark_conflict,
  append_taken, audit_append, feedback_insert, delivery_save, delivery_get_for_update,
  publication_get, feedback_get, idempotency_find,
}
use quantalithos_bus.Infra.System.Backend.{dispatch, normalize_signal}
use quantalithos_bus.Application.Services.{
  begin_unit, commit_unit, clock_now, from_store, rollback_with, settle, or_rollback,
  found_or_rollback, new_record_id,
}
use quantalithos_bus.Infra.Store.Consistency.{
  begins, stages, commits, rolls_back, store_step, store_run,
}
use quantalithos_bus.Application.Follows.{
  Runs, Runs-refl, Runs-call, Follows, Follows-pure, Follows-raise, Follows-gets, Follows-map_err,
  Follows-attempt, Follows-bind, Follows-then, Follows-if, Follows-some_or, Follows-lift,
}

module _ ⦃core : Core⦄ where
  open core use {ActorContext}

  pub Follows-begin_unit : (p : UnitOfWorkPurpose) (a : ActorContext) → Follows (begin_unit p a)
  unfolding begin_unit begin on_store begin_transaction action_map_err store_run store_step stage
  Follows-begin_unit p a = record { at = λ s. Runs-call s.store (begins p) }

  Follows-rollback : (h : UnitOfWorkHandle) (r : RollbackReason) → Follows (rollback h r)
  unfolding rollback on_store rollback_transaction store_run store_step stage
  Follows-rollback h r = record { at = λ s. Runs-call s.store (rolls_back h) }

  pub Follows-rollback_with :
      {A : Type 0} (h : UnitOfWorkHandle) (e : ApplicationError)
      → Follows (rollback_with {A = A} h e)
  unfolding rollback_with
  Follows-rollback_with h e =
      search (Follows-then, Follows-map_err, Follows-rollback, Follows-raise)

  pub Follows-settle :
      {E A : Type 0} (h : UnitOfWorkHandle) (from : E → ApplicationError) (r : Result E A)
      → Follows (settle h from r)
  unfolding settle
  Follows-settle h from (ok a) = Follows-pure a
  Follows-settle h from (err e) = Follows-rollback_with h (from e)

  pub Follows-or_rollback :
      {E A : Type 0} (h : UnitOfWorkHandle) (from : E → ApplicationError) (m : Action System E A)
      → Follows m
      → Follows (or_rollback h from m)
  unfolding or_rollback
  Follows-or_rollback h from m follows =
      Follows-bind (attempt m) (settle h from) (Follows-attempt m follows) (Follows-settle h from)

  pub Follows-found_or_rollback :
      {A : Type 0} (h : UnitOfWorkHandle) (e : ApplicationError) (o : Option A)
      → Follows (found_or_rollback h e o)
  unfolding found_or_rollback
  Follows-found_or_rollback h e none = Follows-rollback_with h e
  Follows-found_or_rollback h e (some a) = Follows-pure a

  pub Follows-from_store :
      {A : Type 0} (m : Action System RepositoryError A) → Follows m → Follows (from_store m)
  unfolding from_store
  Follows-from_store m h = search Follows-map_err

  pub Follows-clock_now : Follows clock_now
  unfolding clock_now
  Follows-clock_now = search Follows-gets

  pub Follows-new_record_id : (k : BusRecordKind) → Follows (new_record_id k)
  unfolding new_record_id next_record_id action_map_err
  Follows-new_record_id BusRecordKind.audit_entry = record { at = λ s. Runs-refl s.store }
  Follows-new_record_id BusRecordKind.idempotency_anchor = record { at = λ s. Runs-refl s.store }

  pub Follows-publication_store_material :
      (m : PublicationMaterial) (h : UnitOfWorkHandle) → Follows (publication_store_material m h)
  unfolding publication_store_material on_store store_run store_step stage
  Follows-publication_store_material m h = record {
    at = λ s. Runs-call s.store (stages h.transaction_id (stages_material m));
  }

  pub Follows-publication_insert :
      (a : PublicationAcceptance) (h : UnitOfWorkHandle) → Follows (publication_insert a h)
  unfolding publication_insert on_store store_run store_step stage
  Follows-publication_insert a h = record {
    at = λ s. Runs-call s.store (stages h.transaction_id (stages_publication a));
  }

  pub Follows-idempotency_bind :
      (a : IdempotencyAnchor) (h : UnitOfWorkHandle) → Follows (idempotency_bind a h)
  unfolding idempotency_bind on_store store_run store_step stage
  Follows-idempotency_bind a h = record {
    at = λ s. Runs-call s.store (stages h.transaction_id (stages_anchor a));
  }

  pub Follows-feedback_insert :
      (f : FeedbackResult) (h : UnitOfWorkHandle) → Follows (feedback_insert f h)
  unfolding feedback_insert on_store store_run store_step stage
  Follows-feedback_insert f h = record {
    at = λ s. Runs-call s.store (stages h.transaction_id (stages_feedback f));
  }

  pub Follows-mark_conflict :
      (scope : IdempotencyScope) (key : core.IdempotencyKey) (c : IdempotencyConflict)
      (h : UnitOfWorkHandle)
      → Follows (idempotency_mark_conflict scope key c h)
  unfolding idempotency_mark_conflict on_store store_run store_step stage
  Follows-mark_conflict scope key c h = record {
    at = λ s. Runs-call s.store (stages h.transaction_id (stages_conflict scope key c));
  }

  pub Follows-delivery_save :
      (d : DeliveryRecord) (v : core.Version) (h : UnitOfWorkHandle) → Follows (delivery_save d v h)
  unfolding delivery_save on_store store_run store_step stage
  Follows-delivery_save d v h = record {
    at = λ s. Runs-call s.store (stages h.transaction_id (saves_delivery d v));
  }

  append_taken-Runs :
      (e : BusAuditEntry) (h : UnitOfWorkHandle) (o : Option RepositoryError) (s : System)
      → Runs s.store (append_taken e h o s).0.store
  unfolding append_taken on_store store_run store_step stage
  append_taken-Runs e h none s = Runs-call s.store (stages h.transaction_id (stages_audit e))
  append_taken-Runs e h (some error) s = Runs-refl s.store

  pub Follows-audit_append : (e : BusAuditEntry) (h : UnitOfWorkHandle) → Follows (audit_append e h)
  unfolding audit_append
  Follows-audit_append e h = record { at = λ s. append_taken-Runs e h s.fail_next_append s }

  pub Follows-dispatch :
      (t : TransportSemantic) (a : DeliveryAttempt) (c : BackendDispatchContext)
      → Follows (dispatch t a c)
  unfolding dispatch
  Follows-dispatch t a c = record { at = λ s. Runs-refl s.store }

  pub Follows-normalize_signal : (i : BackendDeliverySignalInput) → Follows (normalize_signal i)
  unfolding normalize_signal
  Follows-normalize_signal i = record { at = λ s. Runs-refl s.store }

  pub Follows-delivery_get_for_update :
      (id : DeliveryId) (h : UnitOfWorkHandle) → Follows (delivery_get_for_update id h)
  unfolding delivery_get_for_update
  Follows-delivery_get_for_update id h = search Follows-gets

  pub Follows-publication_get : (id : PublicationId) → Follows (publication_get id)
  unfolding publication_get
  Follows-publication_get id = search Follows-gets

  pub Follows-feedback_get : (id : FeedbackId) → Follows (feedback_get id)
  unfolding feedback_get
  Follows-feedback_get id = search Follows-gets

  pub Follows-idempotency_find :
      (scope : IdempotencyScope) (key : core.IdempotencyKey) → Follows (idempotency_find scope key)
  unfolding idempotency_find
  Follows-idempotency_find scope key = search Follows-gets

  commit_taken-Runs :
      (h : UnitOfWorkHandle) (o : Option UnitOfWorkError) (s : System)
      → Runs s.store (commit_taken h o s).0.store
  unfolding commit_taken on_store store_run store_step
  commit_taken-Runs h (some error) s = Runs-refl s.store
  commit_taken-Runs h none s = Runs-call s.store (commits h)

  pub Follows-commit_unit : (h : UnitOfWorkHandle) → Follows (commit_unit h)
  unfolding commit_unit action_map_err commit
  Follows-commit_unit h = record { at = λ s. commit_taken-Runs h s.fail_next_commit s }

-- The rules for a handler.
pub ruleset handler_rules = (
  Follows-bind, Follows-if, Follows-lift, Follows-some_or, Follows-pure, Follows-raise,
  Follows-gets, Follows-attempt, Follows-begin_unit, Follows-commit_unit, Follows-from_store,
  Follows-found_or_rollback, Follows-settle, Follows-or_rollback, Follows-rollback_with,
  Follows-clock_now, Follows-new_record_id, Follows-audit_append, Follows-delivery_get_for_update,
  Follows-publication_get, Follows-feedback_get, Follows-idempotency_find,
  Follows-publication_store_material, Follows-publication_insert, Follows-idempotency_bind,
  Follows-feedback_insert, Follows-mark_conflict, Follows-delivery_save, Follows-dispatch,
  Follows-normalize_signal,
)
