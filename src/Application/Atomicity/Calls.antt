-- ===== src/Application/Atomicity/Calls.antt =====
-- What the calls of the ports leave of the committed state.
use quantalithos_bus.Base.{ℕ, ◌≡◌, refl, ap, Option, none, some, Result, ok, err}
use quantalithos_bus.Base.Actions.{Action, ◌>>=◌, ◌>>◌, action_map_err, attempt, map_err}
use quantalithos_bus.Base.Maps.{get, remove, id_key, text_key, pair_key}
use quantalithos_bus.Contracts.Core.{Core}
use quantalithos_bus.Contracts.Metadata.{DeliveryId, PublicationId, FeedbackId}
use quantalithos_bus.Application.Ports.{
  UnitOfWorkPurpose, UnitOfWorkHandle, CommitReceipt, RollbackReason, RepositoryError,
  UnitOfWorkError, BusRecordKind, BackendDispatchContext,
}
use quantalithos_bus.Application.Errors.{ApplicationError, error_details_ref}
use quantalithos_bus.Domain.Audit.{BusAuditEntry}
use quantalithos_bus.Domain.Delivery.{DeliveryRecord}
use quantalithos_bus.Domain.Delivery.Attempt.{DeliveryAttempt}
use quantalithos_bus.Domain.Feedback.{FeedbackResult}
use quantalithos_bus.Domain.Idempotency.Scope.{IdempotencyScope}
use quantalithos_bus.Domain.Idempotency.Digest.{IdempotencyAnchor, IdempotencyConflict}
use quantalithos_bus.Domain.Publication.Acceptance.{PublicationAcceptance}
use quantalithos_bus.Domain.Publication.Material.{PublicationMaterial}
use quantalithos_bus.Domain.Publication.Semantic.{TransportSemantic}
use quantalithos_bus.Contracts.Inputs.{BackendDeliverySignalInput}
use quantalithos_bus.Application.Errors.From.{from_unit_of_work}
use quantalithos_bus.Infra.Store.{MemoryStore, StagedTransaction}
use quantalithos_bus.Infra.Store.Transactions.{
  begin_transaction, commit_transaction, commit_removed, rollback_transaction,
}
use quantalithos_bus.Infra.Store.Calls.{
  StageCall, stage, stages_publication, stages_material, stages_anchor, stages_conflict,
  stages_audit, stages_feedback, saves_delivery,
}
use quantalithos_bus.Infra.Store.Isolation.{stage-Within}
use quantalithos_bus.Infra.System.{
  System, on_store, begin, commit, commit_taken, rollback, next_record_id,
}
use quantalithos_bus.Infra.System.Repositories.{
  publication_store_material, publication_insert, idempotency_bind, idempotency_mark_conflict,
  append_taken, audit_append, feedback_insert, delivery_save, delivery_get_for_update,
  publication_get, feedback_get, idempotency_find,
}
use quantalithos_bus.Infra.System.Backend.{dispatch, normalize_signal}
use quantalithos_bus.Application.Services.{
  App, begin_unit, commit_unit, clock_now, from_store, rollback_with, settle, or_rollback,
  found_or_rollback, new_record_id,
}
use quantalithos_bus.Application.Atomicity.{
  Returns, Returns-pure, Returns-raise, SameTables, SameTables-refl, SameTables-trans, Quiet,
  Atomic, Sure, Quiet-pure, Quiet-raise, Quiet-gets, Quiet-map_err, Quiet-attempt, Sure-pure,
}
use quantalithos_bus.Application.Atomicity.Blocks.{
  Returns-bind, Atomic-bind-Returns, Quiet-bind, Quiet-then, Atomic-then-Sure, Atomic-bind,
}

module _ ⦃core : Core⦄ where
  open core use {ActorContext}

  pub stage-SameTables : (s : MemoryStore) (id : ℕ) (c : StageCall) → SameTables s (stage s id c)
  stage-SameTables s id c = record {
    same =
        ap {A = MemoryStore} (λ x. record x { next_transaction_id = s.next_transaction_id })
          (stage-Within s id c).committed;
  }

  pub Quiet-begin_unit : (p : UnitOfWorkPurpose) (a : ActorContext) → Quiet (begin_unit p a)
  unfolding begin_unit begin on_store begin_transaction action_map_err
  Quiet-begin_unit p a = record { at = λ s. record { same = refl } }

  Quiet-rollback : (h : UnitOfWorkHandle) (r : RollbackReason) → Quiet (rollback h r)
  unfolding rollback on_store rollback_transaction
  Quiet-rollback h r = record { at = λ s. record { same = refl } }

  pub Quiet-rollback_with :
      {A : Type 0} (h : UnitOfWorkHandle) (e : ApplicationError) → Quiet (rollback_with {A = A} h e)
  unfolding rollback_with
  Quiet-rollback_with h e = search (Quiet-then, Quiet-map_err, Quiet-rollback, Quiet-raise)

  pub Quiet-settle :
      {E A : Type 0} (h : UnitOfWorkHandle) (from : E → ApplicationError) (r : Result E A)
      → Quiet (settle h from r)
  unfolding settle
  Quiet-settle h from (ok a) = Quiet-pure a
  Quiet-settle h from (err e) = Quiet-rollback_with h (from e)

  pub Quiet-or_rollback :
      {E A : Type 0} (h : UnitOfWorkHandle) (from : E → ApplicationError) (m : Action System E A)
      → Quiet m
      → Quiet (or_rollback h from m)
  unfolding or_rollback
  Quiet-or_rollback h from m quiet =
      Quiet-bind (attempt m) (settle h from) (Quiet-attempt m quiet) (Quiet-settle h from)

  pub Quiet-found_or_rollback :
      {A : Type 0} (h : UnitOfWorkHandle) (e : ApplicationError) (o : Option A)
      → Quiet (found_or_rollback h e o)
  unfolding found_or_rollback
  Quiet-found_or_rollback h e none = Quiet-rollback_with h e
  Quiet-found_or_rollback h e (some a) = Quiet-pure a

  pub Quiet-from_store :
      {A : Type 0} (m : Action System RepositoryError A) → Quiet m → Quiet (from_store m)
  unfolding from_store
  Quiet-from_store m h = search Quiet-map_err

  pub Quiet-clock_now : Quiet clock_now
  unfolding clock_now
  Quiet-clock_now = search Quiet-gets

  pub Quiet-new_record_id : (k : BusRecordKind) → Quiet (new_record_id k)
  unfolding new_record_id next_record_id action_map_err
  Quiet-new_record_id BusRecordKind.audit_entry = record { at = λ s. SameTables-refl s.store }
  Quiet-new_record_id BusRecordKind.idempotency_anchor = record {
    at = λ s. SameTables-refl s.store;
  }

  pub Quiet-publication_store_material :
      (m : PublicationMaterial) (h : UnitOfWorkHandle) → Quiet (publication_store_material m h)
  unfolding publication_store_material on_store stage
  Quiet-publication_store_material m h = record {
    at = λ s. stage-SameTables s.store h.transaction_id (stages_material m);
  }

  pub Quiet-publication_insert :
      (a : PublicationAcceptance) (h : UnitOfWorkHandle) → Quiet (publication_insert a h)
  unfolding publication_insert on_store stage
  Quiet-publication_insert a h = record {
    at = λ s. stage-SameTables s.store h.transaction_id (stages_publication a);
  }

  pub Quiet-idempotency_bind :
      (a : IdempotencyAnchor) (h : UnitOfWorkHandle) → Quiet (idempotency_bind a h)
  unfolding idempotency_bind on_store stage
  Quiet-idempotency_bind a h = record {
    at = λ s. stage-SameTables s.store h.transaction_id (stages_anchor a);
  }

  pub Quiet-feedback_insert :
      (f : FeedbackResult) (h : UnitOfWorkHandle) → Quiet (feedback_insert f h)
  unfolding feedback_insert on_store stage
  Quiet-feedback_insert f h = record {
    at = λ s. stage-SameTables s.store h.transaction_id (stages_feedback f);
  }

  pub Quiet-mark_conflict :
      (scope : IdempotencyScope) (key : core.IdempotencyKey) (c : IdempotencyConflict)
      (h : UnitOfWorkHandle)
      → Quiet (idempotency_mark_conflict scope key c h)
  unfolding idempotency_mark_conflict on_store stage
  Quiet-mark_conflict scope key c h = record {
    at = λ s. stage-SameTables s.store h.transaction_id (stages_conflict scope key c);
  }

  pub Quiet-delivery_save :
      (d : DeliveryRecord) (v : core.Version) (h : UnitOfWorkHandle) → Quiet (delivery_save d v h)
  unfolding delivery_save on_store stage
  Quiet-delivery_save d v h = record {
    at = λ s. stage-SameTables s.store h.transaction_id (saves_delivery d v);
  }

  append_taken-SameTables :
      (e : BusAuditEntry) (h : UnitOfWorkHandle) (o : Option RepositoryError) (s : System)
      → SameTables s.store (append_taken e h o s).0.store
  unfolding append_taken on_store stage
  append_taken-SameTables e h none s = stage-SameTables s.store h.transaction_id (stages_audit e)
  append_taken-SameTables e h (some error) s = SameTables-refl s.store

  pub Quiet-audit_append : (e : BusAuditEntry) (h : UnitOfWorkHandle) → Quiet (audit_append e h)
  unfolding audit_append
  Quiet-audit_append e h = record { at = λ s. append_taken-SameTables e h s.fail_next_append s }

  pub Quiet-dispatch :
      (t : TransportSemantic) (a : DeliveryAttempt) (c : BackendDispatchContext)
      → Quiet (dispatch t a c)
  unfolding dispatch
  Quiet-dispatch t a c = record { at = λ s. SameTables-refl s.store }

  pub Quiet-normalize_signal : (i : BackendDeliverySignalInput) → Quiet (normalize_signal i)
  unfolding normalize_signal
  Quiet-normalize_signal i = record { at = λ s. SameTables-refl s.store }

  -- A commit that fails, changes no table.
  commit_removed-SameTables :
      (s : MemoryStore) (h : UnitOfWorkHandle) (o : Option StagedTransaction) (e : UnitOfWorkError)
      → (commit_removed s h o).1 ≡ err e
      → SameTables s (commit_removed s h o).0
  unfolding commit_removed
  commit_removed-SameTables s h none e failed = SameTables-refl s
  commit_removed-SameTables s h (some t) e failed = cc

  commit_taken-SameTables :
      (h : UnitOfWorkHandle) (o : Option UnitOfWorkError) (s : System) (e : UnitOfWorkError)
      → (commit_taken h o s).1 ≡ err e
      → SameTables s.store (commit_taken h o s).0.store
  unfolding commit_taken on_store commit_transaction
  commit_taken-SameTables h (some error) s e failed = SameTables-refl s.store
  commit_taken-SameTables h none s e failed =
      let rest = record s.store { transactions = remove h.transaction_id s.store.transactions } in
      let closed : SameTables s.store rest = record { same = refl } in
      SameTables-trans s.store rest (commit_transaction s.store h).0 closed
        (commit_removed-SameTables rest h (get h.transaction_id s.store.transactions) e failed)

  mapped-Atomic :
      (P : ApplicationError → Type 0) (from : UnitOfWorkError → ApplicationError) (s t : System)
      (r : Result UnitOfWorkError CommitReceipt)
      → ((e : UnitOfWorkError) → r ≡ err e → SameTables s.store t.store)
      → (e : ApplicationError) → map_err from r ≡ err e
      → SameTables s.store t.store
  mapped-Atomic P from s t (ok receipt) h e failed = cc
  mapped-Atomic P from s t (err d) h e failed = h d refl

  pub Atomic-commit_unit :
      (P : ApplicationError → Type 0) (h : UnitOfWorkHandle) → Atomic P (commit_unit h)
  unfolding commit_unit action_map_err commit
  Atomic-commit_unit P h = record {
    at = λ s e failed p.
        let (t, r) = commit h s in
        mapped-Atomic P from_unit_of_work s t r
          (λ d lost. commit_taken-SameTables h s.fail_next_commit s d lost) e failed;
  }

  -- A unit that ends in its commit.
  pub Atomic-commit :
      {A : Type 0} (P : ApplicationError → Type 0) (h : UnitOfWorkHandle)
      (f : CommitReceipt → App A)
      → ((r : CommitReceipt) → Sure P (f r))
      → Atomic P (commit_unit h >>= f)
  Atomic-commit P h f sure = Atomic-then-Sure P (commit_unit h) f (Atomic-commit_unit P h) sure

  pub Quiet-delivery_get_for_update :
      (id : DeliveryId) (h : UnitOfWorkHandle) → Quiet (delivery_get_for_update id h)
  unfolding delivery_get_for_update
  Quiet-delivery_get_for_update id h = search Quiet-gets

  pub Quiet-publication_get : (id : PublicationId) → Quiet (publication_get id)
  unfolding publication_get
  Quiet-publication_get id = search Quiet-gets

  pub Quiet-feedback_get : (id : FeedbackId) → Quiet (feedback_get id)
  unfolding feedback_get
  Quiet-feedback_get id = search Quiet-gets

  pub Quiet-idempotency_find :
      (scope : IdempotencyScope) (key : core.IdempotencyKey) → Quiet (idempotency_find scope key)
  unfolding idempotency_find
  Quiet-idempotency_find scope key = search Quiet-gets

  pub Returns-rollback_with :
      {A : Type 0} (Q : A → Type 0) (h : UnitOfWorkHandle) (e : ApplicationError)
      → Returns Q (rollback_with h e)
  unfolding rollback_with ◌>>◌
  Returns-rollback_with Q h e = search (Returns-bind, Returns-raise)

  Returns-settle :
      {E A : Type 0} (h : UnitOfWorkHandle) (from : E → ApplicationError) (r : Result E A)
      → Returns (λ a. r ≡ ok a) (settle h from r)
  unfolding settle
  Returns-settle h from (ok a) = Returns-pure (λ b. ok a ≡ ok b) a refl
  Returns-settle h from (err e) = Returns-rollback_with (λ a. err e ≡ ok a) h (from e)

  -- The rest may use that the result was no error.
  pub Atomic-bind_settle :
      {E A B : Type 0} (P : ApplicationError → Type 0) (h : UnitOfWorkHandle)
      (from : E → ApplicationError) (r : Result E A) (f : A → App B)
      → ((a : A) → r ≡ ok a → Atomic P (f a))
      → Atomic P (settle h from r >>= f)
  Atomic-bind_settle P h from r f k =
      Atomic-bind-Returns P (λ a. r ≡ ok a) (settle h from r) f (Quiet-settle h from r)
        (Returns-settle h from r) k

-- The error names no audit entry.
abbrev pub Untraced : ApplicationError → Type 0
Untraced e = error_details_ref e ≡ none

-- The rules for a handler that runs in one unit of work.
pub ruleset unit_rules = (
  Atomic-commit, Atomic-bind, Quiet-begin_unit, Quiet-from_store, Quiet-found_or_rollback,
  Quiet-settle, Quiet-or_rollback, Quiet-clock_now, Quiet-new_record_id, Quiet-attempt,
  Quiet-audit_append, Quiet-rollback_with, Quiet-pure, Quiet-raise, Sure-pure,
)
