-- ===== src/Application/Progress/Save.antt =====
-- crates/application/src/services/delivery.rs: the end of `progress_one`, in which the delivery is saved.
use quantalithos_bus.Base.{ℕ, ◌+◌, ◌%◌, ◌≡◌, refl, ap, ◌∙◌, none, some, [], ◌∷◌, ◌++◌, ok, and_then}
use quantalithos_bus.Base.Actions.{Action, map_err, pure, attempt, action_map_err, ◌>>=◌}
use quantalithos_bus.Base.Maps.{get, insert, remove, get-insert, text_key, id_key}
use quantalithos_bus.Contracts.Core.{Core}
use quantalithos_bus.Contracts.Metadata.{JobMetadata}
use quantalithos_bus.Contracts.Projections.{u64_mod}
use quantalithos_bus.Domain.Audit.{AuditAction, BusAuditEntry}
use quantalithos_bus.Application.Ports.{UnitOfWorkHandle}
use quantalithos_bus.Domain.Delivery.{DeliveryRecord}
use quantalithos_bus.Application.Errors.{ApplicationError}
use quantalithos_bus.Application.Errors.From.{from_repository, from_unit_of_work}
use quantalithos_bus.Infra.Store.{StagedTransaction}
use quantalithos_bus.Infra.Store.Transactions.{commit_staged}
use quantalithos_bus.Infra.Store.Staging.{stage_audit_entry, with_staged, with_found, store_staged}
use quantalithos_bus.Infra.Store.Saving.{
  with_delivery, stage_delivery_save-open, commit_transaction-open,
}
use quantalithos_bus.Infra.System.{System, commit, commit_taken, on_store}
use quantalithos_bus.Infra.System.Repositories.{delivery_save, audit_append, append_taken}
use quantalithos_bus.Application.Services.{commit_unit, settle, or_rollback}
use quantalithos_bus.Application.Services.Delivery.{Dispatched, delivery_audit, item_from_delivery}
use quantalithos_bus.Application.Progress.{bind_ok, save_and_log}

module _ ⦃core : Core⦄ where
  open core use {ActorContext, Timestamp, time_as_str, next_version}

  or_rollback_ok :
      {E A : Type 0} (h : UnitOfWorkHandle) (from : E → ApplicationError) (call : Action System E A)
      (s t : System) (a : A)
      → call s ≡ (t, ok a)
      → or_rollback h from call s ≡ (t, ok a)
  unfolding or_rollback attempt settle pure ◌>>=◌
  or_rollback_ok h from call s t a done =
      ap (λ p. and_then (p.0, ok p.1) (λ u r. settle h from r u)) done

  -- The system with the transaction staged in.
  unfoldable pub with_transaction : System → ℕ → StagedTransaction → System
  with_transaction s id t = record s {
    store = record s.store { transactions = insert id t s.store.transactions };
  }

  unfoldable pub logged : StagedTransaction → BusAuditEntry → StagedTransaction
  logged t e = record t { audits = t.audits ++ e ∷ [] }

  audit_append-open :
      (s : System) (h : UnitOfWorkHandle) (t : StagedTransaction) (e : BusAuditEntry)
      → get h.transaction_id s.store.transactions ≡ some t
      → s.fail_next_append ≡ none
      → audit_append e h s ≡ (
        with_transaction s h.transaction_id (logged t e),
        ok ((s.store.next_audit_sequence + 1) % u64_mod),
      )
  unfolding audit_append append_taken on_store stage_audit_entry with_staged with_found store_staged
      with_transaction logged
  audit_append-open s h t e opened fine = rw (fine, opened) refl

  delivery_save-open :
      (s : System) (h : UnitOfWorkHandle) (t : StagedTransaction) (d : DeliveryRecord)
      (v : core.Version)
      → get h.transaction_id s.store.transactions ≡ some t
      → get d.delivery_id s.store.delivery_versions ≡ some v
      → delivery_save d v h s
        ≡ (with_transaction s h.transaction_id (with_delivery t d v), ok (next_version v))
  unfolding delivery_save on_store with_transaction
  delivery_save-open s h t d v opened current =
      ap (λ p. (record s { store = p.0 }, p.1))
        (stage_delivery_save-open s.store h.transaction_id t d v opened current)

  commit_unit-open :
      (s : System) (h : UnitOfWorkHandle) (t : StagedTransaction)
      → get h.transaction_id s.store.transactions ≡ some t
      → s.fail_next_commit ≡ none
      → commit_unit h s ≡ (
        record s {
          store =
              commit_staged
                (record s.store { transactions = remove h.transaction_id s.store.transactions })
                t;
        },
        ok (record { transaction_id = h.transaction_id }),
      )
  unfolding commit_unit commit commit_taken on_store action_map_err
  commit_unit-open s h t opened fine =
      ap (λ x. let p = commit_taken h x s in (p.0, map_err from_unit_of_work p.1)) fine
      ∙ ap (λ p. (record s { store = p.0 }, map_err from_unit_of_work p.1))
          (commit_transaction-open s.store h t opened)

  -- The system after the save, the two audit entries and the commit.
  unfoldable pub committed :
      System
      → ℕ
      → StagedTransaction
      → DeliveryRecord
      → core.Version
      → BusAuditEntry
      → BusAuditEntry
      → System
  unfolding with_transaction logged
  committed s id t d v a b =
      let t₁ = with_delivery t d v in
      let t₂ = logged t₁ a in
      let t₃ = logged t₂ b in
      let s₃ = with_transaction (with_transaction (with_transaction s id t₁) id t₂) id t₃ in
      record s₃ {
        store =
            commit_staged (record s₃.store { transactions = remove id s₃.store.transactions }) t₃;
      }

  pub save_and_log-commits :
      (uow : UnitOfWorkHandle) (actor : ActorContext) (meta : JobMetadata) (d : DeliveryRecord)
      (at : Timestamp) (end : Dispatched) (s : System) (t : StagedTransaction)
      → get uow.transaction_id s.store.transactions ≡ some t
      → get end.delivery.delivery_id s.store.delivery_versions ≡ some d.version
      → s.fail_next_append ≡ none
      → s.fail_next_commit ≡ none
      → save_and_log uow actor meta d at end s ≡ (
        committed s uow.transaction_id t end.delivery d.version
            (delivery_audit end.delivery.delivery_id "dispatching"
              AuditAction.delivery_dispatch_started actor meta.trace_ref at)
            end.second_audit,
        ok (item_from_delivery end.delivery end.retryable end.manual_action_required),
      )
  unfolding save_and_log with_transaction committed pure
  save_and_log-commits uow actor meta d at end s t opened current no_append no_commit =
      let id = uow.transaction_id in
      let a =
        delivery_audit end.delivery.delivery_id "dispatching" AuditAction.delivery_dispatch_started
          actor meta.trace_ref at in
      let t₁ = with_delivery t end.delivery d.version in
      let t₂ = logged t₁ a in
      let t₃ = logged t₂ end.second_audit in
      let s₁ = with_transaction s id t₁ in
      let s₂ = with_transaction s₁ id t₂ in
      let s₃ = with_transaction s₂ id t₃ in
      bind_ok _ _ s s₁ (next_version d.version) (
        or_rollback_ok uow from_repository (delivery_save end.delivery d.version uow) s s₁ _
          (delivery_save-open s uow t end.delivery d.version opened current))
      ∙ bind_ok _ _ s₁ s₂ _ (
          or_rollback_ok uow from_repository (audit_append a uow) s₁ s₂ _
            (audit_append-open s₁ uow t₁ a (get-insert id t₁ s.store.transactions) no_append))
      ∙ bind_ok _ _ s₂ s₃ _ (
          or_rollback_ok uow from_repository (audit_append end.second_audit uow) s₂ s₃ _ (
            audit_append-open s₂ uow t₂ end.second_audit (get-insert id t₂ s₁.store.transactions)
              no_append))
      ∙ bind_ok _ _ s₃ _ _
          (commit_unit-open s₃ uow t₃ (get-insert id t₃ s₂.store.transactions) no_commit)
