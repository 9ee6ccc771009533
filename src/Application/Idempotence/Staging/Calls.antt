-- ===== src/Application/Idempotence/Staging/Calls.antt =====
-- The calls of the acceptance of a publication, each on the transaction that it writes.
use quantalithos_bus.Base.{
  ℕ, ◌+◌, ◌%◌, ◌≡◌, refl, ap, sym, subst, ◌∙◌, false, Option, none, some, [], ◌∷◌, ◌++◌, ok,
}
use quantalithos_bus.Base.Maps.{insert, insert_all, remove, get-insert, text_key, id_key, pair_key}
use quantalithos_bus.Contracts.Core.{Core}
use quantalithos_bus.Contracts.Projections.{u64_mod}
use quantalithos_bus.Application.Ports.{
  UnitOfWorkPurpose, UnitOfWorkHandle, RepositoryError, UnitOfWorkError,
}
use quantalithos_bus.Application.Errors.From.{from_unit_of_work}
use quantalithos_bus.Domain.Audit.{BusAuditEntry}
use quantalithos_bus.Domain.Idempotency.Digest.{IdempotencyAnchor}
use quantalithos_bus.Domain.Publication.Acceptance.{PublicationAcceptance}
use quantalithos_bus.Domain.Publication.Material.{PublicationMaterial}
use quantalithos_bus.Infra.Store.{MemoryStore, StagedTransaction, staged_new, anchor_key}
use quantalithos_bus.Infra.Store.Transactions.{
  begin_transaction, commit_transaction, commit_removed, commit_staged,
}
use quantalithos_bus.Infra.Store.Staging.{
  stage_publication, stage_publication_material, stage_idempotency_anchor, stage_audit_entry,
}
use quantalithos_bus.Infra.System.{on_store, begin, commit, commit_taken}
use quantalithos_bus.Infra.System.Repositories.{
  publication_store_material, publication_insert, idempotency_bind, append_taken, audit_append,
}
use quantalithos_bus.Application.Services.{begin_unit, commit_unit}
use quantalithos_bus.Application.Atomicity.{ok_injective}
use quantalithos_bus.Application.Triples.{Ensures, Ensures-map_err}
use quantalithos_bus.Application.Idempotence.Staging.{
  Anchors, Committed, Publications, Staged, Turns, guarded-Staged, left, with_staged-Staged,
}

module _ ⦃core : Core⦄ where
  open core use {ActorContext}

  pub Ensures-begin_unit :
      (P : MemoryStore → Type 0) (purpose : UnitOfWorkPurpose) (actor : ActorContext)
      → Ensures P (begin_unit purpose actor) (λ h. Staged h [] [])
  unfolding begin_unit begin on_store begin_transaction staged_new
  Ensures-begin_unit P purpose actor =
      Ensures-map_err P (λ h. Staged h [] []) from_unit_of_work (begin purpose actor)
        (record {
          at = λ s p a done.
              let id = (s.store.next_transaction_id + 1) % u64_mod in
              let handle : UnitOfWorkHandle = record { transaction_id = id; purpose = purpose } in
              subst (λ b. Staged b [] [] (begin purpose actor s).0.store)
                (ok_injective {E = UnitOfWorkError} handle a done)
                (record {
                  transaction = staged_new purpose;
                  opened = get-insert id (staged_new purpose) s.store.transactions;
                  publications = refl;
                  anchors = refl;
                });
        })

  pub Ensures-store_material :
      (h : UnitOfWorkHandle) (ps : Publications) (bs : Anchors) (m : PublicationMaterial)
      → Ensures (Staged h ps bs) (publication_store_material m h) (λ a. Staged h ps bs)
  unfolding publication_store_material on_store stage_publication_material Turns
  Ensures-store_material h ps bs m = record {
    at = λ s st. guarded-Staged h ps bs s.store _ RepositoryError.unique_violation _ (
        with_staged-Staged h ps ps bs bs s.store _
          (λ t t' a eq p q.
            let e = left _ RepositoryError.unique_violation _ t' tt a eq in
            (
              sym (ap StagedTransaction.publications e) ∙ p,
              sym (ap StagedTransaction.anchors e) ∙ q,
            ))
          st);
  }

  pub Ensures-insert :
      (h : UnitOfWorkHandle) (ps : Publications) (bs : Anchors) (p : PublicationAcceptance)
      → Ensures
          (Staged h ps bs)
          (publication_insert p h)
          (λ a. Staged h (insert p.publication_id p ps) bs)
  unfolding publication_insert on_store stage_publication Turns
  Ensures-insert h ps bs p = record {
    at = λ s st.
        guarded-Staged h (insert p.publication_id p ps) bs s.store _
          RepositoryError.unique_violation _
          (with_staged-Staged h ps (insert p.publication_id p ps) bs bs s.store _
            (λ t t' a eq x y.
              let e = left _ RepositoryError.unique_violation _ t' _ a eq in
              (
                sym (ap StagedTransaction.publications e) ∙ ap (insert p.publication_id p) x,
                sym (ap StagedTransaction.anchors e) ∙ y,
              ))
            st);
  }

  pub Ensures-bind_anchor :
      (h : UnitOfWorkHandle) (ps : Publications) (bs : Anchors) (b : IdempotencyAnchor)
      → Ensures
          (Staged h ps bs)
          (idempotency_bind b h)
          (λ a. Staged h ps (insert ⦃key = anchor_key⦄ (b.scope, b.key) b bs))
  unfolding idempotency_bind on_store stage_idempotency_anchor Turns
  Ensures-bind_anchor h ps bs b =
      let bs' = insert ⦃key = anchor_key⦄ (b.scope, b.key) b bs in
      record {
        at = λ s st. guarded-Staged h ps bs' s.store _ RepositoryError.unique_violation _ (
            with_staged-Staged h ps ps bs bs' s.store _
              (λ t t' a eq x y.
                let e = left _ RepositoryError.unique_violation _ t' tt a eq in
                (
                  sym (ap StagedTransaction.publications e) ∙ x,
                  sym (ap StagedTransaction.anchors e)
                      ∙ ap (insert ⦃key = anchor_key⦄ (b.scope, b.key) b) y,
                ))
              st);
      }

  appended-Staged :
      (h : UnitOfWorkHandle) (ps : Publications) (bs : Anchors) (entry : BusAuditEntry)
      (o : Option RepositoryError)
      → Ensures (Staged h ps bs) (append_taken entry h o) (λ a. Staged h ps bs)
  unfolding append_taken on_store stage_audit_entry Turns
  appended-Staged h ps bs entry (some e) = record { at = λ s st a done. cc }
  appended-Staged h ps bs entry none = record {
    at = λ s st.
        let n = (s.store.next_audit_sequence + 1) % u64_mod in
        with_staged-Staged {A = ℕ} h ps ps bs bs s.store
          (λ t. ok (record t { audits = t.audits ++ entry ∷ [] }, n))
          (λ t t' a eq x y.
            let u : StagedTransaction = record t { audits = t.audits ++ entry ∷ [] } in
            let e : u ≡ t' = left false RepositoryError.unavailable u t' n a eq in
            (
              sym (ap StagedTransaction.publications e) ∙ x,
              sym (ap StagedTransaction.anchors e) ∙ y,
            ))
          st;
  }

  pub Ensures-audit_append :
      (h : UnitOfWorkHandle) (ps : Publications) (bs : Anchors) (entry : BusAuditEntry)
      → Ensures (Staged h ps bs) (audit_append entry h) (λ a. Staged h ps bs)
  unfolding audit_append
  Ensures-audit_append h ps bs entry = record {
    at = λ s. (appended-Staged h ps bs entry s.fail_next_append).at s;
  }

  removed-Committed :
      (h : UnitOfWorkHandle) (ps : Publications) (bs : Anchors) (s : MemoryStore)
      (t : StagedTransaction)
      → t.publications ≡ ps
      → t.anchors ≡ bs
      → Committed ps bs (commit_removed s h (some t)).0
  unfolding commit_removed commit_staged
  removed-Committed h ps bs s t x y = record {
    old_publications = s.publications;
    old_anchors = s.anchors;
    publications = ap (λ p. insert_all p s.publications) x;
    anchors = ap (λ b. insert_all ⦃key = anchor_key⦄ b s.anchors) y;
  }

  commit_taken-Committed :
      (h : UnitOfWorkHandle) (ps : Publications) (bs : Anchors) (o : Option UnitOfWorkError)
      → Ensures (Staged h ps bs) (commit_taken h o) (λ a. Committed ps bs)
  unfolding commit_taken on_store commit_transaction
  commit_taken-Committed h ps bs (some e) = record { at = λ s st a done. cc }
  commit_taken-Committed h ps bs none = record {
    at = λ s st a done.
        let rest = record s.store { transactions = remove h.transaction_id s.store.transactions } in
        subst (λ o. Committed ps bs (commit_removed rest h o).0) (sym st.opened)
          (removed-Committed h ps bs rest st.transaction st.publications st.anchors);
  }

  pub Ensures-commit_unit :
      (h : UnitOfWorkHandle) (ps : Publications) (bs : Anchors)
      → Ensures (Staged h ps bs) (commit_unit h) (λ a. Committed ps bs)
  unfolding commit_unit commit
  Ensures-commit_unit h ps bs =
      Ensures-map_err (Staged h ps bs) (λ a. Committed ps bs) from_unit_of_work (commit h)
        (record { at = λ s. (commit_taken-Committed h ps bs s.fail_next_commit).at s })
