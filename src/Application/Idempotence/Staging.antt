-- ===== src/Application/Idempotence/Staging.antt =====
-- The calls of the acceptance of a publication, on the transaction that they write.
pub mod Calls
use quantalithos_bus.Base.{
  ℕ, ◌+◌, ◌%◌, ◌≡◌, refl, ap, sym, subst, ◌∙◌, Bool, true, false, Option, none, some, [], ◌∷◌, ◌++◌,
  Result, ok, err, if◌then◌else◌,
}
use quantalithos_bus.Base.Maps.{
  Map, get, insert, insert_all, remove, get-insert, text_key, id_key, pair_key,
}
use quantalithos_bus.Contracts.Core.{Core}
use quantalithos_bus.Contracts.Metadata.{PublicationId}
use quantalithos_bus.Contracts.Projections.{u64_mod}
use quantalithos_bus.Application.Ports.{
  UnitOfWorkPurpose, UnitOfWorkHandle, RepositoryError, UnitOfWorkError,
}
use quantalithos_bus.Application.Errors.From.{from_unit_of_work}
use quantalithos_bus.Domain.Audit.{BusAuditEntry}
use quantalithos_bus.Domain.Idempotency.Scope.{IdempotencyScope}
use quantalithos_bus.Domain.Idempotency.Digest.{IdempotencyAnchor}
use quantalithos_bus.Domain.Publication.Acceptance.{PublicationAcceptance}
use quantalithos_bus.Domain.Publication.Material.{PublicationMaterial}
use quantalithos_bus.Infra.Store.{MemoryStore, StagedTransaction, staged_new, anchor_key}
use quantalithos_bus.Infra.Store.Transactions.{
  begin_transaction, commit_transaction, commit_removed, commit_staged,
}
use quantalithos_bus.Infra.Store.Staging.{
  with_staged, with_found, store_staged, stage_publication, stage_publication_material,
  stage_idempotency_anchor, stage_audit_entry,
}
use quantalithos_bus.Infra.System.{on_store, begin, commit, commit_taken}
use quantalithos_bus.Infra.System.Repositories.{
  publication_store_material, publication_insert, idempotency_bind, append_taken, audit_append,
}
use quantalithos_bus.Application.Services.{begin_unit, commit_unit}
use quantalithos_bus.Application.Atomicity.{ok_injective}
use quantalithos_bus.Application.Triples.{Ensures, Ensures-map_err}

module _ ⦃core : Core⦄ where
  open core use {IdempotencyKey}

  abbrev pub Publications : Type 0
  Publications = Map PublicationId PublicationAcceptance

  abbrev pub Anchors : Type 0
  Anchors = Map (IdempotencyScope × IdempotencyKey) IdempotencyAnchor

  -- The transaction of `h` is open, with these publications and anchors.
  pub record Staged (h : UnitOfWorkHandle) (ps : Publications) (bs : Anchors) (s : MemoryStore)
      : Type 0 where
    pub transaction : StagedTransaction
    pub opened : get h.transaction_id s.transactions ≡ some transaction
    pub publications : transaction.publications ≡ ps
    pub anchors : transaction.anchors ≡ bs

  -- They are committed.
  pub record Committed (ps : Publications) (bs : Anchors) (s : MemoryStore) : Type 0 where
    pub old_publications : Publications
    pub old_anchors : Anchors
    pub publications : s.publications ≡ insert_all ps old_publications
    pub anchors : s.anchors ≡ insert_all ⦃key = anchor_key⦄ bs old_anchors

  module _ {A : Type 0} where
    -- What a body does to a transaction.
    pub Turns :
        (StagedTransaction → Result RepositoryError (StagedTransaction × A))
        → Publications
        → Anchors
        → Publications
        → Anchors
        → Type 0
    Turns body ps bs ps' bs' =
        (t t' : StagedTransaction) (a : A)
        → body t ≡ ok (t', a)
        → t.publications ≡ ps
        → t.anchors ≡ bs
        → (t'.publications ≡ ps') × (t'.anchors ≡ bs')

    -- The transaction that a guarded body leaves.
    pub left :
        (b : Bool) (e : RepositoryError) (u t' : StagedTransaction) (v a : A)
        → if◌then◌else◌ {A = Result RepositoryError (StagedTransaction × A)} b (err e) (ok (u, v))
          ≡ ok (t', a)
        → u ≡ t'
    left true e u t' v a h = cc
    left false e u t' v a h = ap (λ r. r.0) (ok_injective {E = RepositoryError} (u, v) (t', a) h)

    stored-Staged :
        (h : UnitOfWorkHandle) (ps' : Publications) (bs' : Anchors) (s : MemoryStore)
        (r : Result RepositoryError (StagedTransaction × A))
        → ((t' : StagedTransaction) (a : A)
            → r ≡ ok (t', a)
            → (t'.publications ≡ ps') × (t'.anchors ≡ bs'))
        → (a : A) → (store_staged s h.transaction_id r).1 ≡ ok a
        → Staged h ps' bs' (store_staged s h.transaction_id r).0
    unfolding store_staged
    stored-Staged h ps' bs' s (err e) k a done = cc
    stored-Staged h ps' bs' s (ok (t', b)) k a done =
        let (p, q) = k t' b refl in
        record {
          transaction = t';
          opened = get-insert h.transaction_id t' s.transactions;
          publications = p;
          anchors = q;
        }

    pub with_staged-Staged :
        (h : UnitOfWorkHandle) (ps ps' : Publications) (bs bs' : Anchors) (s : MemoryStore)
        (body : StagedTransaction → Result RepositoryError (StagedTransaction × A))
        → Turns body ps bs ps' bs'
        → Staged h ps bs s
        → (a : A) → (with_staged s h.transaction_id body).1 ≡ ok a
        → Staged h ps' bs' (with_staged s h.transaction_id body).0
    unfolding Turns with_staged with_found
    with_staged-Staged h ps ps' bs bs' s body turns st = rw st.opened (
        stored-Staged h ps' bs' s (body st.transaction)
          (λ t' a eq. turns st.transaction t' a eq st.publications st.anchors))

    pub guarded-Staged :
        (h : UnitOfWorkHandle) (ps' : Publications) (bs' : Anchors) (s : MemoryStore) (b : Bool)
        (e : RepositoryError) (p : MemoryStore × Result RepositoryError A)
        → ((a : A) → p.1 ≡ ok a → Staged h ps' bs' p.0)
        → (a : A) → (if b then (s, err e) else p).1 ≡ ok a
        → Staged h ps' bs' (if b then (s, err e) else p).0
    guarded-Staged h ps' bs' s true e p k a done = cc
    guarded-Staged h ps' bs' s false e p k a done = k a done
