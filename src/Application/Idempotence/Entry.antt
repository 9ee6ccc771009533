-- ===== src/Application/Idempotence/Entry.antt =====
-- crates/application/src/services/publication.rs: what `accept` leaves when it succeeds, with new material and with a
-- key that is already bound.
use quantalithos_bus.Base.{ℕ, ◌≡◌, refl, ◌∙◌, true, Option, none, some, List, arith, ok}
use quantalithos_bus.Base.Actions.{map_err}
use quantalithos_bus.Base.Maps.{get, text_key, id_key, pair_key}
use quantalithos_bus.Contracts.Core.{Core}
use quantalithos_bus.Contracts.Status.{PublicationAcceptanceStatus}
use quantalithos_bus.Contracts.Inputs.{AcceptPublicationCommand}
use quantalithos_bus.Contracts.Receipts.{PublicationAcceptanceResult}
use quantalithos_bus.Domain.Idempotency.Scope.{IdempotencyScope, for_accept_publication_command}
use quantalithos_bus.Domain.Idempotency.Digest.{
  IdempotencyAnchor, RequestDigest, RecordRef, matches, from_request,
}
use quantalithos_bus.Domain.Publication.Acceptance.{PublicationAcceptance}
use quantalithos_bus.Domain.Publication.Material.{PublicationMaterial}
use quantalithos_bus.Application.Ports.{RepositoryError, UnitOfWorkPurpose}
use quantalithos_bus.Application.Errors.From.{from_domain, from_repository}
use quantalithos_bus.Infra.Store.{MemoryStore, anchor_key}
use quantalithos_bus.Application.Services.Publication.{corrupted, load_existing_result}
use quantalithos_bus.Application.Idempotence.Accepted.{Accepted, Ensures-accepted_result}
use quantalithos_bus.Application.Triples.{Ensures, Ensures-bind, Ensures-bind_lift, Ensures-pure}
use quantalithos_bus.Application.Services.Publication.{
  result_of_status, load_bound_result, rejected_result, begin_idempotency_conflict,
}
use quantalithos_bus.Application.Services.Publication.Accept.{
  idempotency_key, replay_result, answer_bound, decide_new, accept_found, accept_publication,
}
use quantalithos_bus.Application.Services.{from_store}
use quantalithos_bus.Application.Idempotence.Accepted.{Bound}
use quantalithos_bus.Application.Idempotence.Decided.{Ensures-decision}
use quantalithos_bus.Application.Atomicity.{ok_injective}
use quantalithos_bus.Application.Triples.{
  mapped, Ensures-weaken_result, Ensures-map_err, Ensures-if, Ensures-raise, Ensures-after,
  Ensures-bind_some_or,
}
use quantalithos_bus.Infra.Store.Queries.{idempotency_anchor, publication}
use quantalithos_bus.Infra.System.Repositories.{idempotency_find, publication_get}
use quantalithos_bus.Contracts.Status.{acceptance_eq}
use quantalithos_bus.Contracts.Metadata.{PublicationId}
use quantalithos_bus.Contracts.Inputs.{AcceptPublicationCommand}
use quantalithos_bus.Domain.Idempotency.Scope.{for_accept_publication_command}

module _ ⦃core : Core⦄ where
  open core use {ActorContext, TraceId, IdempotencyKey, CommandMetadata, request_idempotency_key}

  Ensures-find :
      (P : MemoryStore → Type 0) (scope : IdempotencyScope) (key : IdempotencyKey)
      → Ensures P
          (from_store (idempotency_find scope key))
          (λ o s. get ⦃key = anchor_key⦄ (scope, key) s.anchors ≡ o)
  unfolding from_store idempotency_find idempotency_anchor
  Ensures-find P scope key =
      Ensures-map_err P _ from_repository (idempotency_find scope key)
        (record { at = λ s p o done. ok_injective {E = RepositoryError} _ o done })

  Ensures-get :
      (P : MemoryStore → Type 0) (id : PublicationId)
      → Ensures P (from_store (publication_get id)) (λ o s. P s × (get id s.publications ≡ o))
  unfolding from_store publication_get publication
  Ensures-get P id =
      Ensures-map_err P _ from_repository (publication_get id)
        (record { at = λ s p o done. (p, ok_injective {E = RepositoryError} _ o done) })

  -- What the anchor that is found and matches gives.
  Replayed :
      (scope : IdempotencyScope) (key : IdempotencyKey) (digest : RequestDigest)
      → PublicationAcceptanceResult
      → MemoryStore
      → Type 0
  Replayed scope key digest r s =
      r.acceptance_status ≡ PublicationAcceptanceStatus.accepted → Accepted scope key digest r s

  acceptance_eq_sound :
      (status : PublicationAcceptanceStatus)
      → acceptance_eq status PublicationAcceptanceStatus.accepted ≡ true
      → status ≡ PublicationAcceptanceStatus.accepted
  acceptance_eq_sound PublicationAcceptanceStatus.accepted e = refl
  acceptance_eq_sound PublicationAcceptanceStatus.rejected e = ground arith
  acceptance_eq_sound PublicationAcceptanceStatus.pending e = ground arith

  module _ (scope : IdempotencyScope) (key : IdempotencyKey) (digest : RequestDigest) where
    Ensures-result_of_status :
        (P : MemoryStore → Type 0) (status : PublicationAcceptanceStatus)
        (a : PublicationAcceptance)
        → ((s : MemoryStore) → P s → Bound scope key digest a s)
        → a.status ≡ status
        → Ensures P (result_of_status status a) (Replayed scope key digest)
    unfolding result_of_status rejected_result Replayed
    Ensures-result_of_status P PublicationAcceptanceStatus.accepted a bound status =
        Ensures-weaken_result P _ _ _ (λ r s h e. h)
          (Ensures-accepted_result P scope key digest a bound status)
    Ensures-result_of_status P PublicationAcceptanceStatus.rejected a bound status =
        Ensures-bind_some_or P _ corrupted a.reject_reason _ (λ reason eq.
          Ensures-bind_some_or P _ corrupted a.decision_audit_ref _
            (λ ref audited. Ensures-pure P _ _ (λ s p e. cc)))
    Ensures-result_of_status P PublicationAcceptanceStatus.pending a bound status =
        Ensures-raise P _ corrupted

    Ensures-load :
        (b : IdempotencyAnchor) (record_ref : RecordRef)
        → matches b digest ≡ true
        → b.bound_record_ref ≡ record_ref
        → Ensures
            (λ s. get ⦃key = anchor_key⦄ (scope, key) s.anchors ≡ some b)
            (load_bound_result record_ref)
            (Replayed scope key digest)
    unfolding load_bound_result
    Ensures-load b (RecordRef.feedback id) same bound = Ensures-raise _ _ corrupted
    Ensures-load b (RecordRef.publication id) same bound =
        let P : MemoryStore → Type 0 =
          λ s. get ⦃key = anchor_key⦄ (scope, key) s.anchors ≡ some b in
        Ensures-bind P _ _ _ _ (Ensures-get P id) (λ o.
          Ensures-bind_some_or _ _ corrupted o _ (λ a eq.
            Ensures-result_of_status _ a.status a
              (λ s p. record {
                anchor = b;
                id = id;
                found = p.0;
                digested = same;
                bound = bound;
                stored = p.1 ∙ eq;
              })
              refl))

    Ensures-replay_result :
        (r : PublicationAcceptanceResult)
        → Ensures
            (Replayed scope key digest r)
            (replay_result (λ a. a) r)
            (Accepted scope key digest)
    unfolding replay_result Replayed
    Ensures-replay_result r =
        Ensures-if _ _ (acceptance_eq r.acceptance_status PublicationAcceptanceStatus.accepted) _ _
          (λ e. Ensures-pure _ _ r (λ s p. p (acceptance_eq_sound r.acceptance_status e)))
          (λ e. Ensures-raise _ _ _)

    Ensures-answer_bound :
        (purpose : UnitOfWorkPurpose) (b : IdempotencyAnchor) (actor : ActorContext)
        (trace_ref : TraceId)
        → Ensures
            (λ s. get ⦃key = anchor_key⦄ (scope, key) s.anchors ≡ some b)
            (answer_bound purpose (λ r. r) scope key b digest actor trace_ref)
            (Accepted scope key digest)
    unfolding answer_bound load_existing_result begin_idempotency_conflict
    Ensures-answer_bound purpose b actor trace_ref =
        Ensures-if _ _ (matches b digest) _ _
          (λ same.
            Ensures-bind _ _ _ _ _ (Ensures-load b b.bound_record_ref same refl)
              Ensures-replay_result)
          (λ other. search (Ensures-after, Ensures-raise) depth 20)

    Ensures-decide_new :
        (purpose : UnitOfWorkPurpose) (m : PublicationMaterial) (p : PublicationAcceptance)
        (actor : ActorContext) (trace_ref : TraceId)
        → Ensures
            (λ s. Unit {0})
            (decide_new purpose m p actor trace_ref digest scope key)
            (Accepted scope key digest)
    unfolding decide_new
    Ensures-decide_new purpose m p actor trace_ref =
        search (Ensures-if, Ensures-after, Ensures-raise, Ensures-decision) depth 20

    Ensures-accept_found :
        (o : Option IdempotencyAnchor) (c : AcceptPublicationCommand) (actor : ActorContext)
        (meta : CommandMetadata)
        → Ensures
            (λ s. get ⦃key = anchor_key⦄ (scope, key) s.anchors ≡ o)
            (accept_found o c actor meta digest scope key)
            (Accepted scope key digest)
    unfolding accept_found
    Ensures-accept_found (some b) c actor meta =
        Ensures-answer_bound UnitOfWorkPurpose.accept_publication b actor _
    Ensures-accept_found none c actor meta = search (Ensures-after, Ensures-decide_new) depth 10

  -- `r` is the result of the acceptance that is bound to this key, which was of this command.
  pub record Answered (to_vec : AcceptPublicationCommand → Option (List ℕ))
      (c : AcceptPublicationCommand) (found : Option IdempotencyKey)
      (r : PublicationAcceptanceResult) (s : MemoryStore) : Type 0 where
    pub key : IdempotencyKey
    pub digest : RequestDigest
    pub keyed : found ≡ some key
    pub made : from_request to_vec c ≡ ok digest
    pub accepted : Accepted (for_accept_publication_command c) key digest r s

  pub Ensures-accept_publication :
      (to_vec : AcceptPublicationCommand → Option (List ℕ)) (c : AcceptPublicationCommand)
      (actor : ActorContext) (meta : CommandMetadata)
      → Ensures
          (λ s. Unit {0})
          (accept_publication to_vec c actor meta)
          (Answered to_vec c (request_idempotency_key meta))
  unfolding accept_publication idempotency_key
  Ensures-accept_publication to_vec c actor meta =
      let scope = for_accept_publication_command c in
      let R = Answered to_vec c (request_idempotency_key meta) in
      Ensures-bind_some_or (λ s. Unit {0}) R _ (request_idempotency_key meta) _
        (λ k keyed.
          Ensures-bind_lift (λ s. Unit {0}) R (map_err from_domain (from_request to_vec c)) _
            (λ g made.
              let Q : Option IdempotencyAnchor → MemoryStore → Type 0 =
                λ o s. get ⦃key = anchor_key⦄ (scope, k) s.anchors ≡ o in
              Ensures-bind (λ s. Unit {0}) Q R (from_store (idempotency_find scope k)) _
                (Ensures-find (λ s. Unit {0}) scope k)
                (λ o.
                  Ensures-weaken_result _ _ _ _
                    (λ r s accepted. record {
                      key = k;
                      digest = g;
                      keyed = keyed;
                      made = mapped from_domain (from_request to_vec c) g made;
                      accepted = accepted;
                    })
                    (Ensures-accept_found scope k g o c actor meta))))
