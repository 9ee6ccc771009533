-- ===== src/Application/Idempotence/Accepted.antt =====
-- What the store holds after a publication is accepted.
use quantalithos_bus.Base.{◌≡◌, refl, true, some}
use quantalithos_bus.Base.Maps.{get, text_key, id_key, pair_key}
use quantalithos_bus.Contracts.Core.{Core}
use quantalithos_bus.Contracts.Status.{PublicationAcceptanceStatus}
use quantalithos_bus.Contracts.Metadata.{PublicationId}
use quantalithos_bus.Contracts.Receipts.{
  PublicationAcceptanceResult, publication_acceptance_accepted,
}
use quantalithos_bus.Domain.Idempotency.Scope.{IdempotencyScope}
use quantalithos_bus.Domain.Idempotency.Digest.{
  IdempotencyAnchor, RequestDigest, RecordRef, matches,
}
use quantalithos_bus.Domain.Publication.Acceptance.{PublicationAcceptance}
use quantalithos_bus.Infra.Store.{MemoryStore, anchor_key}
use quantalithos_bus.Application.Services.Publication.{corrupted, accepted_result}
use quantalithos_bus.Application.Triples.{Ensures, Ensures-bind_some_or, Ensures-pure}

module _ ⦃core : Core⦄ where
  open core use {IdempotencyKey}

  -- The key is bound to a publication, of a request with the digest.
  pub record Bound (scope : IdempotencyScope) (key : IdempotencyKey) (digest : RequestDigest)
      (acceptance : PublicationAcceptance) (s : MemoryStore) : Type 0 where
    pub anchor : IdempotencyAnchor
    pub id : PublicationId
    pub found : get ⦃key = anchor_key⦄ (scope, key) s.anchors ≡ some anchor
    pub digested : matches anchor digest ≡ true
    pub bound : anchor.bound_record_ref ≡ RecordRef.publication id
    pub stored : get id s.publications ≡ some acceptance

  -- `r` is the result of such a publication, which is accepted.
  pub record Accepted (scope : IdempotencyScope) (key : IdempotencyKey) (digest : RequestDigest)
      (r : PublicationAcceptanceResult) (s : MemoryStore) : Type 0 where
    pub acceptance : PublicationAcceptance
    pub is_bound : Bound scope key digest acceptance s
    pub accepted : acceptance.status ≡ PublicationAcceptanceStatus.accepted
    pub audited : acceptance.decision_audit_ref ≡ some r.audit_ref
    pub result : publication_acceptance_accepted acceptance.publication_id r.audit_ref ≡ r

  pub Ensures-accepted_result :
      (P : MemoryStore → Type 0) (scope : IdempotencyScope) (key : IdempotencyKey)
      (digest : RequestDigest) (d : PublicationAcceptance)
      → ((s : MemoryStore) → P s → Bound scope key digest d s)
      → d.status ≡ PublicationAcceptanceStatus.accepted
      → Ensures P (accepted_result d) (Accepted scope key digest)
  unfolding accepted_result
  Ensures-accepted_result P scope key digest d bound status =
      let Q = Accepted scope key digest in
      Ensures-bind_some_or P Q corrupted d.decision_audit_ref _ (λ ref eq.
        Ensures-pure P Q (publication_acceptance_accepted d.publication_id ref) (λ s p. record {
          acceptance = d;
          is_bound = bound s p;
          accepted = status;
          audited = eq;
          result = refl;
        }))
