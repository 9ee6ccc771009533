-- ===== src/Application/Idempotence/Replay.antt =====
-- crates/application/src/services/publication.rs: `accept` with a key that is bound to the same request.
use quantalithos_bus.Base.{ℕ, ◌≡◌, refl, sym, subst, Option, some, List, ok}
use quantalithos_bus.Contracts.Core.{Core}
use quantalithos_bus.Base.Text.{Text}
use quantalithos_bus.Contracts.Inputs.{AcceptPublicationCommand}
use quantalithos_bus.Contracts.Status.{PublicationAcceptanceStatus}
use quantalithos_bus.Contracts.Receipts.{
  PublicationAcceptanceResult, publication_acceptance_accepted,
}
use quantalithos_bus.Infra.System.{System}
use quantalithos_bus.Domain.Idempotency.Digest.{RecordRef}
use quantalithos_bus.Infra.Store.Queries.{publication}
use quantalithos_bus.Infra.System.Repositories.{idempotency_find, publication_get}
use quantalithos_bus.Base.Actions.{lift, some_or, pure, ◌>>=◌}
use quantalithos_bus.Domain.Publication.Acceptance.{PublicationAcceptance}
use quantalithos_bus.Application.Services.Publication.{
  accepted_result, result_of_status, load_bound_result, load_existing_result,
}
use quantalithos_bus.Application.Services.{from_store}
use quantalithos_bus.Application.Services.Publication.Accept.{
  idempotency_key, replay_result, answer_bound, accept_found, accept_publication,
}
use quantalithos_bus.Application.Idempotence.Entry.{Answered, Ensures-accept_publication}

module _ ⦃core : Core⦄ where
  open core use {ActorContext, CommandMetadata, request_idempotency_key}

  load-bound :
      (ref : RecordRef) (id : Text) (a : PublicationAcceptance) (r : PublicationAcceptanceResult)
      (s : System)
      → ref ≡ RecordRef.publication id
      → publication s.store id ≡ some a
      → a.status ≡ PublicationAcceptanceStatus.accepted
      → a.decision_audit_ref ≡ some r.audit_ref
      → publication_acceptance_accepted a.publication_id r.audit_ref ≡ r
      → load_bound_result ref s ≡ (s, ok r)
  unfolding load_bound_result from_store publication_get some_or pure ◌>>=◌ result_of_status
      accepted_result
  load-bound ref id a r s h1 h2 h3 h4 h5 = rw (h1, h2, h3, h4, h5) refl

  Answered-repeated :
      (to_vec : AcceptPublicationCommand → Option (List ℕ)) (c : AcceptPublicationCommand)
      (actor : ActorContext) (meta : CommandMetadata) (r : PublicationAcceptanceResult) (s : System)
      → Answered to_vec c (request_idempotency_key meta) r s.store
      → accept_publication to_vec c actor meta s ≡ (s, ok r)
  unfolding accept_publication idempotency_key some_or pure lift ◌>>=◌ from_store idempotency_find
      accept_found answer_bound load_existing_result replay_result
  Answered-repeated to_vec c actor meta r s h =
      let b = h.accepted.is_bound in
      let a = h.accepted.acceptance in
      rw
        (
          h.keyed,
          h.made,
          b.found,
          b.digested,
          load-bound b.anchor.bound_record_ref b.id a r s b.bound b.stored h.accepted.accepted
              h.accepted.audited h.accepted.result,
          sym h.accepted.result,
        )
        refl

  -- A publication command that has been accepted, once repeated with the same idempotency key, by whatever actor and
  -- with whatever other metadata, has the same result and changes nothing.
  pub accept-repeated :
      (to_vec : AcceptPublicationCommand → Option (List ℕ)) (c : AcceptPublicationCommand)
      (actor actor' : ActorContext) (meta meta' : CommandMetadata) (s : System)
      (r : PublicationAcceptanceResult)
      → request_idempotency_key meta' ≡ request_idempotency_key meta
      → (accept_publication to_vec c actor meta s).1 ≡ ok r
      → let t = (accept_publication to_vec c actor meta s).0 in
        accept_publication to_vec c actor' meta' t ≡ (t, ok r)
  accept-repeated to_vec c actor actor' meta meta' s r same done =
      let t = (accept_publication to_vec c actor meta s).0 in
      Answered-repeated to_vec c actor' meta' r t (
        subst (λ k. Answered to_vec c k r t.store) (sym same)
          ((Ensures-accept_publication to_vec c actor meta).at s tt r done))
