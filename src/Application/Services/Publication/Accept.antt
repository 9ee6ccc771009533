-- ===== src/Application/Services/Publication/Accept.antt =====
-- crates/application/src/services/publication.rs: the entry points of the acceptance. `serde_json::to_vec`, of the
-- request digest, is a parameter.
use quantalithos_bus.Base.{ℕ, not, Option, none, some, List, if◌then◌else◌}
use quantalithos_bus.Base.Actions.{pure, raise, lift, some_or, ◌>>=◌, map_err}
use quantalithos_bus.Base.Text.{codes}
use quantalithos_bus.Contracts.Core.{Core}
use quantalithos_bus.Contracts.Status.{PublicationAcceptanceStatus, acceptance_eq}
use quantalithos_bus.Contracts.Metadata.{EventMetadata}
use quantalithos_bus.Contracts.Inputs.{AcceptPublicationCommand, CommittedOutboxFactInput}
use quantalithos_bus.Contracts.Receipts.{
  PublicationAcceptanceResult, OutboxRelayResult, outbox_relay_accepted, outbox_relay_duplicate,
}
use quantalithos_bus.Domain.Idempotency.Scope.{
  IdempotencyScope, for_accept_publication_command, for_outbox_fact,
}
use quantalithos_bus.Domain.Idempotency.Digest.{
  IdempotencyAnchor, RequestDigest, from_request, matches,
}
use quantalithos_bus.Domain.Publication.Acceptance.{
  PublicationAcceptance, PublicationRejectReason, start_pending,
}
use quantalithos_bus.Domain.Publication.Material.{
  PublicationMaterial, from_accept_publication_command, from_outbox_fact, has_core_contract,
  rejects_body,
}
use quantalithos_bus.Application.Ports.{UnitOfWorkPurpose}
use quantalithos_bus.Application.Errors.{validation_error}
use quantalithos_bus.Application.Errors.From.{from_domain}
use quantalithos_bus.Infra.System.Repositories.{idempotency_find}
use quantalithos_bus.Application.Services.{App, from_store}
use quantalithos_bus.Application.Services.Publication.{
  load_existing_result, error_from_rejected_result, begin_idempotency_conflict,
  commit_publication_decision, validation_error_from_rejected_result, boundary_error_from_result,
}

unfoldable pub duplicate_outbox_result : PublicationAcceptanceResult → OutboxRelayResult
duplicate_outbox_result existing_result =
    outbox_relay_duplicate existing_result.publication_id existing_result.audit_ref

module _ ⦃core : Core⦄ where
  open core use {
    ActorContext, CommandMetadata, IdempotencyKey, TraceId, request_trace_id,
    request_idempotency_key,
  }

  unfoldable pub idempotency_key : CommandMetadata → App IdempotencyKey
  unfolding some_or
  idempotency_key meta =
      some_or
        (validation_error "validation.idempotency_key_missing"
          (codes "x-idempotency-key is required"))
        (request_idempotency_key meta)

  -- `if existing_result.acceptance_status == Accepted { Ok(…) } else { Err(…) }`
  unfoldable pub replay_result :
      {A : Type 0} → (PublicationAcceptanceResult → A) → PublicationAcceptanceResult → App A
  unfolding pure raise error_from_rejected_result
  replay_result f existing_result =
      if acceptance_eq existing_result.acceptance_status PublicationAcceptanceStatus.accepted
      then pure (f existing_result)
      else raise (error_from_rejected_result existing_result)

  -- What both entry points do when the key is already bound; `f` makes the result of a duplicate.
  unfoldable pub answer_bound :
      {A : Type 0}
      → UnitOfWorkPurpose
      → (PublicationAcceptanceResult → A)
      → IdempotencyScope
      → IdempotencyKey
      → IdempotencyAnchor
      → RequestDigest
      → ActorContext
      → TraceId
      → App A
  unfolding matches load_existing_result replay_result begin_idempotency_conflict ◌>>=◌
  answer_bound purpose f scope key existing_anchor request_digest actor trace_ref =
      if matches existing_anchor request_digest
      then (do
        existing_result ← load_existing_result existing_anchor
        replay_result f existing_result)
      else begin_idempotency_conflict purpose scope key existing_anchor request_digest actor
          trace_ref

  -- What both do with new material: the two rejections, which are committed and then reported as errors, and the
  -- acceptance.
  unfoldable pub decide_new :
      UnitOfWorkPurpose
      → PublicationMaterial
      → PublicationAcceptance
      → ActorContext
      → TraceId
      → RequestDigest
      → IdempotencyScope
      → IdempotencyKey
      → App PublicationAcceptanceResult
  unfolding has_core_contract rejects_body commit_publication_decision ◌>>=◌ raise
      validation_error_from_rejected_result boundary_error_from_result
  decide_new purpose material acceptance actor trace_ref request_digest scope key =
      if not (has_core_contract material)
      then (do
        result ←
            commit_publication_decision purpose material acceptance actor trace_ref request_digest
              scope key (some PublicationRejectReason.missing_core_event_ref)
        raise (validation_error_from_rejected_result result))
      else if rejects_body material
      then (do
        result ←
            commit_publication_decision purpose material acceptance actor trace_ref request_digest
              scope key (some PublicationRejectReason.payload_boundary_violation)
        raise (boundary_error_from_result result))
      else commit_publication_decision purpose material acceptance actor trace_ref request_digest
          scope key none

  -- `accept` on what `find(&scope, &idempotency_key)` gives.
  unfoldable pub accept_found :
      Option IdempotencyAnchor
      → AcceptPublicationCommand
      → ActorContext
      → CommandMetadata
      → RequestDigest
      → IdempotencyScope
      → IdempotencyKey
      → App PublicationAcceptanceResult
  unfolding answer_bound decide_new lift from_domain from_accept_publication_command start_pending
      ◌>>=◌
  accept_found (some existing_anchor) command actor meta request_digest scope key =
      answer_bound UnitOfWorkPurpose.accept_publication (λ r. r) scope key existing_anchor
        request_digest actor (request_trace_id meta)
  accept_found none command actor meta request_digest scope key = do
    material ← lift (map_err from_domain (from_accept_publication_command command actor meta))
    acceptance ← lift (map_err from_domain (start_pending material actor))
    decide_new UnitOfWorkPurpose.accept_publication material acceptance actor
        (request_trace_id meta) request_digest scope key

  unfoldable pub accept_publication :
      (AcceptPublicationCommand → Option (List ℕ))
      → AcceptPublicationCommand
      → ActorContext
      → CommandMetadata
      → App PublicationAcceptanceResult
  unfolding idempotency_key for_accept_publication_command from_request lift from_domain from_store
      idempotency_find accept_found ◌>>=◌
  accept_publication to_vec command actor meta = do
    key ← idempotency_key meta
    let scope = for_accept_publication_command command
    request_digest ← lift (map_err from_domain (from_request to_vec command))
    found ← from_store (idempotency_find scope key)
    accept_found found command actor meta request_digest scope key

  unfoldable pub outbox_fact_found :
      Option IdempotencyAnchor
      → CommittedOutboxFactInput
      → ActorContext
      → EventMetadata
      → RequestDigest
      → IdempotencyScope
      → App OutboxRelayResult
  unfolding answer_bound duplicate_outbox_result decide_new lift from_domain from_outbox_fact
      start_pending ◌>>=◌ pure
  outbox_fact_found (some existing_anchor) input actor meta request_digest scope =
      answer_bound UnitOfWorkPurpose.consume_committed_outbox_fact duplicate_outbox_result scope
        input.idempotency_key existing_anchor request_digest actor meta.trace_ref
  outbox_fact_found none input actor meta request_digest scope = do
    material ← lift (map_err from_domain (from_outbox_fact input actor meta))
    acceptance ← lift (map_err from_domain (start_pending material actor))
    result ←
        decide_new UnitOfWorkPurpose.consume_committed_outbox_fact material acceptance actor
          meta.trace_ref request_digest scope input.idempotency_key
    pure (outbox_relay_accepted result.publication_id result.audit_ref)

  unfoldable pub accept_from_outbox_fact :
      (CommittedOutboxFactInput → Option (List ℕ))
      → CommittedOutboxFactInput
      → ActorContext
      → EventMetadata
      → App OutboxRelayResult
  unfolding for_outbox_fact from_request lift from_domain from_store idempotency_find
      outbox_fact_found ◌>>=◌
  accept_from_outbox_fact to_vec input actor meta = do
    let scope = for_outbox_fact input
    request_digest ← lift (map_err from_domain (from_request to_vec input))
    found ← from_store (idempotency_find scope input.idempotency_key)
    outbox_fact_found found input actor meta request_digest scope
