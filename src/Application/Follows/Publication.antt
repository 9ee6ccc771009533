-- ===== src/Application/Follows/Publication.antt =====
-- crates/application/src/services: the acceptance of publications, as calls of the store.
use quantalithos_bus.Base.{ℕ, Option, none, some, List}
use quantalithos_bus.Base.Actions.{◌>>=◌}
use quantalithos_bus.Contracts.Core.{Core}
use quantalithos_bus.Contracts.Status.{PublicationAcceptanceStatus}
use quantalithos_bus.Contracts.Metadata.{EventMetadata}
use quantalithos_bus.Contracts.Inputs.{AcceptPublicationCommand, CommittedOutboxFactInput}
use quantalithos_bus.Contracts.Receipts.{PublicationAcceptanceResult}
use quantalithos_bus.Domain.Idempotency.Scope.{IdempotencyScope}
use quantalithos_bus.Domain.Idempotency.Digest.{IdempotencyAnchor, RequestDigest, RecordRef}
use quantalithos_bus.Domain.Publication.Acceptance.{PublicationAcceptance, PublicationRejectReason}
use quantalithos_bus.Domain.Publication.Material.{PublicationMaterial}
use quantalithos_bus.Application.Ports.{UnitOfWorkPurpose}
use quantalithos_bus.Application.Errors.{error_details_ref}
use quantalithos_bus.Application.Services.Publication.{
  accepted_result, rejected_result, result_of_status, load_bound_result, load_existing_result,
  begin_idempotency_conflict, decision_result, commit_publication_decision,
}
use quantalithos_bus.Application.Services.Publication.Accept.{
  idempotency_key, replay_result, answer_bound, decide_new, accept_found, accept_publication,
  outbox_fact_found, accept_from_outbox_fact,
}
use quantalithos_bus.Application.Follows.{Follows}
use quantalithos_bus.Application.Follows.Calls.{handler_rules}

module _ ⦃core : Core⦄ where
  open core use {ActorContext, TraceId, IdempotencyKey, CommandMetadata}

  Follows-decision_result :
      (reason : Option PublicationRejectReason) (p : PublicationAcceptance)
      → Follows (decision_result reason p)
  unfolding decision_result accepted_result rejected_result
  Follows-decision_result none p = search handler_rules depth 30
  Follows-decision_result (some reason) p = search handler_rules depth 30

  Follows-decision :
      (purpose : UnitOfWorkPurpose) (m : PublicationMaterial) (p : PublicationAcceptance)
      (actor : ActorContext) (trace_ref : TraceId) (digest : RequestDigest)
      (scope : IdempotencyScope) (key : IdempotencyKey) (reason : Option PublicationRejectReason)
      → Follows (commit_publication_decision purpose m p actor trace_ref digest scope key reason)
  unfolding commit_publication_decision
  Follows-decision purpose m p actor trace_ref digest scope key reason =
      search (handler_rules, Follows-decision_result) depth 30

  pub Follows-conflict :
      {A : Type 0} (purpose : UnitOfWorkPurpose) (scope : IdempotencyScope) (key : IdempotencyKey)
      (anchor : IdempotencyAnchor) (digest : RequestDigest) (actor : ActorContext)
      (trace_ref : TraceId)
      → Follows (begin_idempotency_conflict {A = A} purpose scope key anchor digest actor trace_ref)
  unfolding begin_idempotency_conflict error_details_ref
  Follows-conflict purpose scope key anchor digest actor trace_ref = search handler_rules depth 30

  Follows-result_of_status :
      (status : PublicationAcceptanceStatus) (p : PublicationAcceptance)
      → Follows (result_of_status status p)
  unfolding result_of_status accepted_result rejected_result
  Follows-result_of_status PublicationAcceptanceStatus.accepted p = search handler_rules depth 30
  Follows-result_of_status PublicationAcceptanceStatus.rejected p = search handler_rules depth 30
  Follows-result_of_status PublicationAcceptanceStatus.pending p = search handler_rules depth 30

  Follows-load_bound_result : (r : RecordRef) → Follows (load_bound_result r)
  unfolding load_bound_result
  Follows-load_bound_result (RecordRef.publication id) =
      search (handler_rules, Follows-result_of_status) depth 30
  Follows-load_bound_result (RecordRef.feedback id) = search handler_rules depth 30

  Follows-replay :
      {A : Type 0} (f : PublicationAcceptanceResult → A) (anchor : IdempotencyAnchor)
      → Follows (load_existing_result anchor >>= replay_result f)
  unfolding load_existing_result replay_result
  Follows-replay f anchor = search (handler_rules, Follows-load_bound_result) depth 30

  Follows-answer_bound :
      {A : Type 0} (purpose : UnitOfWorkPurpose) (f : PublicationAcceptanceResult → A)
      (scope : IdempotencyScope) (key : IdempotencyKey) (anchor : IdempotencyAnchor)
      (digest : RequestDigest) (actor : ActorContext) (trace_ref : TraceId)
      → Follows (answer_bound purpose f scope key anchor digest actor trace_ref)
  unfolding answer_bound
  Follows-answer_bound purpose f scope key anchor digest actor trace_ref =
      search (handler_rules, Follows-conflict, Follows-load_bound_result) depth 30

  Follows-decide_new :
      (purpose : UnitOfWorkPurpose) (m : PublicationMaterial) (p : PublicationAcceptance)
      (actor : ActorContext) (trace_ref : TraceId) (digest : RequestDigest)
      (scope : IdempotencyScope) (key : IdempotencyKey)
      → Follows (decide_new purpose m p actor trace_ref digest scope key)
  unfolding decide_new
  Follows-decide_new purpose m p actor trace_ref digest scope key =
      search (handler_rules, Follows-decision) depth 30

  Follows-accept_found :
      (found : Option IdempotencyAnchor) (c : AcceptPublicationCommand) (actor : ActorContext)
      (meta : CommandMetadata) (digest : RequestDigest) (scope : IdempotencyScope)
      (key : IdempotencyKey)
      → Follows (accept_found found c actor meta digest scope key)
  unfolding accept_found
  Follows-accept_found none c actor meta digest scope key =
      search (handler_rules, Follows-decide_new) depth 30
  Follows-accept_found (some anchor) c actor meta digest scope key =
      search (handler_rules, Follows-answer_bound) depth 30

  pub Follows-accept_publication :
      (to_vec : AcceptPublicationCommand → Option (List ℕ)) (c : AcceptPublicationCommand)
      (actor : ActorContext) (meta : CommandMetadata)
      → Follows (accept_publication to_vec c actor meta)
  unfolding accept_publication idempotency_key
  Follows-accept_publication to_vec c actor meta =
      search (handler_rules, Follows-accept_found) depth 30

  Follows-outbox_fact_found :
      (found : Option IdempotencyAnchor) (i : CommittedOutboxFactInput) (actor : ActorContext)
      (meta : EventMetadata) (digest : RequestDigest) (scope : IdempotencyScope)
      → Follows (outbox_fact_found found i actor meta digest scope)
  unfolding outbox_fact_found
  Follows-outbox_fact_found none i actor meta digest scope =
      search (handler_rules, Follows-decide_new) depth 30
  Follows-outbox_fact_found (some anchor) i actor meta digest scope =
      search (handler_rules, Follows-answer_bound) depth 30

  pub Follows-accept_from_outbox_fact :
      (to_vec : CommittedOutboxFactInput → Option (List ℕ)) (i : CommittedOutboxFactInput)
      (actor : ActorContext) (meta : EventMetadata)
      → Follows (accept_from_outbox_fact to_vec i actor meta)
  unfolding accept_from_outbox_fact
  Follows-accept_from_outbox_fact to_vec i actor meta =
      search (handler_rules, Follows-outbox_fact_found) depth 30
