-- ===== src/Application/Atomicity/Publication.antt =====
-- The acceptance of publications, in one unit of work.
use quantalithos_bus.Base.{String, ℕ, ◌≡◌, Option, none, some, List, ok, arith}
use quantalithos_bus.Base.Actions.{raise, map_err, some_or, ◌>>=◌}
use quantalithos_bus.Base.Text.{Text}
use quantalithos_bus.Contracts.Core.{Core}
use quantalithos_bus.Contracts.Status.{PublicationAcceptanceStatus}
use quantalithos_bus.Contracts.Metadata.{AuditRef, EventMetadata}
use quantalithos_bus.Contracts.Inputs.{AcceptPublicationCommand, CommittedOutboxFactInput}
use quantalithos_bus.Contracts.Receipts.{PublicationAcceptanceResult}
use quantalithos_bus.Domain.Idempotency.Scope.{IdempotencyScope}
use quantalithos_bus.Domain.Idempotency.Digest.{IdempotencyAnchor, RequestDigest, RecordRef}
use quantalithos_bus.Domain.Publication.Acceptance.{
  PublicationAcceptance, PublicationRejectReason, accept, reject,
}
use quantalithos_bus.Domain.Publication.Material.{PublicationMaterial}
use quantalithos_bus.Application.Ports.{UnitOfWorkPurpose}
use quantalithos_bus.Application.Errors.{ApplicationError, error_details_ref, conflict_error}
use quantalithos_bus.Application.Errors.From.{from_domain}
use quantalithos_bus.Application.Services.Publication.{
  accepted_result, rejected_result, result_of_status, load_bound_result, load_existing_result,
  begin_idempotency_conflict, decide, decision_result, commit_publication_decision,
  validation_error_from_rejected_result, boundary_error_from_result,
}
use quantalithos_bus.Application.Services.Publication.Accept.{
  idempotency_key, replay_result, answer_bound, decide_new, accept_found, accept_publication,
  outbox_fact_found, accept_from_outbox_fact,
}
use quantalithos_bus.Application.Atomicity.{
  Quiet, Atomic, Sure, Quiet-pure, Quiet-raise, Quiet-lift, Quiet-some_or, Quiet-if, Atomic-Quiet,
  Atomic-if, Sure-pure, Sure-raise,
}
use quantalithos_bus.Application.Atomicity.Blocks.{
  Quiet-bind, Atomic-bind, Atomic-bind_lift, Atomic-then-Sure, Sure-bind,
}
use quantalithos_bus.Application.Atomicity.Calls.{
  unit_rules, Untraced, Quiet-from_store, Quiet-publication_get, Quiet-publication_store_material,
  Quiet-publication_insert, Quiet-idempotency_bind, Quiet-idempotency_find, Quiet-mark_conflict,
}

module _ ⦃core : Core⦄ where
  open core use {ActorContext, Timestamp, TraceId, IdempotencyKey, CommandMetadata}

  pub decide-audited :
      (reason : Option PublicationRejectReason) (p : PublicationAcceptance) (actor : ActorContext)
      (now : Timestamp) (ref : AuditRef) (u : Unit {0})
      → map_err from_domain (decide reason p actor now ref).1 ≡ ok u
      → (decide reason p actor now ref).0.decision_audit_ref ≡ some ref
  unfolding decide accept reject
  decide-audited none p actor now ref u h = ground arith
  decide-audited (some reason) p actor now ref u h = ground arith

  Sure-decision_result :
      (P : ApplicationError → Type 0) (reason : Option PublicationRejectReason)
      (p : PublicationAcceptance) (ref : AuditRef)
      → p.decision_audit_ref ≡ some ref
      → Sure P (decision_result reason p)
  unfolding decision_result accepted_result rejected_result some_or
  Sure-decision_result P none p ref h = rw h (search (Sure-bind, Sure-pure))
  Sure-decision_result P (some reason) p ref h = rw h (search (Sure-bind, Sure-pure))

  Sure-decided :
      (P : ApplicationError → Type 0) (reason : Option PublicationRejectReason)
      (p : PublicationAcceptance) (actor : ActorContext) (now : Timestamp) (ref : AuditRef)
      (u : Unit {0})
      → map_err from_domain (decide reason p actor now ref).1 ≡ ok u
      → Sure P (decision_result reason (decide reason p actor now ref).0)
  Sure-decided P reason p actor now ref u h =
      Sure-decision_result P reason (decide reason p actor now ref).0 ref
        (decide-audited reason p actor now ref u h)

  Atomic-decision :
      (P : ApplicationError → Type 0) (purpose : UnitOfWorkPurpose) (m : PublicationMaterial)
      (p : PublicationAcceptance) (actor : ActorContext) (trace_ref : TraceId)
      (digest : RequestDigest) (scope : IdempotencyScope) (key : IdempotencyKey)
      (reason : Option PublicationRejectReason)
      → Atomic P (commit_publication_decision purpose m p actor trace_ref digest scope key reason)
  unfolding commit_publication_decision
  Atomic-decision P purpose m p actor trace_ref digest scope key reason =
      search
        (
          unit_rules, Atomic-bind_lift, Quiet-publication_store_material, Quiet-publication_insert,
          Quiet-idempotency_bind, Sure-decided,
        )
        depth 30

  -- An error that names an audit entry is not `Untraced`.
  Sure-conflict :
      {A : Type 0} (code : String) (message : Text) (ref : Text)
      → Sure {A = A} Untraced (raise (conflict_error code message (some ref)))
  unfolding error_details_ref
  Sure-conflict code message ref =
      Sure-raise Untraced (conflict_error code message (some ref)) (λ h. cc)

  pub Atomic-conflict :
      {A : Type 0} (purpose : UnitOfWorkPurpose) (scope : IdempotencyScope) (key : IdempotencyKey)
      (anchor : IdempotencyAnchor) (digest : RequestDigest) (actor : ActorContext)
      (trace_ref : TraceId)
      → Atomic Untraced
          (begin_idempotency_conflict {A = A} purpose scope key anchor digest actor trace_ref)
  unfolding begin_idempotency_conflict error_details_ref
  Atomic-conflict purpose scope key anchor digest actor trace_ref =
      search (unit_rules, Quiet-mark_conflict, Sure-conflict) depth 30

  Sure-validation :
      {A : Type 0} (r : PublicationAcceptanceResult)
      → Sure {A = A} Untraced (raise (validation_error_from_rejected_result r))
  unfolding validation_error_from_rejected_result error_details_ref
  Sure-validation r = Sure-raise Untraced (validation_error_from_rejected_result r) (λ h. cc)

  Sure-boundary :
      {A : Type 0} (r : PublicationAcceptanceResult)
      → Sure {A = A} Untraced (raise (boundary_error_from_result r))
  unfolding boundary_error_from_result error_details_ref
  Sure-boundary r = Sure-raise Untraced (boundary_error_from_result r) (λ h. cc)

  Quiet-result_of_status :
      (status : PublicationAcceptanceStatus) (p : PublicationAcceptance)
      → Quiet (result_of_status status p)
  unfolding result_of_status accepted_result rejected_result
  Quiet-result_of_status PublicationAcceptanceStatus.accepted p =
      search (Quiet-bind, Quiet-some_or, Quiet-pure)
  Quiet-result_of_status PublicationAcceptanceStatus.rejected p =
      search (Quiet-bind, Quiet-some_or, Quiet-pure)
  Quiet-result_of_status PublicationAcceptanceStatus.pending p = search Quiet-raise

  Quiet-load_bound_result : (r : RecordRef) → Quiet (load_bound_result r)
  unfolding load_bound_result
  Quiet-load_bound_result (RecordRef.publication id) =
      search
        (Quiet-bind, Quiet-from_store, Quiet-publication_get, Quiet-some_or, Quiet-result_of_status)
  Quiet-load_bound_result (RecordRef.feedback id) = search Quiet-raise

  Quiet-replay :
      {A : Type 0} (f : PublicationAcceptanceResult → A) (anchor : IdempotencyAnchor)
      → Quiet (load_existing_result anchor >>= replay_result f)
  unfolding load_existing_result replay_result
  Quiet-replay f anchor =
      search (Quiet-bind, Quiet-load_bound_result, Quiet-if, Quiet-pure, Quiet-raise)

  Atomic-answer_bound :
      {A : Type 0} (purpose : UnitOfWorkPurpose) (f : PublicationAcceptanceResult → A)
      (scope : IdempotencyScope) (key : IdempotencyKey) (anchor : IdempotencyAnchor)
      (digest : RequestDigest) (actor : ActorContext) (trace_ref : TraceId)
      → Atomic Untraced (answer_bound purpose f scope key anchor digest actor trace_ref)
  unfolding answer_bound
  Atomic-answer_bound purpose f scope key anchor digest actor trace_ref =
      search (Atomic-if, Atomic-Quiet, Quiet-replay, Atomic-conflict)

  Atomic-decide_new :
      (purpose : UnitOfWorkPurpose) (m : PublicationMaterial) (p : PublicationAcceptance)
      (actor : ActorContext) (trace_ref : TraceId) (digest : RequestDigest)
      (scope : IdempotencyScope) (key : IdempotencyKey)
      → Atomic Untraced (decide_new purpose m p actor trace_ref digest scope key)
  unfolding decide_new
  Atomic-decide_new purpose m p actor trace_ref digest scope key =
      search (Atomic-if, Atomic-then-Sure, Atomic-decision, Sure-validation, Sure-boundary) depth 7

  Atomic-accept_found :
      (found : Option IdempotencyAnchor) (c : AcceptPublicationCommand) (actor : ActorContext)
      (meta : CommandMetadata) (digest : RequestDigest) (scope : IdempotencyScope)
      (key : IdempotencyKey)
      → Atomic Untraced (accept_found found c actor meta digest scope key)
  unfolding accept_found
  Atomic-accept_found none c actor meta digest scope key =
      search (Atomic-bind, Quiet-lift, Atomic-decide_new)
  Atomic-accept_found (some anchor) c actor meta digest scope key = search Atomic-answer_bound

  pub Atomic-accept_publication :
      (to_vec : AcceptPublicationCommand → Option (List ℕ)) (c : AcceptPublicationCommand)
      (actor : ActorContext) (meta : CommandMetadata)
      → Atomic Untraced (accept_publication to_vec c actor meta)
  unfolding accept_publication idempotency_key
  Atomic-accept_publication to_vec c actor meta =
      search
        (
          Atomic-bind, Quiet-some_or, Quiet-lift, Quiet-from_store, Quiet-idempotency_find,
          Atomic-accept_found,
        )
        depth 7

  Atomic-outbox_fact_found :
      (found : Option IdempotencyAnchor) (i : CommittedOutboxFactInput) (actor : ActorContext)
      (meta : EventMetadata) (digest : RequestDigest) (scope : IdempotencyScope)
      → Atomic Untraced (outbox_fact_found found i actor meta digest scope)
  unfolding outbox_fact_found
  Atomic-outbox_fact_found none i actor meta digest scope =
      search (Atomic-bind, Quiet-lift, Atomic-then-Sure, Atomic-decide_new, Sure-pure) depth 7
  Atomic-outbox_fact_found (some anchor) i actor meta digest scope = search Atomic-answer_bound

  pub Atomic-accept_from_outbox_fact :
      (to_vec : CommittedOutboxFactInput → Option (List ℕ)) (i : CommittedOutboxFactInput)
      (actor : ActorContext) (meta : EventMetadata)
      → Atomic Untraced (accept_from_outbox_fact to_vec i actor meta)
  unfolding accept_from_outbox_fact
  Atomic-accept_from_outbox_fact to_vec i actor meta =
      search
        (
          Atomic-bind, Quiet-lift, Quiet-from_store, Quiet-idempotency_find,
          Atomic-outbox_fact_found,
        )
        depth 7
