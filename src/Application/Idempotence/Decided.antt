-- ===== src/Application/Idempotence/Decided.antt =====
-- crates/application/src/services/publication.rs: what `commit_publication_decision` leaves when it accepts.
use quantalithos_bus.Base.{◌≡◌, refl, ap, ◌∙◌, none, [], arith, ok}
use quantalithos_bus.Base.Actions.{map_err, ◌>>=◌}
use quantalithos_bus.Base.Text.{Text}
use quantalithos_bus.Base.Text.Laws.{text_eq_refl}
use quantalithos_bus.Base.Maps.{get, insert, insert_all, get-insert, text_key, id_key, pair_key}
use quantalithos_bus.Contracts.Core.{Core}
use quantalithos_bus.Contracts.Status.{PublicationAcceptanceStatus}
use quantalithos_bus.Contracts.Metadata.{AuditRef}
use quantalithos_bus.Domain.Idempotency.Scope.{IdempotencyScope}
use quantalithos_bus.Domain.Idempotency.Digest.{RequestDigest, RecordRef, bind, matches, digest_eq}
use quantalithos_bus.Domain.Publication.Acceptance.{PublicationAcceptance, accept}
use quantalithos_bus.Domain.Publication.Material.{PublicationMaterial}
use quantalithos_bus.Application.Ports.{UnitOfWorkPurpose, UnitOfWorkHandle, BusRecordKind}
use quantalithos_bus.Application.Errors.From.{from_domain, from_repository}
use quantalithos_bus.Infra.Store.{anchor_key}
use quantalithos_bus.Infra.System.Repositories.{
  publication_store_material, publication_insert, idempotency_bind, audit_append,
}
use quantalithos_bus.Domain.Audit.{BusAuditEntry, SubjectRef}
use quantalithos_bus.Application.Services.{
  begin_unit, commit_unit, clock_now, or_rollback, new_record_id,
}
use quantalithos_bus.Application.Services.Publication.{
  decide, decision_result, decision_action, commit_publication_decision,
}
use quantalithos_bus.Application.Idempotence.Accepted.{Accepted, Ensures-accepted_result}
use quantalithos_bus.Application.Triples.{
  Ensures, Ensures-bind, Ensures-next, Ensures-bind_lift, Ensures-or_rollback, Ensures-clock_now,
  Ensures-new_record_id,
}
use quantalithos_bus.Application.Idempotence.Staging.{Staged, Committed}
use quantalithos_bus.Application.Idempotence.Staging.Calls.{
  Ensures-begin_unit, Ensures-store_material, Ensures-insert, Ensures-bind_anchor,
  Ensures-audit_append, Ensures-commit_unit,
}

module _ ⦃core : Core⦄ where
  open core use {ActorContext, Timestamp, TraceId, IdempotencyKey}

  decide-accepted :
      (p : PublicationAcceptance) (actor : ActorContext) (now : Timestamp) (ref : AuditRef)
      (u : Unit {0})
      → map_err from_domain (decide none p actor now ref).1 ≡ ok u
      → (decide none p actor now ref).0.status ≡ PublicationAcceptanceStatus.accepted
  unfolding decide accept
  decide-accepted p actor now ref u h = ground arith

  -- The decision, once it has succeeded.
  Ensures-decided :
      (p : PublicationAcceptance) (actor : ActorContext) (now : Timestamp) (ref : AuditRef)
      (u : Unit {0}) (anchor_id : Text) (scope : IdempotencyScope) (key : IdempotencyKey)
      (digest : RequestDigest) (trace_ref : TraceId)
      → map_err from_domain (decide none p actor now ref).1 ≡ ok u
      → let d = (decide none p actor now ref).0 in
        let b =
          bind anchor_id scope key digest (RecordRef.publication d.publication_id) now trace_ref in
        Ensures
          (Committed
            (insert d.publication_id d [])
            (insert ⦃key = anchor_key⦄ (b.scope, b.key) b []))
          (decision_result none d)
          (Accepted scope key digest)
  unfolding decision_result bind insert_all insert matches digest_eq
  Ensures-decided p actor now ref u anchor_id scope key digest trace_ref h =
      let d = (decide none p actor now ref).0 in
      let b =
        bind anchor_id scope key digest (RecordRef.publication d.publication_id) now trace_ref in
      Ensures-accepted_result _ scope key digest d
        (λ s c. record {
          anchor = b;
          id = d.publication_id;
          found =
              ap (get ⦃key = anchor_key⦄ (b.scope, b.key)) c.anchors
              ∙ get-insert ⦃key = anchor_key⦄ (b.scope, b.key) b c.old_anchors;
          digested = text_eq_refl digest.value;
          bound = refl;
          stored =
              ap (get d.publication_id) c.publications
              ∙ get-insert d.publication_id d c.old_publications;
        })
        (decide-accepted p actor now ref u h)

  -- The calls that stage the decision and commit it.
  Ensures-staging :
      (purpose : UnitOfWorkPurpose) (h : UnitOfWorkHandle) (m : PublicationMaterial)
      (p : PublicationAcceptance) (actor : ActorContext) (now : Timestamp) (ref : AuditRef)
      (u : Unit {0}) (anchor_id : Text) (scope : IdempotencyScope) (key : IdempotencyKey)
      (digest : RequestDigest) (trace_ref : TraceId)
      → map_err from_domain (decide none p actor now ref).1 ≡ ok u
      → Ensures
          (Staged h [] [])
          (do
            let d = (decide none p actor now ref).0
            let entry : BusAuditEntry = record {
              audit_ref = ref;
              subject_ref = SubjectRef.publication d.publication_id;
              action = decision_action none;
              actor = actor;
              occurred_at = now;
              trace_ref = trace_ref;
            }
            let b =
                bind anchor_id scope key digest
                  (RecordRef.publication d.publication_id)
                  now
                  trace_ref
            _ ← or_rollback h from_repository (publication_store_material m h)
            _ ← or_rollback h from_repository (publication_insert d h)
            _ ← or_rollback h from_repository (audit_append entry h)
            _ ← or_rollback h from_repository (idempotency_bind b h)
            _ ← commit_unit h
            decision_result none d)
          (Accepted scope key digest)
  unfolding bind
  Ensures-staging purpose h m p actor now ref u anchor_id scope key digest trace_ref eq =
      let R = Accepted scope key digest in
      let d = (decide none p actor now ref).0 in
      let ps = insert d.publication_id d [] in
      let b =
        bind anchor_id scope key digest (RecordRef.publication d.publication_id) now trace_ref in
      let bs = insert ⦃key = anchor_key⦄ (b.scope, b.key) b [] in
      Ensures-next (Staged h [] []) R _ _
        (Ensures-or_rollback (Staged h [] []) (λ a. Staged h [] []) h from_repository _
          (Ensures-store_material h [] [] m))
        (λ a.
          Ensures-bind (Staged h [] []) (λ a. Staged h ps []) R _ _
            (Ensures-or_rollback (Staged h [] []) (λ a. Staged h ps []) h from_repository _
              (Ensures-insert h [] [] d))
            (λ version.
              Ensures-next (Staged h ps []) R _ _
                (Ensures-or_rollback (Staged h ps []) (λ a. Staged h ps []) h from_repository _
                  (Ensures-audit_append h ps [] _))
                (λ sequence.
                  Ensures-bind (Staged h ps []) (λ a. Staged h ps bs) R _ _
                    (Ensures-or_rollback (Staged h ps []) (λ a. Staged h ps bs) h from_repository _
                      (Ensures-bind_anchor h ps [] b))
                    (λ bound.
                      Ensures-bind (Staged h ps bs) (λ a. Committed ps bs) R (commit_unit h) _
                        (Ensures-commit_unit h ps bs)
                        (λ receipt.
                          Ensures-decided p actor now ref u anchor_id scope key digest trace_ref
                            eq)))))

  pub Ensures-decision :
      (purpose : UnitOfWorkPurpose) (m : PublicationMaterial) (p : PublicationAcceptance)
      (actor : ActorContext) (trace_ref : TraceId) (digest : RequestDigest)
      (scope : IdempotencyScope) (key : IdempotencyKey)
      → Ensures
          (λ s. Unit {0})
          (commit_publication_decision purpose m p actor trace_ref digest scope key none)
          (Accepted scope key digest)
  unfolding commit_publication_decision bind
  Ensures-decision purpose m p actor trace_ref digest scope key =
      let R = Accepted scope key digest in
      Ensures-bind (λ s. Unit {0}) (λ h. Staged h [] []) R (begin_unit purpose actor) _
        (Ensures-begin_unit (λ s. Unit {0}) purpose actor)
        (λ h.
          let fresh = Staged h [] [] in
          Ensures-next fresh R clock_now _ (Ensures-clock_now fresh) (λ now.
            Ensures-next fresh R (new_record_id BusRecordKind.audit_entry) _
              (Ensures-new_record_id fresh BusRecordKind.audit_entry)
              (λ ref. Ensures-bind_lift fresh R _ _ (λ u eq.
                Ensures-next fresh R (new_record_id BusRecordKind.idempotency_anchor) _
                  (Ensures-new_record_id fresh BusRecordKind.idempotency_anchor)
                  (λ anchor_id.
                    Ensures-staging purpose h m p actor now ref u anchor_id scope key digest
                      trace_ref eq)))))
