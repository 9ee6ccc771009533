-- ===== src/Application/Requests/Refusal.antt =====
-- crates/application/src/services/recovery.rs: a preparation of a replay that is refused.
use quantalithos_bus.Contracts.Projections.{u64_mod}
use quantalithos_bus.Base.{
  and_then, ap, ◌∙◌, ◌+◌, ◌%◌, ◌≡◌, refl, false, none, [], ◌∷◌, ◌++◌, ok, err,
}
use quantalithos_bus.Base.Actions.{Action, lift, raise, pure, ◌>>=◌, action_map_err}
use quantalithos_bus.Contracts.Core.{Core}
use quantalithos_bus.Contracts.Inputs.{PrepareReplayCommand}
use quantalithos_bus.Domain.Audit.{
  BusAuditEntry, SubjectRef, AuditAction, PrivilegedAccessScope, PrivilegedAccessDecision,
  PrivilegedAccessRejectionReason,
}
use quantalithos_bus.Infra.Store.Seeds.{append_access_audit_entry}
use quantalithos_bus.Base.Text.{codes}
use quantalithos_bus.Application.Ports.{BusRecordKind}
use quantalithos_bus.Infra.System.{pad_4, System, on_store, next_record_id}
use quantalithos_bus.Infra.System.Repositories.{append_access_taken, audit_append_access}
use quantalithos_bus.Application.Services.{new_record_id, from_store}
use quantalithos_bus.Application.Services.Recovery.Replay.{
  append_access_audit, prepare_as, prepare_replay, privileged_access_error, validate_prepare_replay,
  validate_privileged_actor,
}

module _ ⦃core : Core⦄ where
  open core use {
    ActorContext, CommandMetadata, has_role_refs, request_requested_at, request_trace_id,
  }

  -- A call that succeeds hands its value to the rest.
  bind_ok :
      {E A B : Type 0} (m : Action System E A) (f : A → Action System E B) (s t : System) (a : A)
      → m s ≡ (t, ok a)
      → (m >>= f) s ≡ f a t
  unfolding ◌>>=◌
  bind_ok m f s t a h = ap (λ p. and_then p (λ u b. f b u)) h

  -- The system after the reference of the entry is drawn.
  abbrev drawn : System → System
  drawn s = (new_record_id BusRecordKind.audit_entry s).0

  abbrev refusal : PrepareReplayCommand → ActorContext → CommandMetadata → System → BusAuditEntry
  refusal c actor meta s = record {
    audit_ref = codes "audit_" ++ pad_4 (drawn s).id_generator.audit_entry;
    subject_ref = SubjectRef.dead_letter c.dead_letter_id;
    action =
        AuditAction.privileged_access PrivilegedAccessScope.replay_preparation
          (PrivilegedAccessDecision.rejected PrivilegedAccessRejectionReason.missing_role_hint);
    actor = actor;
    occurred_at = request_requested_at meta;
    trace_ref = request_trace_id meta;
  }

  abbrev refused : PrepareReplayCommand → ActorContext → CommandMetadata → System → System
  refused c actor meta s = record (drawn s) {
    store = (append_access_audit_entry s.store (refusal c actor meta s)).0;
  }

  appended_access :
      (entry : BusAuditEntry) (s : System)
      → s.fail_next_append ≡ none
      → from_store (audit_append_access entry) s ≡ (
        record s { store = (append_access_audit_entry s.store entry).0 },
        ok ((s.store.next_audit_sequence + 1) % u64_mod),
      )
  unfolding audit_append_access append_access_taken on_store append_access_audit_entry from_store
      action_map_err
  appended_access entry s appends = ap (λ o. from_store (append_access_taken entry o) s) appends

  audited_access :
      (c : PrepareReplayCommand) (actor : ActorContext) (meta : CommandMetadata) (s : System)
      → s.fail_next_append ≡ none
      → append_access_audit
          (SubjectRef.dead_letter c.dead_letter_id)
          (PrivilegedAccessDecision.rejected PrivilegedAccessRejectionReason.missing_role_hint)
          actor
          meta
          s
        ≡ (refused c actor meta s, ok tt)
  unfolding append_access_audit new_record_id next_record_id action_map_err pure
  audited_access c actor meta s appends =
      let entry = refusal c actor meta s in
      bind_ok (new_record_id BusRecordKind.audit_entry)
        (λ ref.
          from_store (audit_append_access (record entry { audit_ref = ref })) >>= (λ n. pure tt))
        s (drawn s) entry.audit_ref refl
      ∙ bind_ok (from_store (audit_append_access entry)) (λ n. pure tt) (drawn s)
          (refused c actor meta s) _ (appended_access entry (drawn s) appends)

  refused_lem :
      (c : PrepareReplayCommand) (actor : ActorContext) (meta : CommandMetadata) (s : System)
      → has_role_refs actor ≡ false
      → validate_prepare_replay c ≡ ok tt
      → s.fail_next_append ≡ none
      → prepare_replay c actor meta s ≡ (
        refused c actor meta s,
        err (privileged_access_error PrivilegedAccessRejectionReason.missing_role_hint),
      )
  unfolding prepare_replay prepare_as validate_privileged_actor lift raise
  refused_lem c actor meta s roleless valid appends =
      bind_ok (lift (validate_prepare_replay c))
        (λ u. prepare_as (validate_privileged_actor actor) c actor meta) s s tt
        (ap (λ r. (s, r)) valid)
      ∙ rw roleless (
          bind_ok
            (append_access_audit (SubjectRef.dead_letter c.dead_letter_id)
              (PrivilegedAccessDecision.rejected PrivilegedAccessRejectionReason.missing_role_hint)
              actor meta)
            (λ u. raise (privileged_access_error PrivilegedAccessRejectionReason.missing_role_hint))
            s (refused c actor meta s) tt (audited_access c actor meta s appends))

  -- A well-formed preparation of a replay by an actor without a role fails for the missing role, and changes the store
  -- only by one audit entry on the dead letter, which names the actor and the refusal, unless that entry cannot be
  -- appended.
  pub prepare_replay-refused :
      (c : PrepareReplayCommand) (actor : ActorContext) (meta : CommandMetadata) (s : System)
      → has_role_refs actor ≡ false
      → validate_prepare_replay c ≡ ok tt
      → s.fail_next_append ≡ none
      → let t = (prepare_replay c actor meta s).0 in
        ((prepare_replay c actor meta s).1
          ≡ err (privileged_access_error PrivilegedAccessRejectionReason.missing_role_hint))
        × (record t.store {
          audits = s.store.audits;
          next_audit_sequence = s.store.next_audit_sequence;
        }
            ≡ s.store)
        × ((entry : BusAuditEntry) × (t.store.audits ≡ s.store.audits ++ entry ∷ [])
            × (entry.subject_ref ≡ SubjectRef.dead_letter c.dead_letter_id)
            × (entry.actor ≡ actor)
            × (entry.action
                ≡ AuditAction.privileged_access PrivilegedAccessScope.replay_preparation (
                    PrivilegedAccessDecision.rejected
                      PrivilegedAccessRejectionReason.missing_role_hint)))
  unfolding append_access_audit_entry new_record_id next_record_id action_map_err
  prepare_replay-refused c actor meta s roleless valid appends =
      rw (refused_lem c actor meta s roleless valid appends)
        (refl, refl, (refusal c actor meta s, refl, refl, refl, refl))
