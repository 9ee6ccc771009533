-- ===== src/Domain/Recovery/Replays.antt =====
-- Dead letters and replay preparations under every history of calls.
use quantalithos_bus.Base.{◌≡◌, refl, sym, ◌∙◌, ◌≢◌, List, [], ◌∷◌, arith, Result, ok}
use quantalithos_bus.Contracts.Core.{Core}
use quantalithos_bus.Contracts.Status.{ReplayPreparationStatus, replay_eq}
use quantalithos_bus.Contracts.Metadata.{
  ReplayApprovalRef, ReplayPreparationRef, ReplayRejectReason,
}
use quantalithos_bus.Domain.Errors.{DomainError}
use quantalithos_bus.Domain.Recovery.DeadLetter.{DeadLetterEntry}
use quantalithos_bus.Domain.Recovery.Replay.{
  ReplayPreparation, prepare, mark_ready, reject, supersede, set_version,
}
use quantalithos_bus.Domain.Delivery.Attempt.{is_some}

module _ ⦃core : Core⦄ where
  open core use {ActorContext, Version}

  pub data ReplayCall : Type 0 where
    marks_ready : ReplayApprovalRef → ActorContext → ReplayCall
    rejects : ReplayRejectReason → ActorContext → ReplayCall
    supersedes : ReplayPreparationRef → ActorContext → ReplayCall
    sets_version : Version → ReplayCall

  unfoldable pub replay_step :
      ReplayPreparation → ReplayCall → ReplayPreparation × Result DomainError (Unit {0})
  replay_step p (marks_ready ref a) = mark_ready p ref a
  replay_step p (rejects reason a) = reject p reason a
  replay_step p (supersedes ref a) = supersede p ref a
  replay_step p (sets_version v) = (set_version p v, ok tt)

  unfoldable pub replay_run : ReplayPreparation → List ReplayCall → ReplayPreparation
  unfolding replay_step
  replay_run p [] = p
  replay_run p (c ∷ cs) = replay_run (replay_step p c).0 cs

  -- The preparations with the same decision: only the version may differ.
  abbrev pub SameDecision : ReplayPreparation → ReplayPreparation → Type 0
  SameDecision p q =
      (q.status ≡ p.status)
      × (q.approval_ref ≡ p.approval_ref)
      × (q.replay_id ≡ p.replay_id)
      × (q.dead_letter_id ≡ p.dead_letter_id)
      × (q.audit_chain_ref ≡ p.audit_chain_ref)

  replay_step-decided :
      (p : ReplayPreparation) (c : ReplayCall)
      → p.status ≢ ReplayPreparationStatus.draft
      → SameDecision p (replay_step p c).0
  unfolding replay_step mark_ready reject supersede set_version
  replay_step-decided p (marks_ready ref a) h = ground arith
  replay_step-decided p (rejects reason a) h = ground arith
  replay_step-decided p (supersedes ref a) h = ground arith
  replay_step-decided p (sets_version v) h = ground arith

  -- A preparation that has left `draft` keeps its decision through every history of calls.
  pub replay_run-decided :
      (p : ReplayPreparation) (cs : List ReplayCall)
      → p.status ≢ ReplayPreparationStatus.draft
      → SameDecision p (replay_run p cs)
  unfolding replay_run
  replay_run-decided p [] h = (refl, refl, refl, refl, refl)
  replay_run-decided p (c ∷ cs) h =
      let now = replay_step-decided p c h in
      let later = replay_run-decided (replay_step p c).0 cs (λ e. h (sym now.0 ∙ e)) in
      (later.0 ∙ now.0, later.1 ∙ now.1, later.2 ∙ now.2, later.3 ∙ now.3, later.4 ∙ now.4)

  IsApproved : ReplayPreparation → Type 0
  IsApproved p = is_some p.approval_ref ≡ replay_eq p.status ReplayPreparationStatus.ready

  replay_step-IsApproved :
      (p : ReplayPreparation) (c : ReplayCall) → IsApproved p → IsApproved (replay_step p c).0
  unfolding IsApproved replay_step mark_ready reject supersede set_version
  replay_step-IsApproved p (marks_ready ref a) h = ground arith
  replay_step-IsApproved p (rejects reason a) h = ground arith
  replay_step-IsApproved p (supersedes ref a) h = ground arith
  replay_step-IsApproved p (sets_version v) h = h

  replay_run-IsApproved :
      (p : ReplayPreparation) (cs : List ReplayCall) → IsApproved p → IsApproved (replay_run p cs)
  unfolding replay_run
  replay_run-IsApproved p [] h = h
  replay_run-IsApproved p (c ∷ cs) h =
      replay_run-IsApproved (replay_step p c).0 cs (replay_step-IsApproved p c h)

  -- However a prepared replay is called, it has an approval on record exactly if it is ready.
  pub prepare-approved_iff_ready :
      (e : DeadLetterEntry) (actor : ActorContext) {p : ReplayPreparation} (cs : List ReplayCall)
      → prepare e actor ≡ ok p
      → is_some (replay_run p cs).approval_ref
        ≡ replay_eq (replay_run p cs).status ReplayPreparationStatus.ready
  unfolding IsApproved prepare
  prepare-approved_iff_ready e actor {p} cs h = replay_run-IsApproved p cs (ground arith)
