-- ===== src/Domain/Publication/Decision.antt =====
-- The acceptance of a publication under every history of decisions.
use quantalithos_bus.Base.{◌≡◌, refl, ◌≢◌, not, List, [], ◌∷◌, arith, Result, ok}
use quantalithos_bus.Contracts.Core.{Core}
use quantalithos_bus.Contracts.Status.{PublicationAcceptanceStatus, acceptance_eq}
use quantalithos_bus.Contracts.Metadata.{AuditRef}
use quantalithos_bus.Domain.Errors.{DomainError}
use quantalithos_bus.Domain.Publication.Material.{PublicationMaterial}
use quantalithos_bus.Domain.Publication.Acceptance.{
  PublicationAcceptance, PublicationRejectReason, start_pending, accept, reject, is_accepted,
}
use quantalithos_bus.Domain.Delivery.Attempt.{is_some}

module _ ⦃core : Core⦄ where
  open core use {ActorContext, Timestamp}

  pub data Decision : Type 0 where
    accepts : ActorContext → Timestamp → AuditRef → Decision
    rejects : PublicationRejectReason → ActorContext → AuditRef → Decision

  unfoldable pub decide :
      PublicationAcceptance → Decision → PublicationAcceptance × Result DomainError (Unit {0})
  decide p (accepts actor at ref) = accept p actor at ref
  decide p (rejects reason actor ref) = reject p reason actor ref

  unfoldable pub decide_all : PublicationAcceptance → List Decision → PublicationAcceptance
  unfolding decide
  decide_all p [] = p
  decide_all p (c ∷ cs) = decide_all (decide p c).0 cs

  decided :
      (p : PublicationAcceptance) (c : Decision)
      → p.status ≢ PublicationAcceptanceStatus.pending
      → (decide p c).0 ≡ p
  unfolding decide accept reject
  decided p (accepts actor at ref) h = ground arith
  decided p (rejects reason actor ref) h = ground arith

  decide_all-decided :
      (p : PublicationAcceptance) (cs : List Decision)
      → p.status ≢ PublicationAcceptanceStatus.pending
      → decide_all p cs ≡ p
  unfolding decide_all
  decide_all-decided p [] h = refl
  decide_all-decided p (c ∷ cs) h = rw (decided p c h) (decide_all-decided p cs h)

  decide-leaves_pending :
      (p : PublicationAcceptance) (c : Decision)
      → (decide p c).0.status ≢ PublicationAcceptanceStatus.pending
  unfolding decide accept reject
  decide-leaves_pending p (accepts actor at ref) = ground arith
  decide-leaves_pending p (rejects reason actor ref) = ground arith

  -- The first decision on an acceptance stands: later ones change nothing.
  pub first_decision_stands :
      (p : PublicationAcceptance) (c : Decision) (cs : List Decision)
      → decide_all p (c ∷ cs) ≡ (decide p c).0
  unfolding decide_all
  first_decision_stands p c cs = decide_all-decided (decide p c).0 cs (decide-leaves_pending p c)

  -- What the fields of an acceptance say of its status.
  pub record Inv (p : PublicationAcceptance) : Type 0 where
    pub timed : is_some p.accepted_at ≡ is_accepted p
    pub reasoned :
        is_some p.reject_reason ≡ acceptance_eq p.status PublicationAcceptanceStatus.rejected
    pub audited :
        is_some p.decision_audit_ref
        ≡ not (acceptance_eq p.status PublicationAcceptanceStatus.pending)

  decide-Inv : (p : PublicationAcceptance) (c : Decision) → Inv p → Inv (decide p c).0
  unfolding decide accept reject is_accepted
  decide-Inv p (accepts actor at ref) v = ground arith
  decide-Inv p (rejects reason actor ref) v = ground arith

  decide_all-Inv : (p : PublicationAcceptance) (cs : List Decision) → Inv p → Inv (decide_all p cs)
  unfolding decide_all
  decide_all-Inv p [] v = v
  decide_all-Inv p (c ∷ cs) v = decide_all-Inv (decide p c).0 cs (decide-Inv p c v)

  -- However a started acceptance is decided, it has an acceptance time exactly if it is accepted, a
  -- reason exactly if it is rejected, and an audit reference exactly if it is decided.
  pub start_pending-Inv :
      (m : PublicationMaterial) (actor : ActorContext) {p : PublicationAcceptance}
      (cs : List Decision)
      → start_pending m actor ≡ ok p
      → Inv (decide_all p cs)
  unfolding start_pending is_accepted
  start_pending-Inv m actor {p} cs h = decide_all-Inv p cs (ground arith)
