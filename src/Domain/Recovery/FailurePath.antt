-- ===== src/Domain/Recovery/FailurePath.antt =====
-- The course of a failure: from a failing feedback to the dead-letter entry of its delivery.
use quantalithos_bus.Base.{
  ◌≡◌, refl, true, false, none, [], ◌∷◌, ◌++◌, arith, get_last?-append, ok, and_then,
}
use quantalithos_bus.Base.Text.{codes, is_whitespace, is_blank}
use quantalithos_bus.Contracts.Core.{Core}
use quantalithos_bus.Contracts.Status.{DeliveryStatus}
use quantalithos_bus.Contracts.Metadata.{AuditRef, DeliveryId, HistoryReason, sanitize}
use quantalithos_bus.Base.Text.Laws.{text_eq_iff, text_eq_refl, has_visible, is_blank_lem}
use quantalithos_bus.Domain.Feedback.{FeedbackResult, is_failure, failure_reason}
use quantalithos_bus.Domain.Feedback.Outcome.{Entry, receive, receive-mark_failed}
use quantalithos_bus.Domain.Delivery.{DeliveryRecord, Method, mark_failed, append_history}
use quantalithos_bus.Domain.Delivery.History.{transition, can_transition}
use quantalithos_bus.Domain.Delivery.Steps.{is_ok}
use quantalithos_bus.Domain.Recovery.Failure.{FailureMaterial, from_feedback}
use quantalithos_bus.Domain.Recovery.DeadLetter.{from_failed_delivery}
use quantalithos_bus.Domain.Recovery.Chain.{from_failed_delivery_iff}

module _ ⦃core : Core⦄ where
  open core use {ActorContext, Timestamp}

  transition-visible :
      (id : DeliveryId) (s t : DeliveryStatus) (reason : HistoryReason) (at : Timestamp)
      → is_blank (transition id s t reason at).history_id ≡ false
  unfolding transition has_visible is_whitespace
  transition-visible id s t reason at = simp is_blank_lem

  -- The delivery after a failing feedback: marked as failed, with the history entry of that move.
  unfoldable pub fail_delivery :
      DeliveryRecord → FeedbackResult → HistoryReason → Timestamp → ActorContext → Method (Unit {0})
  fail_delivery d f reason at actor =
      and_then (mark_failed d (failure_reason f) actor) λ d₁ _.
        append_history d₁ (transition d.delivery_id d.status DeliveryStatus.failed reason at)

  failed_with_entry :
      (e : Entry) {f : FeedbackResult} (d : DeliveryRecord) (reason : HistoryReason)
      (at : Timestamp) (actor : ActorContext)
      → receive e ≡ ok f
      → is_failure f ≡ true
      → can_transition d.status DeliveryStatus.failed ≡ true
      → let h = transition d.delivery_id d.status DeliveryStatus.failed reason at in
        fail_delivery d f reason at actor
        ≡ (record d { status = DeliveryStatus.failed; history = d.history ++ h ∷ [] }, ok tt)
  unfolding fail_delivery append_history transition can_transition
  failed_with_entry e {f} d reason at actor h p t =
      rw (receive-mark_failed e d actor h p t) (ground (arith, text_eq_refl d.delivery_id, t))

  -- The material that such a feedback yields.
  abbrev material_of : FeedbackResult → AuditRef → FailureMaterial
  material_of f audit_ref = record {
    failure_material_id =
        codes "failure_material_" ++ sanitize f.delivery_id ++ codes "_" ++ sanitize audit_ref;
    delivery_id = f.delivery_id;
    failure_reason = failure_reason f;
    dead_letter_ref = none;
    audit_ref = audit_ref;
    version = core.version_zero;
  }

  from_feedback-transition :
      (d : DeliveryRecord) (f : FeedbackResult) (s : DeliveryStatus) (reason : HistoryReason)
      (at : Timestamp) (audit_ref : AuditRef)
      → f.delivery_id ≡ d.delivery_id
      → is_failure f ≡ true
      → is_blank audit_ref ≡ false
      → from_feedback f (transition d.delivery_id s DeliveryStatus.failed reason at) audit_ref
        ≡ ok (material_of f audit_ref)
  unfolding from_feedback transition
  from_feedback-transition d f s reason at audit_ref own p b =
      ground (arith, text_eq_iff d.delivery_id f.delivery_id)

  -- A failing feedback on a delivery that may fail is carried through to a dead-letter entry: the
  -- delivery becomes failed with that move in its history, the feedback yields failure material
  -- under an audit reference that is not blank, and delivery and material yield the entry.
  pub failure_to_dead_letter :
      (e : Entry) {f : FeedbackResult} (d : DeliveryRecord) (reason : HistoryReason)
      (at : Timestamp) (actor : ActorContext) (audit_ref : AuditRef)
      → receive e ≡ ok f
      → is_failure f ≡ true
      → f.delivery_id ≡ d.delivery_id
      → can_transition d.status DeliveryStatus.failed ≡ true
      → is_blank audit_ref ≡ false
      → let h = transition d.delivery_id d.status DeliveryStatus.failed reason at in
        let failed = fail_delivery d f reason at actor in
        (failed.1 ≡ ok tt)
        × (failed.0.status ≡ DeliveryStatus.failed)
        × ((m : FailureMaterial) × (from_feedback f h audit_ref ≡ ok m)
            × (is_ok (from_failed_delivery failed.0 m) ≡ true))
  failure_to_dead_letter e {f} d reason at actor audit_ref h p own t b =
      let entry = transition d.delivery_id d.status DeliveryStatus.failed reason at in
      let d' : DeliveryRecord = record d {
        status = DeliveryStatus.failed;
        history = d.history ++ entry ∷ [];
      } in
      rw (failed_with_entry e d reason at actor h p t) (
        refl,
        refl,
        (
          material_of f audit_ref,
          from_feedback-transition d f d.status reason at audit_ref own p b,
          (from_failed_delivery_iff d' (material_of f audit_ref)).1 (
            refl,
            own,
            (
              entry,
              get_last?-append d.history entry,
              transition-visible d.delivery_id d.status DeliveryStatus.failed reason at,
            ),
          ),
        ),
      )
