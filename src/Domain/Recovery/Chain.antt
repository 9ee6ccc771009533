-- ===== src/Domain/Recovery/Chain.antt =====
-- From a failed delivery to a replay that is ready: which steps succeed, and what is kept on the way.
use quantalithos_bus.Base.{
  ◌≡◌, refl, ◌↔◌, true, false, Option, none, some, ◌++◌, arith, get_last?, ok,
}
use quantalithos_bus.Base.Text.{Text, codes, is_whitespace, is_blank}
use quantalithos_bus.Contracts.Core.{Core}
use quantalithos_bus.Contracts.Status.{DeliveryStatus, DeadLetterStatus, ReplayPreparationStatus}
use quantalithos_bus.Contracts.Metadata.{
  AuditRef, ReplayApprovalRef, sanitize, audit_chain_ref_from,
}
use quantalithos_bus.Base.Text.Laws.{text_eq_iff, has_visible, has_visible-append, is_blank_lem}
use quantalithos_bus.Domain.Delivery.{DeliveryRecord}
use quantalithos_bus.Domain.Delivery.History.{DeliveryHistoryEntry}
use quantalithos_bus.Domain.Recovery.Failure.{FailureMaterial}
use quantalithos_bus.Domain.Recovery.DeadLetter.{
  DeadLetterEntry, has_trusted_chain, from_failed_delivery, dead_letter_with,
}
use quantalithos_bus.Domain.Recovery.Replay.{ReplayPreparation, prepare, mark_ready}
use quantalithos_bus.Domain.Recovery.Policy.{can_prepare_replay}
use quantalithos_bus.Domain.Delivery.Steps.{is_ok}

-- A text that begins with a visible character is not blank.
is_blank-append : (p s : Text) → has_visible p ≡ true → is_blank (p ++ s) ≡ false
is_blank-append p s h = rw (is_blank_lem (p ++ s), has_visible-append p s, h)

audit_chain_ref_from-visible : (r : AuditRef) → is_blank (audit_chain_ref_from r) ≡ false
unfolding audit_chain_ref_from has_visible is_whitespace
audit_chain_ref_from-visible r = is_blank-append (codes "audit_chain_") (sanitize r) refl

module _ ⦃core : Core⦄ where
  open core use {ActorContext}

  dead_letter_with-ok :
      (d : DeliveryRecord) (m : FailureMaterial) (h : DeliveryHistoryEntry)
      → is_blank h.history_id ≡ false
      → is_ok (dead_letter_with d m (some h)) ≡ true
  unfolding dead_letter_with
  dead_letter_with-ok d m h b = ground (arith, audit_chain_ref_from-visible m.audit_ref)

  dead_letter_with_iff :
      (d : DeliveryRecord) (m : FailureMaterial) (o : Option DeliveryHistoryEntry)
      → (is_ok (dead_letter_with d m o) ≡ true)
        ↔ ((h : DeliveryHistoryEntry) × (o ≡ some h) × (is_blank h.history_id ≡ false))
  unfolding dead_letter_with
  dead_letter_with_iff d m none = (λ h. cc, λ (h, e, b). cc)
  dead_letter_with_iff d m (some x) =
      (λ h. (x, refl, ground arith), λ h. ground (arith, audit_chain_ref_from-visible m.audit_ref))

  -- A dead-letter entry is made exactly for a failed delivery, from material of that delivery, whose
  -- latest history entry has an id that is not blank. The check of the audit chain never fails.
  pub from_failed_delivery_iff :
      (d : DeliveryRecord) (m : FailureMaterial)
      → (is_ok (from_failed_delivery d m) ≡ true)
        ↔ (d.status ≡ DeliveryStatus.failed)
          × (m.delivery_id ≡ d.delivery_id)
          × ((h : DeliveryHistoryEntry) × (get_last? d.history ≡ some h)
              × (is_blank h.history_id ≡ false))
  unfolding from_failed_delivery
  from_failed_delivery_iff d m = (
    λ h. (
      ground arith,
      ground (arith, text_eq_iff m.delivery_id d.delivery_id),
      (dead_letter_with_iff d m (get_last? d.history)).0 (ground arith),
    ),
    λ h.
        let made = (dead_letter_with_iff d m (get_last? d.history)).1 h.2 in
        ground (arith, text_eq_iff m.delivery_id d.delivery_id, made),
  )

  dead_letter_with-chain :
      (d : DeliveryRecord) (m : FailureMaterial) (o : Option DeliveryHistoryEntry)
      {e : DeadLetterEntry}
      → dead_letter_with d m o ≡ ok e
      → (has_trusted_chain e ≡ true)
        × (e.status ≡ DeadLetterStatus.open_entry)
        × (e.delivery_id ≡ d.delivery_id)
        × (e.audit_chain_ref ≡ audit_chain_ref_from m.audit_ref)
  unfolding dead_letter_with has_trusted_chain
  dead_letter_with-chain d m none h = cc
  dead_letter_with-chain d m (some x) h = ground arith

  from_failed_delivery-chain :
      (d : DeliveryRecord) (m : FailureMaterial) {e : DeadLetterEntry}
      → from_failed_delivery d m ≡ ok e
      → (has_trusted_chain e ≡ true)
        × (e.status ≡ DeadLetterStatus.open_entry)
        × (e.delivery_id ≡ d.delivery_id)
        × (e.audit_chain_ref ≡ audit_chain_ref_from m.audit_ref)
  unfolding from_failed_delivery
  from_failed_delivery-chain d m {e} h =
      dead_letter_with-chain d m (get_last? d.history) {e = e} (ground arith)

  -- A dead-letter entry made from a failed delivery can be prepared for replay at once, with its own
  -- audit chain, and the preparation is made ready by any approval that is not blank. The
  -- preparation names the entry and carries the audit chain of the failure material.
  pub replay_of_failed_delivery :
      (d : DeliveryRecord) (m : FailureMaterial) (actor : ActorContext)
      (approval : ReplayApprovalRef) {e : DeadLetterEntry}
      → from_failed_delivery d m ≡ ok e
      → is_blank approval ≡ false
      → (can_prepare_replay e (audit_chain_ref_from m.audit_ref) ≡ ok tt)
        × ((p : ReplayPreparation) × (prepare e actor ≡ ok p)
            × (p.dead_letter_id ≡ e.dead_letter_id)
            × (p.audit_chain_ref ≡ audit_chain_ref_from m.audit_ref)
            × (mark_ready p approval actor ≡ (
              record p { status = ReplayPreparationStatus.ready; approval_ref = some approval },
              ok tt,
            )))
  unfolding can_prepare_replay prepare mark_ready
  replay_of_failed_delivery d m actor approval {e} h b =
      let (trusted, opened, own, chain) = from_failed_delivery-chain d m h in
      let p : ReplayPreparation = record {
        replay_id = codes "replay_preparation_" ++ sanitize e.dead_letter_id;
        dead_letter_id = e.dead_letter_id;
        status = ReplayPreparationStatus.draft;
        audit_chain_ref = e.audit_chain_ref;
        approval_ref = none;
        version = core.version_zero;
      } in
      (
        ground (
          arith,
          trusted,
          opened,
          chain,
          audit_chain_ref_from-visible m.audit_ref,
          text_eq_iff e.audit_chain_ref (audit_chain_ref_from m.audit_ref),
        ),
        (
          p,
          ground (arith, trusted, opened),
          refl,
          chain,
          ground (arith, chain, audit_chain_ref_from-visible m.audit_ref),
        ),
      )
