-- ===== src/Domain/ReadOutput/Access.antt =====
-- Who may read sensitive output, and how a projection goes stale.
use quantalithos_bus.Base.{◌≡◌, ap, ◌∙◌, refl, ◌≢◌, ◌↔◌, true, false, Option, none, some, arith, ok}
use quantalithos_bus.Base.Text.{is_blank}
use quantalithos_bus.Contracts.Core.{Core}
use quantalithos_bus.Contracts.Metadata.{AuditRef, AuthorizationRef}
use quantalithos_bus.Domain.Audit.{BusAuditEntry, PrivilegedAccessScope}
use quantalithos_bus.Domain.Delivery.{DeliveryRecord}
use quantalithos_bus.Domain.Errors.{ProjectionStatus}
use quantalithos_bus.Domain.ReadOutput.{
  TransportViewProjection, PrivilegedReadAuthorization, not_blank, authorize_sensitive_read,
  derive_view, mark_view_stale, is_stale, is_active,
}

module _ ⦃core : Core⦄ where
  open core use {ActorContext, has_role_refs}

  -- A sensitive read is authorised exactly for an actor with a role and a reference that is not blank, and the
  -- authorisation names the scope and the reference that were given.
  pub authorize_sensitive_read_iff :
      (scope : PrivilegedAccessScope) (actor : ActorContext) (given : Option AuthorizationRef)
      (authorization : PrivilegedReadAuthorization)
      → (authorize_sensitive_read scope actor given ≡ ok authorization) ↔ (
          (given ≡ some authorization.authorization_ref)
          × (is_blank authorization.authorization_ref ≡ false)
          × (has_role_refs actor ≡ true)
          × (authorization.scope ≡ scope))
  unfolding authorize_sensitive_read not_blank
  authorize_sensitive_read_iff scope actor none authorization = ground arith
  authorize_sensitive_read_iff scope actor (some value) authorization = ground arith

  derive_view-ok :
      (d : DeliveryRecord) (audit : BusAuditEntry) (view : TransportViewProjection)
      → derive_view d audit ≡ ok view
      → (view.status ≡ ProjectionStatus.active) × (view.delivery_id ≡ d.delivery_id)
  unfolding derive_view
  derive_view-ok d audit view h = ground arith

  mark_active_stale :
      (view : TransportViewProjection) (first later : AuditRef)
      → view.status ≡ ProjectionStatus.active
      → is_blank first ≡ false
      → let stale = mark_view_stale view first in
        (stale ≡ (record view { status = ProjectionStatus.stale; source_audit_ref = first }, ok tt))
        × ((mark_view_stale stale.0 later).0 ≡ stale.0)
        × ((mark_view_stale stale.0 later).1 ≢ ok tt)
  unfolding mark_view_stale is_stale
  mark_active_stale view first later h k = rw (k, h) (refl, ground arith, λ e. ground arith)

  -- A view derived from a delivery is active, and the first mark with a reference that is not blank makes it stale and
  -- keeps that reference; every later mark fails and leaves it as it is.
  pub derive_view-stale_once :
      (d : DeliveryRecord) (audit : BusAuditEntry) (view : TransportViewProjection)
      (first later : AuditRef)
      → derive_view d audit ≡ ok view
      → is_blank first ≡ false
      → let stale = mark_view_stale view first in
        (is_active view ≡ true)
        × (stale.1 ≡ ok tt)
        × (is_active stale.0 ≡ false)
        × (stale.0.source_audit_ref ≡ first)
        × (stale.0.delivery_id ≡ d.delivery_id)
        × ((mark_view_stale stale.0 later).0 ≡ stale.0)
        × ((mark_view_stale stale.0 later).1 ≢ ok tt)
  unfolding is_active
  derive_view-stale_once d audit view first later h k =
      let (active, same_delivery) = derive_view-ok d audit view h in
      let (stale, kept, refused) = mark_active_stale view first later active k in
      (
        ground arith,
        ap (λ p. p.1) stale,
        ap (λ p. is_active p.0) stale,
        ap (λ p. p.0.source_audit_ref) stale,
        ap (λ p. p.0.delivery_id) stale ∙ same_delivery,
        kept,
        refused,
      )
