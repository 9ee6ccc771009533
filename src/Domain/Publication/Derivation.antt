-- ===== src/Domain/Publication/Derivation.antt =====
-- Which semantics are derived from a publication material.
use quantalithos_bus.Base.{◌≡◌, refl, ◌≢◌, ◌↔◌, true, false, arith, err}
use quantalithos_bus.Base.Text.{is_blank}
use quantalithos_bus.Contracts.Core.{Core}
use quantalithos_bus.Contracts.Status.{DeliveryMode, at_least_once}
use quantalithos_bus.Contracts.Metadata.{
  SubscriberScope, subscriber_scope_from, subscriber_scope_eq, BackendCapabilityRef, capability_eq,
}
use quantalithos_bus.Domain.Errors.{DomainError}
use quantalithos_bus.Base.Text.Laws.{text_eq_iff, text_eq_refl}
use quantalithos_bus.Domain.Backend.{
  rejects_raw_backend_leak, allows_mapping, looks_like_private_backend_payload,
}
use quantalithos_bus.Domain.Publication.Semantic.{is_at_least_once}
use quantalithos_bus.Domain.Publication.Material.{PublicationMaterial, derive}
use quantalithos_bus.Domain.Delivery.Steps.{is_ok}

capability_eq_refl : (c : BackendCapabilityRef) → capability_eq c c ≡ true
unfolding capability_eq
capability_eq_refl c = ground (
  arith,
  text_eq_refl c.capability_id,
  text_eq_refl c.profile_ref,
  text_eq_refl c.capability_version,
)

scope_eq_iff :
    (a b : SubscriberScope)
    → (subscriber_scope_eq a b ≡ true) ↔ (a.project_id ≡ b.project_id) × (a.topic ≡ b.topic)
unfolding subscriber_scope_eq
scope_eq_iff a b = (
  λ h. ground (arith, text_eq_iff a.project_id b.project_id, text_eq_iff a.topic b.topic),
  λ h. ground (arith, text_eq_iff a.project_id b.project_id, text_eq_iff a.topic b.topic),
)

mode_is_at_least_once : (m : DeliveryMode) → is_at_least_once m ≡ true
mode_is_at_least_once at_least_once = refl

module _ ⦃core : Core⦄ where
  -- A semantic is derived exactly if the scope is named, is the one that the material declares, and
  -- neither the profile nor the id of the capability looks like a private backend payload.
  pub derive_iff :
      (m : PublicationMaterial) (c : BackendCapabilityRef) (s : SubscriberScope)
      → (is_ok (derive m c s) ≡ true)
        ↔ (is_blank s.project_id ≡ false)
          × (is_blank s.topic ≡ false)
          × (m.target_scope.project_id ≡ s.project_id)
          × (m.target_scope.topic ≡ s.topic)
          × (looks_like_private_backend_payload c.profile_ref ≡ false)
          × (looks_like_private_backend_payload c.capability_id ≡ false)
  unfolding derive rejects_raw_backend_leak allows_mapping
  derive_iff m c s = (
    λ h. ground (arith, scope_eq_iff (subscriber_scope_from m.target_scope) s),
    λ h. ground (
      arith,
      scope_eq_iff (subscriber_scope_from m.target_scope) s,
      capability_eq_refl c,
      mode_is_at_least_once m.delivery_mode,
    ),
  )

  -- The rejection of the capability mapping is never the reason that a derivation fails.
  pub derive-ne-mapping_rejected :
      (m : PublicationMaterial) (c : BackendCapabilityRef) (s : SubscriberScope)
      → derive m c s ≢ err DomainError.backend_capability_mapping_rejected
  unfolding derive rejects_raw_backend_leak allows_mapping
  derive-ne-mapping_rejected m c s =
      ground (arith, capability_eq_refl c, mode_is_at_least_once m.delivery_mode)
