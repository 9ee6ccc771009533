-- ===== src/Domain/Backend.antt =====
-- crates/domain/src/backend.rs: which backend capabilities a transport semantic may be mapped to.
use quantalithos_bus.Base.{Bool, true, not, ◌&&◌, ◌||◌}
use quantalithos_bus.Base.Text.{Text, codes, trim, to_ascii_lowercase, contains}
use quantalithos_bus.Contracts.Status.{BackendKind, in_memory}
use quantalithos_bus.Contracts.Metadata.{BackendCapabilityRef, capability_eq}
use quantalithos_bus.Domain.Publication.Semantic.{TransportSemantic, uses_backend, is_at_least_once}

pub record BackendCapabilityPolicy : Type 0 where
  pub capability_ref : BackendCapabilityRef

unfoldable pub from_capability : BackendCapabilityRef → BackendCapabilityPolicy
from_capability capability_ref = record { capability_ref = capability_ref }

-- The texts that give a private backend payload away.
unfoldable pub looks_like_private_backend_payload : Text → Bool
looks_like_private_backend_payload value =
    let normalized = to_ascii_lowercase (trim value) in
    contains normalized (codes "://")
    || contains normalized (codes "password")
    || contains normalized (codes "secret")
    || contains normalized (codes "token")
    || contains normalized (codes "credential")
    || contains normalized (codes "@")

unfoldable pub rejects_raw_backend_leak : BackendCapabilityPolicy → TransportSemantic → Bool
rejects_raw_backend_leak policy semantic =
    looks_like_private_backend_payload semantic.backend_capability_ref.profile_ref
    || looks_like_private_backend_payload semantic.backend_capability_ref.capability_id

abbrev is_in_memory : BackendKind → Bool
is_in_memory in_memory = true

unfoldable pub allows_mapping :
    BackendCapabilityPolicy → TransportSemantic → BackendCapabilityRef → Bool
unfolding uses_backend
allows_mapping policy semantic capability_ref =
    capability_eq policy.capability_ref capability_ref
    && uses_backend semantic capability_ref
    && is_in_memory policy.capability_ref.backend_kind
    && is_at_least_once semantic.delivery_mode
    && not (rejects_raw_backend_leak policy semantic)
