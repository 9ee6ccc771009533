-- ===== src/Domain/Publication/Semantic.antt =====
-- crates/domain/src/publication.rs: the transport semantic of an accepted publication.
use quantalithos_bus.Base.{Bool, true}
use quantalithos_bus.Contracts.Status.{DeliveryMode, at_least_once}
use quantalithos_bus.Contracts.Metadata.{
  PublicationId, TransportSemanticId, SubscriberScope, subscriber_scope_eq, BackendCapabilityRef,
  capability_eq,
}

pub record TransportSemantic : Type 0 where
  pub semantic_id : TransportSemanticId
  pub publication_id : PublicationId
  pub delivery_mode : DeliveryMode
  pub target_scope : SubscriberScope
  pub backend_capability_ref : BackendCapabilityRef

abbrev pub is_at_least_once : DeliveryMode → Bool
is_at_least_once at_least_once = true

unfoldable pub requires_durable_record : TransportSemantic → Bool
requires_durable_record semantic = is_at_least_once semantic.delivery_mode

unfoldable pub matches_scope : TransportSemantic → SubscriberScope → Bool
matches_scope semantic scope = subscriber_scope_eq semantic.target_scope scope

unfoldable pub uses_backend : TransportSemantic → BackendCapabilityRef → Bool
uses_backend semantic capability_ref = capability_eq semantic.backend_capability_ref capability_ref
