-- ===== src/Domain/Publication/Material.antt =====
-- crates/domain/src/publication.rs: the publication material, the semantic derived from it, and the
-- guard against inlined payload bodies.
use quantalithos_bus.Base.{
  Bool, true, false, not, ◌&&◌, Option, none, some, [], ◌∷◌, ◌++◌, if◌then◌else◌, Result, ok, err,
}
use quantalithos_bus.Base.Text.{codes, is_empty, trim, is_blank, starts_with, contains}
use quantalithos_bus.Contracts.Core.{Core}
use quantalithos_bus.Contracts.Status.{PayloadKind, DeliveryMode}
use quantalithos_bus.Contracts.Metadata.{
  CoreEventRef, CoreEventEnvelopeRef, OutboxFactRef, PayloadDigest, PayloadRef, PublicationId,
  SourceRecordRef, SourceSystem, sanitize, TargetScope, SubscriberScope, subscriber_scope_from,
  subscriber_scope_eq, BackendCapabilityRef, EventMetadata,
}
use quantalithos_bus.Domain.Errors.{DomainError}
use quantalithos_bus.Contracts.Inputs.{AcceptPublicationCommand, CommittedOutboxFactInput}
use quantalithos_bus.Domain.Publication.Semantic.{TransportSemantic}
use quantalithos_bus.Domain.Backend.{from_capability, rejects_raw_backend_leak, allows_mapping}

-- The id that both constructors of the material give it.
unfoldable pub publication_id_of : SourceSystem → SourceRecordRef → PublicationId
publication_id_of source_system source_record_ref =
    codes "pub_" ++ sanitize source_system ++ codes "_" ++ sanitize source_record_ref

module _ ⦃core : Core⦄ where
  open core use {ActorContext, TraceId, CommandMetadata, request_trace_id}

  pub record PublicationMaterial : Type 0 where
    pub publication_id : PublicationId
    pub source_system : SourceSystem
    pub source_record_ref : SourceRecordRef
    pub core_event_ref : CoreEventRef
    pub core_event_envelope_ref : Option CoreEventEnvelopeRef
    pub payload_ref : PayloadRef
    pub payload_kind : PayloadKind
    pub payload_digest : PayloadDigest
    pub delivery_mode : DeliveryMode
    pub target_scope : TargetScope
    pub outbox_fact_ref : Option OutboxFactRef
    pub actor : ActorContext
    pub trace_ref : TraceId

  unfoldable pub from_accept_publication_command :
      AcceptPublicationCommand
      → ActorContext
      → CommandMetadata
      → Result DomainError PublicationMaterial
  unfolding publication_id_of
  from_accept_publication_command command actor meta =
      if is_blank command.source_system
      then err (DomainError.invalid_publication_material "source_system")
      else if is_blank command.source_record_ref
      then err (DomainError.invalid_publication_material "source_record_ref")
      else if is_blank command.payload_ref
      then err (DomainError.invalid_publication_material "payload_ref")
      else if is_blank command.payload_digest
      then err (DomainError.invalid_publication_material "payload_digest")
      else if is_blank command.target_scope.project_id
      then err (DomainError.invalid_publication_material "target_scope.project_id")
      else if is_blank command.target_scope.topic
      then err (DomainError.invalid_publication_material "target_scope.topic")
      else ok (record {
        publication_id = publication_id_of command.source_system command.source_record_ref;
        source_system = command.source_system;
        source_record_ref = command.source_record_ref;
        core_event_ref = command.core_event_ref;
        core_event_envelope_ref = none;
        payload_ref = command.payload_ref;
        payload_kind = command.payload_kind;
        payload_digest = command.payload_digest;
        delivery_mode = command.delivery_mode;
        target_scope = command.target_scope;
        outbox_fact_ref = none;
        actor = actor;
        trace_ref = request_trace_id meta;
      })

  unfoldable pub from_outbox_fact :
      CommittedOutboxFactInput
      → ActorContext
      → EventMetadata
      → Result DomainError PublicationMaterial
  unfolding publication_id_of
  from_outbox_fact input actor meta =
      if is_blank input.source_system
      then err (DomainError.invalid_publication_material "source_system")
      else if is_blank input.source_record_ref
      then err (DomainError.invalid_publication_material "source_record_ref")
      else if is_blank input.core_event_envelope_ref
      then err (DomainError.invalid_publication_material "core_event_envelope_ref")
      else if is_blank input.payload_ref
      then err (DomainError.invalid_publication_material "payload_ref")
      else if is_blank input.payload_digest
      then err (DomainError.invalid_publication_material "payload_digest")
      else if is_blank input.target_scope.project_id
      then err (DomainError.invalid_publication_material "target_scope.project_id")
      else if is_blank input.target_scope.topic
      then err (DomainError.invalid_publication_material "target_scope.topic")
      else ok (record {
        publication_id = publication_id_of input.source_system input.source_record_ref;
        source_system = input.source_system;
        source_record_ref = input.source_record_ref;
        core_event_ref = input.core_event_ref;
        core_event_envelope_ref = some input.core_event_envelope_ref;
        payload_ref = input.payload_ref;
        payload_kind = input.payload_kind;
        payload_digest = input.payload_digest;
        delivery_mode = input.delivery_mode;
        target_scope = input.target_scope;
        outbox_fact_ref = some input.committed_fact_ref;
        actor = actor;
        trace_ref = meta.trace_ref;
      })

  unfoldable pub has_core_contract : PublicationMaterial → Bool
  has_core_contract material = not (is_blank material.core_event_ref)

  unfoldable pub has_payload_reference : PublicationMaterial → Bool
  has_payload_reference material = not (is_blank material.payload_ref)

  unfoldable pub is_from_outbox : PublicationMaterial → Bool
  is_from_outbox material = elim material.outbox_fact_ref [ none ↦ false | some fact ↦ true ]

  unfoldable pub derive :
      PublicationMaterial
      → BackendCapabilityRef
      → SubscriberScope
      → Result DomainError TransportSemantic
  unfolding from_capability subscriber_scope_from
  derive material capability_ref target_scope =
      let semantic : TransportSemantic = record {
        semantic_id =
            codes "semantic_"
            ++ sanitize material.publication_id
            ++ codes "_"
            ++ sanitize capability_ref.capability_id;
        publication_id = material.publication_id;
        delivery_mode = material.delivery_mode;
        target_scope = target_scope;
        backend_capability_ref = capability_ref;
      } in
      let policy = from_capability capability_ref in
      if is_blank target_scope.project_id
      then err (DomainError.invalid_subscriber_scope "project_id")
      else if is_blank target_scope.topic
      then err (DomainError.invalid_subscriber_scope "topic")
      else if not (subscriber_scope_eq (subscriber_scope_from material.target_scope) target_scope)
      then err DomainError.target_scope_mismatch
      else if rejects_raw_backend_leak policy semantic
      then err DomainError.backend_private_field_leak
      else if not (allows_mapping policy semantic capability_ref)
      then err DomainError.backend_capability_mapping_rejected
      else ok semantic

  -- `PayloadBoundaryGuard`, whose only field is the constant reference of its policy.
  unfoldable pub allows_reference : PayloadRef → Bool
  allows_reference payload_ref =
      let value = trim payload_ref in
      not (is_empty value)
      && not (starts_with value (codes "{"))
      && not (starts_with value (codes "["))
      && not (contains value (10 ∷ []))
      && not (contains value (13 ∷ []))
      && not (contains value (codes "\"secret\""))
      && not (contains value (codes "\"payload\""))

  unfoldable pub rejects_body : PublicationMaterial → Bool
  unfolding allows_reference
  rejects_body material = not (allows_reference material.payload_ref)
