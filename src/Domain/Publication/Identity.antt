-- ===== src/Domain/Publication/Identity.antt =====
-- The ids of publications: what they are made of, and when two sources share one.
use quantalithos_bus.Base.{◌≡◌, refl, none, some, [], ◌∷◌, ◌++◌, arith, ok}
use quantalithos_bus.Base.Text.{Text, codes, is_ascii_alphanumeric}
use quantalithos_bus.Contracts.Core.{Core}
use quantalithos_bus.Contracts.Metadata.{sanitize, EventMetadata}
use mathlib.Core.List.{append_assoc}
use quantalithos_bus.Contracts.Inputs.{AcceptPublicationCommand, CommittedOutboxFactInput}
use quantalithos_bus.Domain.Publication.Material.{
  PublicationMaterial, publication_id_of, from_accept_publication_command, from_outbox_fact,
}

sanitize-append : (s t : Text) → sanitize (s ++ t) ≡ sanitize s ++ sanitize t
unfolding sanitize
sanitize-append [] t = refl
sanitize-append (c ∷ s) t = cc (sanitize-append s t)

sanitize_underscore : sanitize (codes "_") ≡ codes "_"
unfolding sanitize is_ascii_alphanumeric
sanitize_underscore = refl

-- Different sources share a publication id: where the record reference goes on after an underscore,
-- the part before it can be moved to the system's name.
pub publication_id_of-collides :
    (system part rest : Text)
    → publication_id_of system (part ++ codes "_" ++ rest)
      ≡ publication_id_of (system ++ codes "_" ++ part) rest
unfolding publication_id_of
publication_id_of-collides system part rest =
    simp (sanitize-append, sanitize_underscore, append_assoc)

module _ ⦃core : Core⦄ where
  open core use {ActorContext, CommandMetadata}

  -- The two ways in give the same publication the same id, and keep what the sender declared.
  pub command-outbox_agree :
      (c : AcceptPublicationCommand) (i : CommittedOutboxFactInput) (actor : ActorContext)
      (cm : CommandMetadata) (em : EventMetadata) {m n : PublicationMaterial}
      → c.source_system ≡ i.source_system
      → c.source_record_ref ≡ i.source_record_ref
      → from_accept_publication_command c actor cm ≡ ok m
      → from_outbox_fact i actor em ≡ ok n
      → (m.publication_id ≡ n.publication_id)
        × (m.payload_ref ≡ c.payload_ref)
        × (n.payload_ref ≡ i.payload_ref)
        × (m.outbox_fact_ref ≡ none)
        × (n.outbox_fact_ref ≡ some i.committed_fact_ref)
  unfolding from_accept_publication_command from_outbox_fact
  command-outbox_agree c i actor cm em s r h k = ground arith
