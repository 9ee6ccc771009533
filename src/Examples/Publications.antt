-- ===== src/Examples/Publications.antt =====
-- Examples on publications and requests.
use quantalithos_bus.Base.{
  ℕ, ◌≡◌, refl, ◌≢◌, ◌↔◌, true, Option, none, some, List, [], ◌∷◌, if◌then◌else◌, err,
}
use quantalithos_bus.Base.Text.{
  Text, codes, is_empty, trim, is_blank, to_ascii_lowercase, contains, is_ascii_alphanumeric,
}
use quantalithos_bus.Contracts.Status.{PublicationAcceptanceStatus}
use quantalithos_bus.Contracts.Metadata.{sanitize}
use quantalithos_bus.Domain.Errors.{DomainError}
use quantalithos_bus.Contracts.Inputs.{AcceptPublicationCommand}
use quantalithos_bus.Domain.Backend.{looks_like_private_backend_payload}
use quantalithos_bus.Domain.Delivery.Steps.{is_ok}
use quantalithos_bus.Domain.Publication.Material.{
  publication_id_of, from_accept_publication_command, from_outbox_fact, derive,
}
use quantalithos_bus.Domain.Publication.Acceptance.{
  PublicationAcceptance, missing_core_event_ref, start_pending,
}
use quantalithos_bus.Domain.Publication.Derivation.{derive_iff, derive-ne-mapping_rejected}
use quantalithos_bus.Domain.Publication.Decision.{
  Decision, accepts, rejects, decide, decide_all, first_decision_stands, Inv, start_pending-Inv,
}
use quantalithos_bus.Domain.Publication.Identity.{publication_id_of-collides, command-outbox_agree}
use quantalithos_bus.Domain.Idempotency.Scope.{for_accept_publication_command}
use quantalithos_bus.Domain.Idempotency.Digest.{
  from_request, from_canonical_payload, bind, matches, fnv, fnv_offset, RecordRef,
}
use quantalithos_bus.Domain.Idempotency.Hex.{anchor-matches_iff}
use quantalithos_bus.Examples.Fixtures.{
  text_core, scope, capability, command, outbox_fact, material_of,
}

derive_example : is_ok (derive (material_of none none) capability scope) ≡ true
unfolding is_blank looks_like_private_backend_payload trim to_ascii_lowercase contains
derive_example =
    (derive_iff (material_of none none) capability scope).1 (refl, refl, refl, refl, refl, refl)

derive-ne-mapping_rejected_example :
    derive (material_of none none) capability scope
    ≢ err DomainError.backend_capability_mapping_rejected
derive-ne-mapping_rejected_example =
    derive-ne-mapping_rejected (material_of none none) capability scope

abbrev pub pending : PublicationAcceptance
pending = record {
  acceptance_id = codes "acceptance_pub_a_b";
  publication_id = codes "pub_a_b";
  status = PublicationAcceptanceStatus.pending;
  reject_reason = none;
  accepted_at = none;
  decision_audit_ref = none;
}

abbrev decisions : List Decision
decisions =
    accepts true (codes "1") (codes "u") ∷ rejects missing_core_event_ref true (codes "w") ∷ []

first_decision_stands_example :
    decide_all pending (accepts true (codes "1") (codes "u") ∷ decisions)
    ≡ (decide pending (accepts true (codes "1") (codes "u"))).0
first_decision_stands_example =
    first_decision_stands pending (accepts true (codes "1") (codes "u")) decisions

start_pending-Inv_example : Inv (decide_all pending decisions)
unfolding start_pending is_blank sanitize is_ascii_alphanumeric
start_pending-Inv_example = start_pending-Inv (material_of none none) true decisions refl

publication_id_of-collides_example :
    publication_id_of (codes "a") (codes "b_c") ≡ publication_id_of (codes "a_b") (codes "c")
publication_id_of-collides_example = publication_id_of-collides (codes "a") (codes "b") (codes "c")

command-outbox_agree_example :
    (codes "pub_a_b" ≡ codes "pub_a_b")
    × (codes "r" ≡ codes "r")
    × (codes "r" ≡ codes "r")
    × (◌≡◌ {A = Option Text} none none)
    × (some (codes "o") ≡ some (codes "o"))
unfolding from_accept_publication_command from_outbox_fact is_blank sanitize is_ascii_alphanumeric
command-outbox_agree_example =
    command-outbox_agree command outbox_fact true (codes "z") (record { trace_ref = codes "z" })
      {m = material_of none none} {n = material_of (some (codes "v")) (some (codes "o"))} refl refl
      refl refl

-- A serialiser that writes the payload reference only, and fails on an empty one.
abbrev payload_only : AcceptPublicationCommand → Option (List ℕ)
payload_only c = if is_empty c.payload_ref then none else some c.payload_ref

anchor-matches_iff_example :
    (p : List ℕ) × (q : List ℕ) × (payload_only command ≡ some p)
    × (payload_only command ≡ some q)
    × ((matches
            (bind
              (codes "n")
              (for_accept_publication_command command)
              (codes "k")
              (from_canonical_payload (codes "r"))
              (RecordRef.publication (codes "pub_a_b"))
              (codes "1")
              (codes "z"))
            (from_canonical_payload (codes "r"))
          ≡ true)
        ↔ (fnv fnv_offset p ≡ fnv fnv_offset q))
unfolding from_request is_empty
anchor-matches_iff_example =
    anchor-matches_iff payload_only command command (codes "n")
      (for_accept_publication_command command) (codes "k") (RecordRef.publication (codes "pub_a_b"))
      (codes "1") (codes "z") {d = from_canonical_payload (codes "r")}
      {e = from_canonical_payload (codes "r")} refl refl
