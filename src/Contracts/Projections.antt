-- ===== src/Contracts/Projections.antt =====
-- crates/contracts/src: the versions of the read projections (metadata.rs) and the backend health view
-- (views.rs).
use quantalithos_bus.Base.{
  ℕ, ◌+◌, ◌-◌, ◌*◌, ◌%◌, ◌^◌, ◌&&◌, Option, none, some, [], ◌∷◌, ◌++◌, ltb, leb, ◌==◌,
  if◌then◌else◌,
}
use quantalithos_bus.Base.Text.{Text, codes, show}
use quantalithos_bus.Contracts.Core.{Core}
use quantalithos_bus.Contracts.Status.{BackendKind}
use quantalithos_bus.Contracts.Metadata.{ProjectionVersion}

abbrev pub BackendId : Type 0
BackendId = Text

abbrev pub u64_mod : ℕ
u64_mod = 2 ^ 64

-- `value.strip_prefix(prefix)`.
unfoldable pub strip_prefix : Text → Text → Option Text
strip_prefix [] s = some s
strip_prefix (c ∷ p) [] = none
strip_prefix (c ∷ p) (d ∷ s) = if c == d then strip_prefix p s else none

-- The digits of `parse::<u64>`, from the first on; none on a character that is no digit and past the
-- largest u64.
unfoldable pub parse_digits : ℕ → Text → Option ℕ
parse_digits n [] = some n
parse_digits n (c ∷ s) =
    let next = n * 10 + (c - b'0') in
    if leb b'0' c && leb c b'9' && ltb next u64_mod then parse_digits next s else none

-- `value.parse::<u64>().ok()`: digits, after one plus sign if there is one.
unfoldable pub parse_u64 : Text → Option ℕ
unfolding parse_digits
parse_u64 [] = none
parse_u64 (c ∷ []) = if c == b'+' then none else parse_digits 0 (c ∷ [])
parse_u64 (c ∷ d ∷ s) = if c == b'+' then parse_digits 0 (d ∷ s) else parse_digits 0 (c ∷ d ∷ s)

-- `map(|value| value + 1).unwrap_or(1)`, the sum wrapping.
unfoldable pub next_number : Option ℕ → ℕ
next_number none = 1
next_number (some n) = (n + 1) % u64_mod

-- The two `and_then` of `next_after`.
unfoldable pub number_of : Option ProjectionVersion → Option ℕ
unfolding strip_prefix parse_u64
number_of none = none
number_of (some v) = elim (strip_prefix (codes "projection_v") v) [
  | none ↦ none
  | some digits ↦ parse_u64 digits
]

unfoldable pub next_after : Option ProjectionVersion → ProjectionVersion
unfolding number_of next_number
next_after current = codes "projection_v" ++ show (next_number (number_of current))

unfoldable pub initial_version : ProjectionVersion
initial_version = codes "projection_v1"

pub data BackendCapabilityStatus : Type 0 where
  available degraded : BackendCapabilityStatus

module _ ⦃core : Core⦄ where
  open core use {Timestamp}

  pub record BackendHealthView : Type 0 where
    pub backend_id : BackendId
    pub backend_kind : BackendKind
    pub capability_status : BackendCapabilityStatus
    pub last_checked_at : Timestamp
    pub secret_ref : Option Text
