-- ===== src/Domain/Idempotency/Hex.antt =====
-- The printed digest of a request, and the hash that it prints.
use quantalithos_bus.Base.{
  ℕ, zero, suc, ◌+◌, ◌-◌, ◌*◌, ◌/◌, ◌%◌, ◌^◌, ◌<◌, ◌≡◌, refl, sym, ap, ◌∙◌, ◌↔◌, inl, inr, true,
  Option, some, List, [], ◌∷◌, ◌++◌, arith, ltb, if◌then◌else◌, Option-cases, length, length-append,
  ok,
}
use quantalithos_bus.Base.Text.{Text}
use quantalithos_bus.Contracts.Core.{Core}
use native.Mathlib.Nat.{pow-suc}
use quantalithos_bus.Base.Text.Laws.{text_eq_iff}
use quantalithos_bus.Domain.Idempotency.Scope.{IdempotencyScope}
use quantalithos_bus.Domain.Idempotency.Digest.{
  u64_mod, fnv_step, fnv, fnv_offset, hex_digit, hex_digits, from_canonical_payload, digest_eq,
  from_request, RequestDigest, bind, matches, RecordRef,
}

-- A hash of 64 bits stays one.
pub fnv-lt : (hash : ℕ) (payload : List ℕ) → hash < u64_mod → fnv hash payload < u64_mod
unfolding fnv fnv_step
fnv-lt hash [] h = h
fnv-lt hash (byte ∷ payload) h = fnv-lt (fnv_step hash byte) payload (omega arith)

length-hex_digits : (k n : ℕ) → length (hex_digits k n) ≡ k
unfolding hex_digits
length-hex_digits zero n = refl
length-hex_digits (suc k) n = omega (
  arith,
  length-append (hex_digits k (n / 16)) (hex_digit (n % 16) ∷ []),
  length-hex_digits k (n / 16),
)

-- Reading hexadecimal digits back.
unhex : ℕ → ℕ
unhex c = if ltb c 58 then c - 48 else c - 87

read_hex : ℕ → Text → ℕ
unfolding unhex
read_hex acc [] = acc
read_hex acc (c ∷ s) = read_hex (acc * 16 + unhex c) s

read_hex-snoc :
    (acc : ℕ) (s : Text) (c : ℕ) → read_hex acc (s ++ c ∷ []) ≡ read_hex acc s * 16 + unhex c
unfolding read_hex
read_hex-snoc acc [] c = refl
read_hex-snoc acc (d ∷ s) c = read_hex-snoc (acc * 16 + unhex d) s c

unhex-hex_digit : (d : ℕ) → d < 16 → unhex (hex_digit d) ≡ d
unfolding unhex hex_digit
unhex-hex_digit d h = ground arith

read_hex-hex_digits : (k n : ℕ) → n < 16 ^ k → read_hex 0 (hex_digits k n) ≡ n
unfolding hex_digits read_hex
read_hex-hex_digits zero n h = omega arith
read_hex-hex_digits (suc k) n h =
    rw (read_hex-snoc 0 (hex_digits k (n / 16)) (hex_digit (n % 16))) (
      omega (arith, unhex-hex_digit (n % 16) (omega arith), read_hex-hex_digits k (n / 16) shorter))
  where
    shorter : n / 16 < 16 ^ k
    shorter = omega (arith, pow-suc 16 k)

-- The digest of a payload has sixteen digits, and two payloads have the same digest exactly if they
-- have the same hash.
pub digest_of_hash :
    (p q : List ℕ)
    → (length (from_canonical_payload p).value ≡ 16)
      × ((digest_eq (from_canonical_payload p) (from_canonical_payload q) ≡ true)
          ↔ (fnv fnv_offset p ≡ fnv fnv_offset q))
unfolding from_canonical_payload digest_eq
digest_of_hash p q = (
  length-hex_digits 16 (fnv fnv_offset p),
  (
    λ h. sym (read p) ∙ ap (read_hex 0) ((text_eq_iff (digits p) (digits q)).0 h) ∙ read q,
    λ h. (text_eq_iff (digits p) (digits q)).1 (ap (hex_digits 16) h),
  ),
)
  where
    digits : List ℕ → Text
    digits payload = hex_digits 16 (fnv fnv_offset payload)

    read : (payload : List ℕ) → read_hex 0 (digits payload) ≡ fnv fnv_offset payload
    read payload =
        read_hex-hex_digits 16 (fnv fnv_offset payload) (fnv-lt fnv_offset payload (omega arith))

from_request-ok :
    {A : Type 0} (to_vec : A → Option (List ℕ)) (a : A) {d : RequestDigest}
    → from_request to_vec a ≡ ok d
    → (p : List ℕ) × (to_vec a ≡ some p) × (d ≡ from_canonical_payload p)
unfolding from_request
from_request-ok to_vec a {d} h = elim (Option-cases (to_vec a)) [
  | inl e ↦ absurd (ground (arith, e, h))
  | inr (p, e) ↦ (p, e, ground (arith, e, h))
]

module _ ⦃core : Core⦄ where
  open core use {IdempotencyKey, Timestamp, TraceId}

  -- An anchor bound to the digest of one request matches the digest of another exactly if the
  -- serialised requests have the same hash; a request that cannot be serialised has no digest.
  pub anchor-matches_iff :
      {A : Type 0} (to_vec : A → Option (List ℕ)) (a b : A) (id : Text) (scope : IdempotencyScope)
      (key : IdempotencyKey) (record_ref : RecordRef) (at : Timestamp) (trace : TraceId)
      {d e : RequestDigest}
      → from_request to_vec a ≡ ok d
      → from_request to_vec b ≡ ok e
      → (p : List ℕ) × (q : List ℕ) × (to_vec a ≡ some p)
        × (to_vec b ≡ some q)
        × ((matches (bind id scope key d record_ref at trace) e ≡ true)
            ↔ (fnv fnv_offset p ≡ fnv fnv_offset q))
  unfolding matches bind
  anchor-matches_iff to_vec a b id scope key record_ref at trace h k =
      let (p, ep, dp) = from_request-ok to_vec a h in
      let (q, eq, dq) = from_request-ok to_vec b k in
      (p, q, ep, eq, rw (dp, dq) (digest_of_hash p q).1)
