-- ===== src/Domain/Idempotency/Digest.antt =====
-- crates/domain/src/idempotency.rs: the digest of a request and the anchor that binds it. A payload
-- is the bytes that serde_json writes, a parameter where a command is digested.
use quantalithos_bus.Base.{
  ◌>>=◌, ℕ, zero, suc, ◌+◌, ◌*◌, ◌/◌, ◌%◌, ◌^◌, Bool, false, Option, List, [], ◌∷◌, ◌++◌, ltb,
  if◌then◌else◌, Result, ok, ok_or,
}
use quantalithos_bus.Base.Text.{Text, text_eq}
use quantalithos_bus.Contracts.Core.{Core}
use quantalithos_bus.Contracts.Metadata.{FeedbackId, PublicationId}
use quantalithos_bus.Domain.Errors.{DomainError}
use Prim.Native.Nat.{bit_xor}
use quantalithos_bus.Domain.Idempotency.Scope.{IdempotencyScope}

abbrev pub u64_mod : ℕ
u64_mod = 2 ^ 64

-- `hash ^= u64::from(byte); hash = hash.wrapping_mul(0x100000001b3);`
unfoldable pub fnv_step : ℕ → ℕ → ℕ
fnv_step hash byte = (bit_xor hash byte * 0x100000001b3) % u64_mod

unfoldable pub fnv : ℕ → List ℕ → ℕ
unfolding fnv_step
fnv hash [] = hash
fnv hash (byte ∷ payload) = fnv (fnv_step hash byte) payload

abbrev pub fnv_offset : ℕ
fnv_offset = 0xcbf29ce484222325

unfoldable pub hex_digit : ℕ → ℕ
hex_digit d = if ltb d 10 then b'0' + d else 87 + d

-- The last `k` hexadecimal digits. At 16 this is `{:016x}` of a 64-bit number.
unfoldable pub hex_digits : ℕ → ℕ → Text
unfolding hex_digit
hex_digits zero n = []
hex_digits (suc k) n = hex_digits k (n / 16) ++ hex_digit (n % 16) ∷ []

pub data DigestAlgorithmVersion : Type 0 where
  fnv1a64_v1 : DigestAlgorithmVersion

pub record RequestDigest : Type 0 where
  pub value : Text
  pub algorithm_version : DigestAlgorithmVersion

unfoldable pub from_canonical_payload : List ℕ → RequestDigest
unfolding fnv hex_digits
from_canonical_payload payload = record {
  value = hex_digits 16 (fnv fnv_offset payload);
  algorithm_version = fnv1a64_v1;
}

-- The five constructors from a request: `serde_json::to_vec(request)`, which may fail, is `to_vec`.
unfoldable pub from_request {ℓ} :
    {A : Type ℓ} → (A → Option (List ℕ)) → A → Result DomainError RequestDigest
unfolding from_canonical_payload
from_request to_vec request = do
  payload ← ok_or (to_vec request) DomainError.invalid_request_digest
  ok (from_canonical_payload payload)

-- The derived equality; there is one algorithm version.
unfoldable pub digest_eq : RequestDigest → RequestDigest → Bool
digest_eq a b = text_eq a.value b.value

pub data RecordRef : Type 0 where
  publication : PublicationId → RecordRef
  feedback : FeedbackId → RecordRef

unfoldable pub record_ref_eq : RecordRef → RecordRef → Bool
record_ref_eq (publication a) (publication b) = text_eq a b
record_ref_eq (feedback a) (feedback b) = text_eq a b
record_ref_eq _ _ = false

module _ ⦃core : Core⦄ where
  open core use {IdempotencyKey, Timestamp, TraceId}

  pub record IdempotencyAnchor : Type 0 where
    pub anchor_id : Text
    pub scope : IdempotencyScope
    pub key : IdempotencyKey
    pub request_digest : RequestDigest
    pub bound_record_ref : RecordRef
    pub created_at : Timestamp
    pub trace_ref : TraceId

  unfoldable pub bind :
      Text
      → IdempotencyScope
      → IdempotencyKey
      → RequestDigest
      → RecordRef
      → Timestamp
      → TraceId
      → IdempotencyAnchor
  bind anchor_id scope key request_digest record_ref created_at trace_ref = record {
    anchor_id = anchor_id;
    scope = scope;
    key = key;
    request_digest = request_digest;
    bound_record_ref = record_ref;
    created_at = created_at;
    trace_ref = trace_ref;
  }

  unfoldable pub matches : IdempotencyAnchor → RequestDigest → Bool
  unfolding digest_eq
  matches self digest = digest_eq self.request_digest digest

  unfoldable pub is_bound_to : IdempotencyAnchor → RecordRef → Bool
  unfolding record_ref_eq
  is_bound_to self record_ref = record_ref_eq self.bound_record_ref record_ref

  pub record IdempotencyConflict : Type 0 where
    pub scope : IdempotencyScope
    pub key : IdempotencyKey
    pub existing_digest : RequestDigest
    pub incoming_digest : RequestDigest
    pub occurred_at : Timestamp
    pub trace_ref : TraceId
