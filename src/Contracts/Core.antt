-- ===== src/Contracts/Core.antt =====
-- What the bus uses of the crate `core-contracts`, which is not part of this repository
-- (re-exported by crates/contracts/src/metadata.rs): the types are parameters, with the accessors
-- that the code calls and the laws that it relies on.
use mathlib.Core.Path.{◌≡◌}
use mathlib.Core.Logic.{◌↔◌, ◌≢◌}
use mathlib.Core.Bool.{Bool, true}
use mathlib.Core.Option.{Option}
use quantalithos_bus.Base.Text.{Text}

pub record Core : Type 1 where
  pub ActorContext : Type 0
  -- `!actor.role_refs.is_empty()`
  pub has_role_refs : ActorContext → Bool
  pub IdempotencyKey : Type 0
  pub key_as_str : IdempotencyKey → Text
  pub key_eq : IdempotencyKey → IdempotencyKey → Bool
  pub key_eq_iff : (k l : IdempotencyKey) → (key_eq k l ≡ true) ↔ (k ≡ l)
  pub Timestamp : Type 0
  pub time_as_str : Timestamp → Text
  pub TraceId : Type 0
  pub CommandMetadata : Type 0
  -- `meta.request.trace_id`
  pub request_trace_id : CommandMetadata → TraceId
  -- `meta.request.idempotency_key`
  pub request_idempotency_key : CommandMetadata → Option IdempotencyKey
  -- `meta.request.requested_at`
  pub request_requested_at : CommandMetadata → Timestamp
  pub JobRunId : Type 0
  pub Version : Type 0
  -- the literal 0, and `version + 1`
  pub version_zero : Version
  pub next_version : Version → Version
  pub version_eq : Version → Version → Bool
  pub version_eq_iff : (v w : Version) → (version_eq v w ≡ true) ↔ (v ≡ w)
  pub next_version_ne : (v : Version) → next_version v ≢ v
