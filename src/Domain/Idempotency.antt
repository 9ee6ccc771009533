-- ===== src/Domain/Idempotency.antt =====
-- crates/domain/src/idempotency.rs.
pub mod Scope
pub mod Digest
pub mod Hex
