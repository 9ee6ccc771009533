-- ===== src/Application/Idempotence.antt =====
-- crates/application/src/services/publication.rs: a publication that is accepted twice.
pub mod Staging
pub mod Accepted
pub mod Decided
pub mod Entry
pub mod Replay
