-- ===== src/Domain/Publication.antt =====
-- crates/domain/src/publication.rs.
pub mod Semantic
pub mod Material
pub mod Acceptance
pub mod Derivation
pub mod Decision
pub mod Identity
