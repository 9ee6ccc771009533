-- ===== src/Infra.antt =====
-- crates/infra: the in-memory store.
pub mod Store
pub mod System
