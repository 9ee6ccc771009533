-- ===== src/Application.antt =====
-- crates/application: the ports through which the services reach the store.
pub mod Ports
pub mod Errors
pub mod Services
pub mod Atomicity
pub mod Follows
pub mod Triples
pub mod Idempotence
pub mod Requests
pub mod Batches
pub mod Progress
