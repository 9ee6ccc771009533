-- ===== src/Contracts.antt =====
-- crates/contracts/src: the shared metadata and the inputs of the commands and events.
pub mod Core
pub mod Status
pub mod Metadata
pub mod Inputs
pub mod Projections
pub mod Receipts
pub mod Jobs
