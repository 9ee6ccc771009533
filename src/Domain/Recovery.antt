-- ===== src/Domain/Recovery.antt =====
-- crates/domain/src/recovery.rs.
pub mod Retry
pub mod Failure
pub mod DeadLetter
pub mod Replay
pub mod Policy
pub mod Budget
pub mod Chain
pub mod FailurePath
pub mod Replays
