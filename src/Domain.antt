-- ===== src/Domain.antt =====
-- crates/domain/src: the aggregates and policies of the bus.
pub mod Errors
pub mod Feedback
pub mod Publication
pub mod Backend
pub mod Delivery
pub mod Idempotency
pub mod Audit
pub mod Recovery
pub mod ReadOutput
pub mod Display
