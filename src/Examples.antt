-- ===== src/Examples.antt =====
-- The theorems applied to concrete deliveries, plans, feedbacks and publications.
pub mod Fixtures
pub mod Deliveries
pub mod Recoveries
pub mod Stores
pub mod Publications
pub mod Reads
pub mod Services
