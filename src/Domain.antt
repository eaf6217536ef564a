-- ===== src/Domain.antt =====
-- crates/domain: the types that every component shares.
pub mod Trigger
pub mod Policy
pub mod Execution
pub mod Task
