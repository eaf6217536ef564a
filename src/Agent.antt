-- ===== src/Agent.antt =====
-- The agent: apps/agent/src.
pub mod Semaphore
pub mod Run
pub mod Executions
pub mod Handler
pub mod Retention
pub mod Network
