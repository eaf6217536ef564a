-- ===== src/Executor.antt =====
-- crates/executor: the slots of running tasks and the running of one action.
pub mod Manager
pub mod Runner
