-- ===== src/Scheduler.antt =====
-- crates/scheduler: the queue, the evaluation of triggers, and the scheduler's loop.
pub mod Queue
pub mod Calendar
pub mod Evaluator
pub mod Reroll
pub mod Loop
