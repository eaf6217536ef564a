-- ===== src/Domain/Execution.antt =====
-- crates/domain/src/execution.rs: the record of one run of a task.
use Prim.Native.String.{String}
use easy_job.Prelude.{ℕ, Option, none}
use easy_job.Domain.Trigger.{TaskId, TriggerId, DateTime}

abbrev pub ExecutionId : Type 0
ExecutionId = ℕ

pub data ExecutionStatus : Type 0 where
  queued running succeeded failed timed_out cancelled skipped interrupted : ExecutionStatus

-- An exit code is an `i32`, kept as its bit pattern.
pub record Execution : Type 0 where
  pub id : ExecutionId
  pub task_id : TaskId
  pub trigger_id : Option TriggerId
  pub status : ExecutionStatus
  pub scheduled_at : Option DateTime
  pub started_at : DateTime
  pub finished_at : Option DateTime
  pub duration_ms : Option ℕ
  pub exit_code : Option ℕ
  pub error_message : Option String

-- `Execution::new`; the fresh id and the reading of the clock are arguments.
unfoldable pub new_execution :
    ExecutionId → DateTime → TaskId → Option TriggerId → Option DateTime → Execution
new_execution id now task_id trigger_id scheduled_at = record {
  id = id;
  task_id = task_id;
  trigger_id = trigger_id;
  status = queued;
  scheduled_at = scheduled_at;
  started_at = now;
  finished_at = none;
  duration_ms = none;
  exit_code = none;
  error_message = none;
}
