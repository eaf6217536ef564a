-- ===== src/Agent/Run.antt =====
-- apps/agent/src/service.rs: the data of the executions, and the loop over the actions of one. What
-- `ProcessRunner::run_action` answers is an argument.
use Prim.Native.String.{String}
use easy_job.Prelude.{
  ℕ, ◌-◌, ◌/◌, Bool, true, false, if◌then◌else◌, Option, none, some, List, [], ◌∷◌, ◌++◌,
}
use easy_job.Prelude.Map.{Map}
use easy_job.Domain.Trigger.{TaskId, TriggerId, DateTime}
use easy_job.Domain.Policy.{TaskNotificationPolicy}
use easy_job.Domain.Execution.{
  ExecutionId, ExecutionStatus, running, succeeded, failed, Execution, new_execution,
}
use easy_job.Domain.Task.{Action, Task}
use easy_job.Executor.Manager.{Counts}
use easy_job.Scheduler.Loop.{TriggerEvent}

pub record RunResult : Type 0 where
  pub status : ExecutionStatus
  pub exit_code : Option ℕ
  pub stdout : String
  pub stderr : String
  pub error_message : Option String

-- The result of `run_action`, an error with its text.
pub data ActionResult : Type 0 where
  ran : RunResult → ActionResult
  failed_to_run : String → ActionResult

pub data Stream : Type 0 where
  stdout stderr : Stream

pub data IpcEvent : Type 0 where
  execution_started : ExecutionId → TaskId → IpcEvent
  execution_output : ExecutionId → TaskId → Stream → String → IpcEvent
  execution_finished : Execution → String → TaskNotificationPolicy → IpcEvent

-- The variables of the loop over the actions; `left` are the actions that it has still to go through.
pub record Progress : Type 0 where
  pub left : List Action
  pub final_status : ExecutionStatus
  pub exit_code : Option ℕ
  pub error_message : Option String

abbrev pub is_succeeded : ExecutionStatus → Bool
is_succeeded succeeded = true
is_succeeded _ = false

unfoldable pub first_progress : List Action → Progress
first_progress actions = record {
  left = actions;
  final_status = succeeded;
  exit_code = some 0;
  error_message = none;
}

-- The `continue` of the loop.
unfoldable pub skip_disabled : List Action → List Action
skip_disabled [] = []
skip_disabled (a ∷ actions) =
    let later = skip_disabled actions in if a.enabled then a ∷ actions else later

-- The `match` on the result; a `break` leaves no action.
unfoldable pub absorb : ActionResult → List Action → Progress → Progress
absorb (ran r) rest p =
    if is_succeeded r.status then record p { left = rest; exit_code = r.exit_code } else record {
      left = [];
      final_status = r.status;
      exit_code = r.exit_code;
      error_message = r.error_message;
    }
absorb (failed_to_run e) rest p = record p {
  left = [];
  final_status = failed;
  error_message = some e;
}

abbrev pub unless_empty : String → IpcEvent → List IpcEvent
unless_empty String.[] event = []
unless_empty _ event = event ∷ []

unfoldable pub output_events : Execution → ActionResult → List IpcEvent
output_events exec (ran r) =
    unless_empty r.stdout (execution_output exec.id exec.task_id stdout r.stdout)
    ++ unless_empty r.stderr (execution_output exec.id exec.task_id stderr r.stderr)
output_events exec (failed_to_run _) = []

-- Where an admission or its execution stands: before the slot is asked for; before `create_run`;
-- before the token is put into `active_executions`; in the loop over the actions; before the token is
-- taken out; before the slot is given back; before the permit is dropped.
pub data Phase : Type 0 where
  permitted waiting : Phase
  recorded : Execution → Phase
  working : Execution → Progress → Phase
  finished : Execution → Phase
  closing leaving : Phase

-- What an execution was asked for by: an event of the scheduler, or `task.trigger_now`.
pub data Origin : Type 0 where
  from_event : TriggerEvent → Origin
  by_hand : Origin

-- An admission that holds a permit, and from `spawn` on the execution that has taken it over.
pub record Run : Type 0 where
  pub task : Task
  pub origin : Origin
  pub phase : Phase

-- What the executions share; a binding of `active_executions` says whether its token is cancelled.
pub record Shared (S : Type 0) : Type 0 where
  pub counts : Counts
  pub semaphore : S
  pub active_executions : Map Bool
  pub events : List IpcEvent

pub record World (S : Type 0) : Type 0 where
  pub shared : Shared S
  pub runs : List Run

-- The result of `find_by_id`.
pub data Lookup : Type 0 where
  found : Task → Lookup
  not_found lookup_failed : Lookup

-- What `task.trigger_now` answers: the execution, or one of its six errors.
pub data TriggerReply : Type 0 where
  started : Execution → TriggerReply
  task_missing task_unreadable no_permit no_slot not_recorded not_serialized : TriggerReply

-- What one step of a run leaves: the shared state, the run if it goes on, and the answer of
-- `task.trigger_now` if the step decides it; what is held is given back before the answer goes out.
pub record Moved (S : Type 0) : Type 0 where
  pub shared : Shared S
  pub next : Option Run
  pub reply : Option TriggerReply

abbrev pub running_execution :
    ExecutionId → DateTime → Task → Option TriggerId → DateTime → Execution
running_execution id now task trigger_id scheduled_at =
    record (new_execution id now task.id trigger_id (some scheduled_at)) {
      status = running;
      started_at = now;
    }

-- The record that `update_run` is given.
unfoldable pub finished_execution : Execution → Progress → DateTime → Execution
finished_execution exec p finished_at = record exec {
  status = p.final_status;
  finished_at = some finished_at;
  duration_ms = some ((finished_at - exec.started_at) / 1_000_000);
  exit_code = p.exit_code;
  error_message = p.error_message;
}
