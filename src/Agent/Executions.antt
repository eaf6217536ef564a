-- ===== src/Agent/Executions.antt =====
-- apps/agent/src/service.rs: the executions, from a trigger's event or a call of `task.trigger_now` to
-- their end. A step goes from one shared object that is used to the next, so that other tasks may move
-- wherever the code waits. What the repositories, the clock and `ProcessRunner::run_action` answer is
-- an argument of the step that asks them. The rows that the repositories keep are not part of the state.
pub mod Outcome
pub mod Steps
pub mod Holding
pub mod Balance
pub mod Active
pub mod Tokens
mod Examples
use Prim.Native.String.{String}
use easy_job.Prelude.{
  ℕ, ◌-◌, ◌/◌, Bool, true, false, if◌then◌else◌, Option, none, some, List, [], ◌∷◌, ◌++◌,
}
use easy_job.Prelude.Map
use easy_job.Prelude.Map.{Map}
use easy_job.Domain.Trigger.{TaskId, TriggerId, DateTime}
use easy_job.Domain.Policy.{TaskNotificationPolicy}
use easy_job.Domain.Execution.{
  ExecutionId, ExecutionStatus, queued, running, succeeded, failed, timed_out, cancelled, skipped,
  interrupted, Execution, new_execution,
}
use easy_job.Domain.Task.{Action, Task}
use easy_job.Scheduler.Loop.{TriggerEvent}
use easy_job.Executor.Manager.{Counts, try_acquire_slot, release_slot}
use easy_job.Agent.Semaphore.{Semaphore}
pub use easy_job.Agent.Run.{
  ActionResult, IpcEvent, Lookup, Moved, Origin, Phase, Progress, Run, RunResult, Shared, Stream,
  TriggerReply, World, is_succeeded, running_execution, unless_empty, ran, failed_to_run, stdout,
  stderr, execution_started, execution_output, execution_finished, permitted, waiting, recorded,
  working, finished, closing, leaving, from_event, by_hand, found, not_found, lookup_failed,
  started, task_missing, task_unreadable, no_permit, no_slot, not_recorded, not_serialized,
}
unfoldable pub use easy_job.Agent.Run.{
  absorb, finished_execution, first_progress, output_events, skip_disabled,
}

-- Only `task.trigger_now` answers.
abbrev pub replies : Origin → TriggerReply → Option TriggerReply
replies by_hand r = some r
replies (from_event _) r = none

abbrev pub moves_to : {S : Type 0} → Shared S → Run → Phase → Moved S
moves_to s run phase = record {
  shared = s;
  next = some (record run { phase = phase });
  reply = none;
}

module _ {S : Type 0} (sem : Semaphore S) where
  abbrev pub permit_taken : Task → Origin → Option S → World S → World S
  permit_taken task origin none w = w
  permit_taken task origin (some held) w = record {
    shared = record w.shared { semaphore = held };
    runs = record { task = task; origin = origin; phase = permitted } ∷ w.runs;
  }

  abbrev pub permit_reply : Option S → Option TriggerReply
  permit_reply none = some no_permit
  permit_reply (some _) = none

  -- The dispatcher on an event, up to the permit.
  unfoldable pub dispatch : Lookup → TriggerEvent → World S → World S
  dispatch (found task) event w =
      permit_taken task (from_event event) (sem.try_acquire w.shared.semaphore) w
  dispatch _ event w = w

  -- `task.trigger_now` up to the permit, with its answer if it ends there.
  unfoldable pub trigger_now : Lookup → World S → World S × Option TriggerReply
  trigger_now (found task) w =
      let held = sem.try_acquire w.shared.semaphore in
      (permit_taken task by_hand held w, permit_reply held)
  trigger_now not_found w = (w, some task_missing)
  trigger_now lookup_failed w = (w, some task_unreadable)

  -- The slot is asked for with the permit in hand; a refusal goes on to drop the permit.
  unfoldable pub acquire_slot : Run → Shared S → Moved S
  acquire_slot run s =
      let policy = run.task.execution_policy.concurrency_policy in
      let (counts, acquired) = try_acquire_slot run.task.id policy s.counts in
      let after = record s { counts = counts } in
      if acquired then moves_to after run waiting else record {
        shared = after;
        next = some (record run { phase = leaving });
        reply = replies run.origin no_slot;
      }

  -- The execution: its trigger and the time it was due at are those of the event.
  abbrev pub execution_for : ExecutionId → DateTime → DateTime → Task → Origin → Execution
  execution_for id due now task (from_event e) =
      running_execution id now task e.trigger_id e.scheduled_at
  execution_for id due now task by_hand = running_execution id now task none due

  -- `create_run`; `due` is the clock's time that `task.trigger_now` takes for the time it was due at.
  unfoldable pub create : ExecutionId → DateTime → DateTime → Bool → Run → Shared S → Moved S
  create id due now created run s =
      if created
      then moves_to s run (recorded (execution_for id due now run.task run.origin))
      else record {
        shared = s;
        next = some (record run { phase = closing });
        reply = replies run.origin not_recorded;
      }

  -- A new execution enters `active_executions`, and its start is told. Where the answer of
  -- `task.trigger_now` cannot be written, its permit is dropped and nothing is spawned.
  abbrev pub registered : Execution → Shared S → Shared S
  registered exec s = record s {
    active_executions = Map.insert exec.id false s.active_executions;
    events = s.events ++ execution_started exec.id exec.task_id ∷ [];
  }

  abbrev pub unserialized : Origin → Bool → Bool
  unserialized by_hand false = true
  unserialized _ _ = false

  unfoldable pub register : Bool → Execution → Run → Shared S → Moved S
  register serialized exec run s =
      let after = registered exec s in
      if unserialized run.origin serialized
      then record {
        shared = record after { semaphore = sem.release after.semaphore };
        next = none;
        reply = some not_serialized;
      }
      else record {
        shared = after;
        next = some (record run { phase = working exec (first_progress run.task.actions) });
        reply = replies run.origin (started exec);
      }

  -- One action's result.
  unfoldable pub act : ActionResult → List Action → Execution → Progress → Run → Shared S → Moved S
  act result rest exec p run s =
      moves_to (record s { events = s.events ++ output_events exec result }) run
        (working exec (absorb result rest p))

  -- The end of the loop, up to the event that tells of it.
  unfoldable pub finish : DateTime → Execution → Progress → Run → Shared S → Moved S
  finish finished_at exec p run s =
      let event =
        execution_finished (finished_execution exec p finished_at) run.task.name
          run.task.execution_policy.notification in
      moves_to (record s { events = s.events ++ event ∷ [] }) run (finished exec)

  unfoldable pub unregister : Execution → Run → Shared S → Moved S
  unregister exec run s =
      moves_to (record s { active_executions = Map.remove exec.id s.active_executions }) run closing

  unfoldable pub give_back : Run → Shared S → Moved S
  give_back run s = moves_to (record s { counts = release_slot run.task.id s.counts }) run leaving

  -- The permit is dropped at the end of its scope.
  unfoldable pub leave : Run → Shared S → Moved S
  leave run s = record {
    shared = record s { semaphore = sem.release s.semaphore };
    next = none;
    reply = none;
  }

  abbrev pub cancel_token : ExecutionId → Option Bool → Shared S → Shared S × Bool
  cancel_token id none s = (s, false)
  cancel_token id (some _) s =
      (record s { active_executions = Map.insert id true s.active_executions }, true)

  -- `execution.cancel`, which says whether the execution was active.
  unfoldable pub cancel : ExecutionId → Shared S → Shared S × Bool
  cancel id s = cancel_token id (Map.get id s.active_executions) s
