-- ===== src/Agent/Handler.antt =====
-- apps/agent/src/service.rs: the requests of clients, `AgentRpcHandler::handle_request`. The methods
-- `task.trigger_now` and `execution.cancel` are modelled with the executions; here they are an argument.
-- A method answers with a value or the text of an error, and `answer` makes the response of it.
-- Requests overlap, so `task.save` and `task.delete` have two steps: the database, and the command to
-- the scheduler, which waits in `announcing` until then. What a method only reads it reads at one time.
pub mod Values
pub mod Requests
pub mod Failures
pub mod Words
pub mod Announcements
pub mod Overlap
mod Examples
use Prim.Native.String.{String}
use easy_job.Prelude.{
  ℕ, ◌%◌, ◌^◌, ◌&&◌, Bool, true, false, if◌then◌else◌, Option, none, some, List, [], ◌∷◌, ◌++◌,
  length, map,
}
use easy_job.Prelude.Map
use easy_job.Prelude.Map.{Map}
use easy_job.Prelude.Result.{Result, ok, err, ◌>>=◌}
use easy_job.Domain.Trigger.{TaskId, TriggerId, DateTime}
use easy_job.Domain.Policy.{SystemSettings}
use easy_job.Domain.Task.{Task}
use easy_job.Domain.Execution.{ExecutionId, Execution}
use easy_job.Common.Error.{Error, to_string, join}
use easy_job.Persistence.Interface.{TaskRepository, ExecutionRepository, SettingsRepository}
use easy_job.Scheduler.Queue.{ScheduleQueue, next_fire_by_trigger, next_fire, FireTimes}
use easy_job.Executor.Manager.{Counts, total_running_count}
use easy_job.Ipc.Protocol.{IpcRequest, IpcResponse, success, error}
pub use easy_job.Agent.Handler.Values.{
  AgentStatus, TriggerOverview, LastRunOverview, TaskOverviewEntry, Serde,
}

pub data SchedulerCommand : Type 0 where
  add_task : Task → SchedulerCommand
  remove_task : TaskId → SchedulerCommand
  reroll_trigger : TaskId → TriggerId → SchedulerCommand

-- What the handler shares with the rest of the agent. `announcing` are the commands of the requests
-- that have changed the database and have still to tell the scheduler. `sent` are the commands that went to the
-- scheduler, the last one first; `scheduler_open` says whether the scheduler still receives them.
pub record Server (D : Type 0) : Type 0 where
  pub database : D
  pub sched_queue : ScheduleQueue
  pub counts : Counts
  pub announcing : List SchedulerCommand
  pub sent : List SchedulerCommand
  pub scheduler_open : Bool
  pub shutdown_notified : Bool

abbrev pub unwrap_or : {A : Type 0} → A → Option A → A
unwrap_or a none = a
unwrap_or a (some b) = b

abbrev pub default_empty : {A : Type 0} → Result Error (List A) → List A
default_empty (ok xs) = xs
default_empty (err _) = []

abbrev pub texted : {A : Type 0} → Result Error A → Result String A
texted (ok a) = ok a
texted (err e) = err (to_string e)

abbrev pub labelled : {A : Type 0} → String → Result String A → Result String A
labelled label (ok a) = ok a
labelled label (err e) = err (join label e)

unfoldable pub answer : {Value : Type 0} → String → Result String Value → IpcResponse Value
answer id (ok value) = success id value
answer id (err msg) = error id msg

abbrev pub send : {D : Type 0} → SchedulerCommand → Server D → Server D
send command s = if s.scheduler_open then record s { sent = command ∷ s.sent } else s

abbrev pub announces : {D : Type 0} → SchedulerCommand → Server D → Server D
announces command s = record s { announcing = command ∷ s.announcing }

-- One of the requests that wait sends its command.
unfoldable pub announce :
    {D : Type 0}
    → List SchedulerCommand
    → SchedulerCommand
    → List SchedulerCommand
    → Server D
    → Server D
announce before command after s = send command (record s { announcing = before ++ after })

unfoldable pub trigger_overview : FireTimes → Task → List TriggerOverview
trigger_overview times task =
    map (λ t. record { trigger_id = t.id; next_fire_at = next_fire task.id t.id times })
      task.triggers

unfoldable pub last_run : Option Execution → Option LastRunOverview
last_run none = none
last_run (some run) = some (record {
  status = run.status;
  started_at = run.started_at;
  finished_at = run.finished_at;
  duration_ms = run.duration_ms;
  exit_code = run.exit_code;
  error_message = run.error_message;
})

unfoldable pub overview_of : FireTimes → Map Execution → List Task → List TaskOverviewEntry
overview_of times latest_runs tasks =
    map
      (λ task. record {
        task_id = task.id;
        triggers = trigger_overview times task;
        last_run = last_run (Map.get task.id latest_runs);
      })
      tasks

module _ {Value : Type 0} (serde : Serde Value) where
  -- The member of an object, or else the parameters themselves.
  unfoldable pub param : String → Value → Value
  param name params =
      if serde.is_object params then unwrap_or params (serde.get name params) else params

  abbrev pub output_param : Value → Value
  output_param params =
      if serde.is_object params
      then unwrap_or (unwrap_or params (serde.get "execution_id" params)) (serde.get "id" params)
      else params

  abbrev pub as_limit : Value → ℕ
  as_limit value = unwrap_or 50 (serde.as_u64 value) % 2 ^ 32

  abbrev pub number_limit : Value → ℕ
  number_limit params = if serde.is_number params then as_limit params else 50

  unfoldable pub limit_of : Value → ℕ
  limit_of params =
      if serde.is_object params
      then (elim (serde.get "limit" params) [
        | none ↦ number_limit params
        | some value ↦ as_limit value
      ])
      else number_limit params

  module _ {D : Type 0} (tasks : TaskRepository D) (runs : ExecutionRepository D)
      (settings : SettingsRepository D) where
    unfoldable pub agent_status : String → ℕ → Server D → Result String Value
    agent_status version uptime_secs s = serde.status_to (record {
      version = version;
      uptime_secs = uptime_secs;
      active_tasks = length (default_empty (tasks.find_all_enabled s.database));
      running_executions = total_running_count s.counts;
    })

    unfoldable pub settings_get : Server D → Result String Value
    settings_get s = texted (settings.get_system_settings s.database) >>= serde.settings_to

    abbrev pub settings_saved :
        SystemSettings → Result Error (Unit {0}) × D → Server D → Server D × Result String Value
    settings_saved new (ok _, d) s = (record s { database = d }, serde.settings_to new)
    settings_saved new (err e, d) s = (record s { database = d }, err (to_string e))

    abbrev pub settings_parsed :
        Result String SystemSettings → Server D → Server D × Result String Value
    settings_parsed (err msg) s = (s, err msg)
    settings_parsed (ok new) s = settings_saved new (settings.save_system_settings new s.database) s

    unfoldable pub settings_set : Value → Server D → Server D × Result String Value
    settings_set params s =
        settings_parsed
          (labelled "Invalid settings parameter: " (serde.settings_from (param "settings" params)))
          s

    unfoldable pub task_list : Server D → Result String Value
    task_list s = texted (tasks.find_all s.database) >>= serde.tasks_to

    abbrev pub task_found : TaskId → Option Task → Result String Value
    task_found id none = err (join "Task '" (join (serde.show id) "' not found"))
    task_found id (some task) = serde.task_to task

    unfoldable pub task_get : Value → Server D → Result String Value
    task_get params s = do
      id ← labelled "Invalid task id parameter: " (serde.id_from (param "id" params))
      found ← texted (tasks.find_by_id id s.database)
      task_found id found

    abbrev pub task_saved :
        Task → Result Error (Unit {0}) × D → Server D → Server D × Result String Value
    task_saved task (ok _, d) s =
        (announces (add_task task) (record s { database = d }), serde.task_to task)
    task_saved task (err e, d) s = (record s { database = d }, err (to_string e))

    abbrev pub task_parsed : Result String Task → Server D → Server D × Result String Value
    task_parsed (err msg) s = (s, err msg)
    task_parsed (ok task) s = task_saved task (tasks.save task s.database) s

    unfoldable pub task_save : Value → Server D → Server D × Result String Value
    task_save params s =
        task_parsed (labelled "Invalid task parameter: " (serde.task_from (param "task" params))) s

    abbrev pub task_deleted :
        TaskId → Result Error (Unit {0}) × D → Server D → Server D × Result String Value
    task_deleted id (ok _, d) s =
        (announces (remove_task id) (record s { database = d }), ok serde.yes)
    task_deleted id (err e, d) s = (record s { database = d }, err (to_string e))

    abbrev pub task_named : Result String TaskId → Server D → Server D × Result String Value
    task_named (err msg) s = (s, err msg)
    task_named (ok id) s = task_deleted id (tasks.delete id s.database) s

    unfoldable pub task_delete : Value → Server D → Server D × Result String Value
    task_delete params s =
        task_named (labelled "Invalid task id parameter: " (serde.id_from (param "id" params))) s

    unfoldable pub task_overview : Server D → Result String Value
    task_overview s = do
      found ← texted (tasks.find_all s.database)
      latest ← texted (runs.find_latest_run_per_task (map (λ t. t.id) found) s.database)
      serde.overview_to (overview_of (next_fire_by_trigger s.sched_queue) latest found)

    unfoldable pub execution_list : Value → Server D → Result String Value
    execution_list params s =
        texted (runs.find_recent_runs (limit_of params) s.database) >>= serde.runs_to

    abbrev pub run_found : ExecutionId → Option Execution → Result String Value
    run_found id none = err (join "Execution '" (join (serde.show id) "' not found"))
    run_found id (some run) = serde.run_to run

    unfoldable pub execution_get : Value → Server D → Result String Value
    execution_get params s = do
      id ← labelled "Invalid execution id parameter: " (serde.id_from (param "id" params))
      found ← texted (runs.find_run_by_id id s.database)
      run_found id found

    unfoldable pub execution_get_output : Value → Server D → Result String Value
    execution_get_output params s = do
      id ← labelled "Invalid execution id parameter: " (serde.id_from (output_param params))
      outputs ← texted (runs.get_outputs id s.database)
      serde.outputs_to outputs

    abbrev pub rerolled : Option (Result String (Option DateTime)) → Result String Value
    rerolled none = err "Scheduler dropped the reroll request"
    rerolled (some (err msg)) = err msg
    rerolled (some (ok next_fire_at)) = ok (serde.next_fire_to next_fire_at)

    abbrev pub reroll_parsed :
        Result String (TaskId × TriggerId)
        → Option (Result String (Option DateTime))
        → Server D
        → Server D × Result String Value
    reroll_parsed (err msg) reply s = (s, err msg)
    reroll_parsed (ok (task_id, trigger_id)) reply s =
        if s.scheduler_open
        then (send (reroll_trigger task_id trigger_id) s, rerolled reply)
        else (s, err "Scheduler is not running")

    unfoldable pub reroll_params : Value → Result String (TaskId × TriggerId)
    reroll_params params = do
      task_id ←
          labelled "Invalid task_id parameter: "
            (serde.id_from (unwrap_or serde.null (serde.get "task_id" params)))
      trigger_id ←
          labelled "Invalid trigger_id parameter: "
            (serde.id_from (unwrap_or serde.null (serde.get "trigger_id" params)))
      ok (task_id, trigger_id)

    -- `reply` is what comes over the channel of the command, if anything does.
    unfoldable pub trigger_reroll :
        Value → Option (Result String (Option DateTime)) → Server D → Server D × Result String Value
    trigger_reroll params reply s = reroll_parsed (reroll_params params) reply s
