-- ===== src/Persistence/Interface.antt =====
-- The traits of crates/persistence: what the agent asks of the repositories. `D` is the state of the
-- database. A repository's failure is an error and a state.
use easy_job.Prelude.{◌≡◌, ◌≢◌, ℕ, Bool, Option, none, some, List}
use easy_job.Prelude.Map.{Map}
use easy_job.Prelude.Result.{Result, ok, err, Holds}
use easy_job.Domain.Trigger.{TaskId, DateTime, Trigger}
use easy_job.Domain.Policy.{SystemSettings}
use easy_job.Domain.Task.{Task}
use easy_job.Domain.Execution.{ExecutionId, Execution}
use easy_job.Common.Error.{Error}
use easy_job.Persistence.Runs.{ExecutionOutputRecord}

pub record TaskRepository (D : Type 0) : Type 0 where
  pub find_all : D → Result Error (List Task)
  pub find_all_enabled : D → Result Error (List Task)
  pub find_by_id : TaskId → D → Result Error (Option Task)
  pub save : Task → D → Result Error (Unit {0}) × D
  pub delete : TaskId → D → Result Error (Unit {0}) × D

-- What the agent asks of it; runs are created and updated by the executions.
pub record ExecutionRepository (D : Type 0) : Type 0 where
  pub find_run_by_id : ExecutionId → D → Result Error (Option Execution)
  pub find_recent_runs : ℕ → D → Result Error (List Execution)
  pub get_outputs : ExecutionId → D → Result Error (List ExecutionOutputRecord)
  pub purge_expired_runs : TaskId → DateTime → D → Result Error ℕ × D
  pub find_latest_run_per_task : List TaskId → D → Result Error (Map Execution)

pub record SettingsRepository (D : Type 0) : Type 0 where
  pub get_system_settings : D → Result Error SystemSettings
  pub save_system_settings : SystemSettings → D → Result Error (Unit {0}) × D

-- What the scheduler needs to know of a task.
abbrev pub plan : Task → Bool × List Trigger
plan task = (task.enabled, task.triggers)

abbrev pub plan_of : Option Task → Option (Bool × List Trigger)
plan_of none = none
plan_of (some task) = some (plan task)

abbrev pub planned : Result Error (Option Task) → Result Error (Option (Bool × List Trigger))
planned (ok found) = ok (plan_of found)
planned (err e) = err e

-- Tasks are kept under their ids, and what fails changes nothing.
pub record IsTaskStore {D : Type 0} (tasks : TaskRepository D) : Type 0 where
  pub save_found :
      (task : Task) (d d' : D)
      → tasks.save task d ≡ (ok tt, d')
      → Holds (λ o. some (plan task) ≡ o) (planned (tasks.find_by_id task.id d'))
  pub save_other :
      (task : Task) (id : TaskId) (d : D)
      → id ≢ task.id
      → tasks.find_by_id id (tasks.save task d).1 ≡ tasks.find_by_id id d
  pub save_failed : (task : Task) (d d' : D) (e : Error) → tasks.save task d ≡ (err e, d') → d' ≡ d
  pub delete_gone :
      (id : TaskId) (d d' : D)
      → tasks.delete id d ≡ (ok tt, d')
      → planned (tasks.find_by_id id d') ≡ ok none
  pub delete_other :
      (id j : TaskId) (d : D)
      → j ≢ id
      → tasks.find_by_id j (tasks.delete id d).1 ≡ tasks.find_by_id j d
  pub delete_failed :
      (id : TaskId) (d d' : D) (e : Error) → tasks.delete id d ≡ (err e, d') → d' ≡ d

pub record IsSettingsStore {D : Type 0} (settings : SettingsRepository D) : Type 0 where
  pub save_failed :
      (new : SystemSettings) (d d' : D) (e : Error)
      → settings.save_system_settings new d ≡ (err e, d')
      → d' ≡ d

-- The settings are kept apart from the tasks.
pub record IsApart {D : Type 0} (tasks : TaskRepository D) (settings : SettingsRepository D)
    : Type 0 where
  pub same_tasks :
      (new : SystemSettings) (id : TaskId) (d : D)
      → tasks.find_by_id id (settings.save_system_settings new d).1 ≡ tasks.find_by_id id d
