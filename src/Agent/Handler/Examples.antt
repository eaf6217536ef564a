-- ===== src/Agent/Handler/Examples.antt =====
-- Tests of the requests, and the theorems at concrete requests over the SQLite repositories.
use Prim.Native.String.{String}
use text.Mathlib.Text.{◌==◌}
use easy_job.Prelude.{
  ℕ, ◌≡◌, refl, Bool, true, false, if◌then◌else◌, Option, none, some, [], ◌∷◌, arith,
}
use easy_job.Prelude.Result.{Result, ok, err}
use easy_job.Domain.Task.{Task}
use easy_job.Domain.Policy.{SystemSettings}
use easy_job.Persistence.Tables.{Database, empty_database, insert_row, delete_rows, select_rows}
use easy_job.Persistence.Sample.{Text, codec, codec-IsFaithful, build, backup}
use easy_job.Persistence.Sqlite.{
  task_repository, execution_repository, settings_repository, task_repository-IsTaskStore,
  settings_repository-IsSettingsStore, repositories-IsApart,
}
use easy_job.Scheduler.Queue.{new}
use easy_job.Ipc.Protocol.{IpcRequest, IpcResponse, error}
use easy_job.Agent.Handler.{Serde, Server, param, answer, announce, task_save, add_task}
use easy_job.Persistence.Tasks.{
  find_by_id, save, transact, insert_each, action_row, trigger_row, upsert_task, task_row,
  read_task, order_by, insert_ordered, update_row, next_version,
}
use easy_job.Agent.Handler.Requests.{Outside, handle_method, handle_request}
use easy_job.Agent.Handler.Failures.{Serializes, handle_request-failed}
use easy_job.Agent.Handler.Words.{told, IsSingle}
use easy_job.Agent.Handler.Announcements.{IsTold}
use easy_job.Agent.Handler.Overlap.{Steps, done, then_, requested, announced, Steps-IsTold}
use easy_job.Persistence.Interface.{planned}

-- An object has one member.
data Value : Type 0 where
  null yes : Value
  number : ℕ → Value
  task : Task → Value
  settings : SystemSettings → Value
  object : String → Value → Value

abbrev is_object : Value → Bool
is_object (object _ _) = true
is_object _ = false

abbrev is_number : Value → Bool
is_number (number _) = true
is_number _ = false

abbrev member : String → Value → Option Value
member name (object key value) = if name == key then some value else none
member name _ = none

abbrev as_u64 : Value → Option ℕ
as_u64 (number n) = some n
as_u64 _ = none

abbrev id_from : Value → Result String ℕ
id_from (number n) = ok n
id_from _ = err "not an id"

abbrev task_from : Value → Result String Task
task_from (task t) = ok t
task_from _ = err "not a task"

abbrev settings_from : Value → Result String SystemSettings
settings_from (settings s) = ok s
settings_from _ = err "not the settings"

abbrev next_fire_to : Option ℕ → Value
next_fire_to none = null
next_fire_to (some at) = number at

abbrev serde : Serde Value
serde = record {
  is_object = is_object;
  is_number = is_number;
  get = member;
  as_u64 = as_u64;
  null = null;
  yes = yes;
  id_from = id_from;
  task_from = task_from;
  settings_from = settings_from;
  status_to = λ s. ok (number s.active_tasks);
  settings_to = λ s. ok (settings s);
  tasks_to = λ ts. ok null;
  task_to = λ t. ok (task t);
  overview_to = λ os. ok null;
  runs_to = λ rs. ok null;
  run_to = λ r. ok (number r.id);
  outputs_to = λ os. ok null;
  next_fire_to = next_fire_to;
  show = λ n. "id";
}

serde-Serializes : Serializes serde
serde-Serializes = record { settings = λ s. (settings s, refl); task = λ t. (task t, refl) }

abbrev server : Server (Database Text)
server = record {
  database = empty_database;
  sched_queue = new;
  counts = [];
  announcing = [];
  sent = [];
  scheduler_open = true;
  shutdown_notified = false;
}

abbrev outside : Outside
outside = record { version = "1"; uptime_secs = 5; reply = none }

abbrev unsupported :
    String → Value → Server (Database Text) → Server (Database Text) × Result String Value
unsupported method params s = (s, err "not here")

abbrev save_build : IpcRequest Value
save_build = record { id = "1"; method = "task.save"; params = object "task" (task build) }

abbrev save_nothing : IpcRequest Value
save_nothing = record { id = "2"; method = "task.save"; params = object "task" null }

abbrev delete_build : IpcRequest Value
delete_build = record { id = "3"; method = "task.delete"; params = number 1 }

abbrev handle :
    IpcRequest Value → Server (Database Text) → Server (Database Text) × IpcResponse Value
handle req s =
    handle_request serde (task_repository codec) (execution_repository codec)
      (settings_repository codec) unsupported outside req s

handle_request-failed_example : (handle save_nothing server).0.database ≡ empty_database
unfolding handle_request handle_method task_save param answer error
handle_request-failed_example =
    handle_request-failed serde (task_repository codec) (execution_repository codec)
      (settings_repository codec) serde-Serializes
      (task_repository-IsTaskStore codec codec-IsFaithful)
      (settings_repository-IsSettingsStore codec) unsupported (λ method params s. refl) outside
      save_nothing server refl

server-IsTold : IsTold (task_repository codec) server
unfolding find_by_id
server-IsTold = record { receives = refl; words = λ id. refl }

abbrev save_backup : IpcRequest Value
save_backup = record { id = "4"; method = "task.save"; params = object "task" (task backup) }

abbrev saved_one : Server (Database Text)
saved_one = (handle save_build server).0

abbrev saved_two : Server (Database Text)
saved_two = (handle save_backup saved_one).0

-- Two saves overlap, and the first one tells the scheduler last.
abbrev told_one : Server (Database Text)
told_one = announce [] (add_task backup) (add_task build ∷ []) saved_two

abbrev told_two : Server (Database Text)
told_two = announce [] (add_task build) [] told_one

overlapping :
    Steps serde
      (task_repository codec)
      (execution_repository codec)
      (settings_repository codec)
      (task_repository-IsTaskStore codec codec-IsFaithful)
      unsupported
      server
      told_two
unfolding handle_request handle_method task_save param save transact insert_each insert_row
    delete_rows action_row trigger_row upsert_task task_row announce
overlapping =
    then_
      (then_
        (then_ (then_ done (requested outside save_build server (tt, tt)))
          (requested outside save_backup saved_one (((λ id e. ground arith), tt), (tt, tt))))
        (announced [] (add_task backup) (add_task build ∷ []) saved_two refl))
      (announced [] (add_task build) [] told_one refl)

Steps-IsTold_example : IsTold (task_repository codec) told_two × IsSingle told_two.announcing
Steps-IsTold_example =
    Steps-IsTold serde (task_repository codec) (execution_repository codec)
      (settings_repository codec) (task_repository-IsTaskStore codec codec-IsFaithful) unsupported
      (repositories-IsApart codec) (λ method params s h. h) server told_two overlapping
      (server-IsTold, tt)

-- Two saves of one task: where they overlap the scheduler may keep what the database has no more.
abbrev disable_build : IpcRequest Value
disable_build = record save_build {
  params = object "task" (task (record build { enabled = false }));
}

abbrev changed_twice : Server (Database Text)
changed_twice = announce [] (add_task build) [] (
    announce [] (add_task (record build { enabled = false })) (add_task build ∷ [])
      (handle disable_build (handle save_build server).0).0)

overlapping_saves_disagree :
    (told 1 changed_twice.sent ≡ some (true, build.triggers))
    × (planned (find_by_id codec 1 changed_twice.database) ≡ ok (some (false, build.triggers)))
unfolding handle_request handle_method task_save param save transact insert_each insert_row
    delete_rows action_row trigger_row upsert_task task_row announce find_by_id read_task
    select_rows order_by insert_ordered update_row next_version
overlapping_saves_disagree = (refl, refl)

saving_announces : (handle save_build server).0.announcing ≡ add_task build ∷ []
unfolding handle_request handle_method task_save param save transact insert_each insert_row
    delete_rows action_row trigger_row upsert_task task_row
saving_announces = refl

unknown_method :
    (handle (record { id = "4"; method = "task.run"; params = null }) server).1
    ≡ error "4" "Method 'task.run' not found"
unfolding handle_request handle_method answer
unknown_method = refl
