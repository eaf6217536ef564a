-- ===== src/Persistence/Tasks.antt =====
-- crates/persistence/src/task_repo.rs: the repository of tasks. A statement fails where a
-- constraint of the tables forbids it; failures of the connection are not modelled.
pub mod Saving
pub mod Commit
pub mod RoundTrip
pub mod Frame
pub mod Success
pub mod Refinement
pub mod Listing
use Prim.Native.String.{String}
use easy_job.Prelude.{
  ℕ, zero, suc, ◌-◌, ◌^◌, ◌==◌, leb, Bool, true, false, if◌then◌else◌, Option, none, some, List, [],
  ◌∷◌, find, keep_if, map, not,
}
use easy_job.Prelude.Int.{ℤ, pos, negsuc}
use easy_job.Prelude.Result.{Result, ok, err, ◌>>=◌, traverse}
use easy_job.Domain.Trigger.{TaskId, Trigger, kind_name}
use easy_job.Domain.Policy.{ExecutionPolicy}
use easy_job.Domain.Task.{Action, Task}
use easy_job.Common.Error.{Error, serialization, other}
use easy_job.Persistence.Codec.{Codec}
use easy_job.Persistence.Tables.{
  Version, integer, real, TaskRow, TriggerRow, ActionRow, RunRow, OutputRow, Database, insert_row,
  delete_rows, select_rows, has_key,
}

-- `From<serde_json::Error>`, which the `?` operator applies.
abbrev pub parsed : {A : Type 0} → Result String A → Result Error A
parsed (ok a) = ok a
parsed (err e) = err (serialization e)

-- ORDER BY with a test of the order; rows that are equal in it keep the order of the table.
module _ {A : Type 0} (before : A → A → Bool) where
  unfoldable pub insert_ordered : A → List A → List A
  insert_ordered x [] = x ∷ []
  insert_ordered x (y ∷ ys) = if before x y then x ∷ y ∷ ys else y ∷ insert_ordered x ys

  unfoldable pub order_by : List A → List A
  order_by [] = []
  order_by (x ∷ xs) = insert_ordered x (order_by xs)

-- A `for` loop with an INSERT.
unfoldable pub insert_each :
    {A B : Type 0} → (B → ℕ) → (A → B) → List A → List B → Result Error (List B)
insert_each key row [] rows = ok rows
insert_each key row (x ∷ xs) rows =
    insert_row key (row x) rows >>= λ rows'. insert_each key row xs rows'

abbrev pub row_of : {Json : Type 0} → TaskId → List (TaskRow Json) → Option (TaskRow Json)
row_of id rows = find (λ r. r.id == id) rows

abbrev pub task_of :
    {Json : Type 0}
    → TaskRow Json
    → TaskId
    → List Trigger
    → List Action
    → ExecutionPolicy
    → List (String × String)
    → ℤ
    → Task
task_of row id triggers actions execution_policy environment version = record {
  id = id;
  name = row.name;
  description = row.description;
  enabled = row.enabled;
  triggers = triggers;
  actions = actions;
  execution_policy = execution_policy;
  working_directory = row.working_directory;
  environment = environment;
  version = version;
  created_at = row.created_at;
  updated_at = row.updated_at;
}

abbrev plus_one : ℤ → ℤ
plus_one (pos n) = pos (suc n)
plus_one (negsuc zero) = pos 0
plus_one (negsuc (suc n)) = negsuc n

abbrev is_greatest : ℤ → Bool
is_greatest (pos n) = leb (2 ^ 63 - 1) n
is_greatest (negsuc n) = false

-- `tasks.version + 1`
unfoldable pub next_version : Version → Version
next_version (integer v) = if is_greatest v then real else integer (plus_one v)
next_version real = real

-- `row.get` panics on a number that is no integer, which ends the request; here the read fails with
-- an error that no other read has.
abbrev pub panicked : Error
panicked = other "panicked at row.get"

abbrev pub read_version : Version → Result Error ℤ
read_version (integer v) = ok v
read_version real = err panicked

module _ {Json : Type 0} (c : Codec Json) where
  unfoldable pub task_row : Task → TaskRow Json
  task_row task = record {
    id = task.id;
    name = task.name;
    description = task.description;
    enabled = task.enabled;
    execution_policy_json = c.write_policy task.execution_policy;
    working_directory = task.working_directory;
    environment_json = c.write_environment task.environment;
    version = integer task.version;
    created_at = task.created_at;
    updated_at = task.updated_at;
  }

  -- ON CONFLICT(id) DO UPDATE SET
  unfoldable pub update_row : TaskRow Json → TaskRow Json → TaskRow Json
  update_row excluded row = record excluded {
    id = row.id;
    version = next_version row.version;
    created_at = row.created_at;
  }

  unfoldable pub upsert_task : TaskRow Json → List (TaskRow Json) → List (TaskRow Json)
  upsert_task excluded [] = excluded ∷ []
  upsert_task excluded (row ∷ rows) =
      if row.id == excluded.id
      then update_row excluded row ∷ rows
      else row ∷ upsert_task excluded rows

  unfoldable pub trigger_row : TaskId → Trigger → TriggerRow Json
  trigger_row task_id trigger = record {
    id = trigger.id;
    task_id = task_id;
    kind = kind_name trigger.kind;
    config_json = c.write_trigger trigger;
    enabled = trigger.enabled;
    created_at = trigger.created_at;
    updated_at = trigger.updated_at;
  }

  unfoldable pub action_row : TaskId → Action → ActionRow Json
  action_row task_id action = record {
    id = action.id;
    task_id = task_id;
    sequence = action.sequence;
    kind = c.debug_kind action.kind;
    config_json = c.write_action action;
    enabled = action.enabled;
  }

  abbrev pub insert_triggers :
      TaskId → List Trigger → List (TriggerRow Json) → Result Error (List (TriggerRow Json))
  insert_triggers id triggers rows = insert_each (λ r. r.id) (trigger_row id) triggers rows

  abbrev pub insert_actions :
      TaskId → List Action → List (ActionRow Json) → Result Error (List (ActionRow Json))
  insert_actions id actions rows = insert_each (λ r. r.id) (action_row id) actions rows

  -- The statements of the transaction of `save`.
  unfoldable pub transact : Task → Database Json → Result Error (Database Json)
  transact task db = do
    let tasks = upsert_task (task_row task) db.tasks
    triggers ←
        insert_triggers task.id task.triggers (delete_rows (λ r. r.task_id) task.id db.triggers)
    actions ← insert_actions task.id task.actions (delete_rows (λ r. r.task_id) task.id db.actions)
    ok (record db { tasks = tasks; triggers = triggers; actions = actions })

  -- A transaction that is not committed is rolled back.
  abbrev pub commit :
      Result Error (Database Json) → Database Json → Result Error (Unit {0}) × Database Json
  commit (ok db') db = (ok tt, db')
  commit (err e) db = (err e, db)

  unfoldable pub save : Task → Database Json → Result Error (Unit {0}) × Database Json
  save task db = commit (transact task db) db

  -- `find_by_id` behind its first query.
  unfoldable pub read_task : TaskRow Json → TaskId → Database Json → Result Error Task
  read_task row id db = do
    triggers ←
        traverse (λ r. parsed (c.read_trigger r.config_json))
          (select_rows (λ r. r.task_id) id db.triggers)
    actions ←
        traverse (λ r. parsed (c.read_action r.config_json))
          (order_by (λ r s. leb r.sequence s.sequence) (select_rows (λ r. r.task_id) id db.actions))
    execution_policy ← parsed (c.read_policy row.execution_policy_json)
    environment ← parsed (c.read_environment row.environment_json)
    version ← read_version row.version
    ok (task_of row id triggers actions execution_policy environment version)

  abbrev pub read_found :
      Option (TaskRow Json) → TaskId → Database Json → Result Error (Option Task)
  read_found none id db = ok none
  read_found (some row) id db = read_task row id db >>= λ task. ok (some task)

  unfoldable pub find_by_id : TaskId → Database Json → Result Error (Option Task)
  find_by_id id db = read_found (row_of id db.tasks) id db

  -- The loops of `find_all` and `find_all_enabled`.
  unfoldable pub find_rows : List (TaskRow Json) → Database Json → Result Error (List Task)
  find_rows [] db = ok []
  find_rows (row ∷ rows) db = do
    found ← find_by_id row.id db
    tasks ← find_rows rows db
    ok (elim found [ none ↦ tasks | some task ↦ task ∷ tasks ])

  unfoldable pub find_all : Database Json → Result Error (List Task)
  find_all db = find_rows (order_by (λ r s. leb s.created_at r.created_at) db.tasks) db

  unfoldable pub find_all_enabled : Database Json → Result Error (List Task)
  find_all_enabled db = find_rows (keep_if (λ r. r.enabled) db.tasks) db

-- ON DELETE CASCADE of `run_outputs`: the outputs of runs that are gone go.
unfoldable pub cascade_runs : {Json : Type 0} → List RunRow → Database Json → Database Json
cascade_runs runs db = record db {
  task_runs = runs;
  run_outputs = keep_if (λ o. has_key (λ r. r.id) o.run_id runs) db.run_outputs;
}

unfoldable pub delete : {Json : Type 0} → TaskId → Database Json → Database Json
delete id db = cascade_runs (delete_rows (λ r. r.task_id) id db.task_runs) (record db {
  tasks = delete_rows (λ r. r.id) id db.tasks;
  triggers = delete_rows (λ r. r.task_id) id db.triggers;
  actions = delete_rows (λ r. r.task_id) id db.actions;
})
