-- ===== src/Persistence/Tables.antt =====
-- migrations/: the tables of the database, and the statements that the repositories share. A table
-- is the list of its rows in the order of their insertion, in which SQLite yields the rows of a task
-- where a query names no order. A column of ids or times holds the id or the time: the texts of
-- UUIDs and of RFC 3339 (for years of four digits) are in the same order. The texts of statuses
-- and kinds that the code writes are kept as the values.
use Prim.Native.String.{String}
use easy_job.Prelude.{
  ℕ, ◌==◌, Bool, if◌then◌else◌, Option, none, List, [], ◌∷◌, ◌++◌, any, keep_if, not,
}
use easy_job.Prelude.Int.{ℤ}
use easy_job.Prelude.Result.{Result, ok, err}
use easy_job.Domain.Trigger.{TaskId, TriggerId, DateTime}
use easy_job.Domain.Task.{ActionId}
use easy_job.Domain.Execution.{ExecutionId, ExecutionStatus}
use easy_job.Common.Error.{Error, database}

-- A value of the column `version`: SQLite makes a floating-point number of a sum beyond `i64`.
pub data Version : Type 0 where
  integer : ℤ → Version
  real : Version

pub record TaskRow (Json : Type 0) : Type 0 where
  pub id : TaskId
  pub name : String
  pub description : Option String
  pub enabled : Bool
  pub execution_policy_json : Json
  pub working_directory : Option String
  pub environment_json : Json
  pub version : Version
  pub created_at : DateTime
  pub updated_at : DateTime

pub record TriggerRow (Json : Type 0) : Type 0 where
  pub id : TriggerId
  pub task_id : TaskId
  pub kind : String
  pub config_json : Json
  pub enabled : Bool
  pub created_at : DateTime
  pub updated_at : DateTime

pub record ActionRow (Json : Type 0) : Type 0 where
  pub id : ActionId
  pub task_id : TaskId
  pub sequence : ℕ
  pub kind : String
  pub config_json : Json
  pub enabled : Bool

-- `duration_ms` is an SQL integer, which is an `i64`.
pub record RunRow : Type 0 where
  pub id : ExecutionId
  pub task_id : TaskId
  pub trigger_id : Option TriggerId
  pub status : ExecutionStatus
  pub scheduled_at : Option DateTime
  pub started_at : DateTime
  pub finished_at : Option DateTime
  pub duration_ms : Option ℤ
  pub exit_code : Option ℕ
  pub error_message : Option String

pub record OutputRow : Type 0 where
  pub id : ℕ
  pub run_id : ExecutionId
  pub stream : String
  pub content : String
  pub created_at : DateTime

-- `next_output` is the next value of AUTOINCREMENT; of `settings` only the row of the key
-- 'system_settings' is ever used.
pub record Database (Json : Type 0) : Type 0 where
  pub tasks : List (TaskRow Json)
  pub triggers : List (TriggerRow Json)
  pub actions : List (ActionRow Json)
  pub task_runs : List RunRow
  pub run_outputs : List OutputRow
  pub next_output : ℕ
  pub settings : Option Json

abbrev pub empty_database : {Json : Type 0} → Database Json
empty_database = record {
  tasks = [];
  triggers = [];
  actions = [];
  task_runs = [];
  run_outputs = [];
  next_output = 1;
  settings = none;
}

abbrev pub unique_failed : Error
unique_failed = database "UNIQUE constraint failed"

abbrev pub foreign_key_failed : Error
foreign_key_failed = database "FOREIGN KEY constraint failed"

module _ {A : Type 0} (key : A → ℕ) where
  abbrev pub has_key : ℕ → List A → Bool
  has_key k rows = any (λ a. key a == k) rows

  -- INSERT into a table with this primary key.
  unfoldable pub insert_row : A → List A → Result Error (List A)
  insert_row a rows = if has_key (key a) rows then err unique_failed else ok (rows ++ a ∷ [])

  -- DELETE of the rows with this key.
  unfoldable pub delete_rows : ℕ → List A → List A
  delete_rows k rows = keep_if (λ a. not (key a == k)) rows

  -- SELECT of the rows with this key.
  unfoldable pub select_rows : ℕ → List A → List A
  select_rows k rows = keep_if (λ a. key a == k) rows
