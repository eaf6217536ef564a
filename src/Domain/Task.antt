-- ===== src/Domain/Task.antt =====
-- crates/domain/src/task.rs and action.rs.
use Prim.Native.String.{String}
use easy_job.Prelude.Int.{ℤ}
use easy_job.Prelude.{ℕ, Option, Bool, List}
use easy_job.Domain.Trigger.{TaskId, DateTime, Trigger}
use easy_job.Domain.Policy.{ExecutionPolicy}

abbrev pub ActionId : Type 0
ActionId = ℕ

pub data ScriptEncoding : Type 0 where
  utf8 gbk : ScriptEncoding

pub data ActionKind : Type 0 where
  execute_program : String → List String → ActionKind
  execute_shell : String → ActionKind
  execute_power_shell : String → Bool → Option ScriptEncoding → ActionKind
  execute_cmd : String → Option ScriptEncoding → ActionKind

pub record Action : Type 0 where
  pub id : ActionId
  pub task_id : TaskId
  pub sequence : ℕ
  pub enabled : Bool
  pub kind : ActionKind

-- `version` is an `i64`.
pub record Task : Type 0 where
  pub id : TaskId
  pub name : String
  pub description : Option String
  pub enabled : Bool
  pub triggers : List Trigger
  pub actions : List Action
  pub execution_policy : ExecutionPolicy
  pub working_directory : Option String
  pub environment : List (String × String)
  pub version : ℤ
  pub created_at : DateTime
  pub updated_at : DateTime
