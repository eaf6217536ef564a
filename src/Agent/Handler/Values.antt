-- ===== src/Agent/Handler/Values.antt =====
-- What the agent's RPC handler uses of serde_json, and the texts of ids. The conversions are those of
-- the derived code, each with the text of its error.
use Prim.Native.String.{String}
use easy_job.Prelude.{ℕ, Bool, Option, List}
use easy_job.Prelude.Result.{Result}
use easy_job.Domain.Trigger.{TaskId, TriggerId, DateTime}
use easy_job.Domain.Policy.{SystemSettings}
use easy_job.Domain.Task.{Task}
use easy_job.Domain.Execution.{ExecutionStatus, Execution}
use easy_job.Persistence.Runs.{ExecutionOutputRecord}

pub record AgentStatus : Type 0 where
  pub version : String
  pub uptime_secs : ℕ
  pub active_tasks : ℕ
  pub running_executions : ℕ

pub record TriggerOverview : Type 0 where
  pub trigger_id : TriggerId
  pub next_fire_at : Option DateTime

pub record LastRunOverview : Type 0 where
  pub status : ExecutionStatus
  pub started_at : DateTime
  pub finished_at : Option DateTime
  pub duration_ms : Option ℕ
  pub exit_code : Option ℕ
  pub error_message : Option String

pub record TaskOverviewEntry : Type 0 where
  pub task_id : TaskId
  pub triggers : List TriggerOverview
  pub last_run : Option LastRunOverview

pub record Serde (Value : Type 0) : Type 0 where
  pub is_object : Value → Bool
  pub is_number : Value → Bool
  pub get : String → Value → Option Value
  pub as_u64 : Value → Option ℕ
  pub null : Value
  pub yes : Value
  pub id_from : Value → Result String ℕ
  pub task_from : Value → Result String Task
  pub settings_from : Value → Result String SystemSettings
  pub status_to : AgentStatus → Result String Value
  pub settings_to : SystemSettings → Result String Value
  pub tasks_to : List Task → Result String Value
  pub task_to : Task → Result String Value
  pub overview_to : List TaskOverviewEntry → Result String Value
  pub runs_to : List Execution → Result String Value
  pub run_to : Execution → Result String Value
  pub outputs_to : List ExecutionOutputRecord → Result String Value
  pub next_fire_to : Option DateTime → Value
  pub show : ℕ → String
