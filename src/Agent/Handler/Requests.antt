-- ===== src/Agent/Handler/Requests.antt =====
-- apps/agent/src/service.rs: `AgentRpcHandler::handle_request` as a whole.
use Prim.Native.String.{String}
use text.Mathlib.Text.{◌==◌}
use easy_job.Prelude.{ℕ, true, Option, if◌then◌else◌}
use easy_job.Prelude.Result.{Result, ok, err}
use easy_job.Domain.Trigger.{DateTime}
use easy_job.Common.Error.{join}
use easy_job.Persistence.Interface.{TaskRepository, ExecutionRepository, SettingsRepository}
use easy_job.Ipc.Protocol.{IpcRequest, IpcResponse}
use easy_job.Agent.Handler.{
  Serde, Server, answer, agent_status, settings_get, settings_set, task_list, task_get, task_save,
  task_delete, task_overview, execution_list, execution_get, execution_get_output, trigger_reroll,
}

-- What the agent and the scheduler answer from outside: the version, the seconds since the start and
-- the reply to a reroll.
pub record Outside : Type 0 where
  pub version : String
  pub uptime_secs : ℕ
  pub reply : Option (Result String (Option DateTime))

module _ {Value : Type 0} (serde : Serde Value) {D : Type 0} (tasks : TaskRepository D)
    (runs : ExecutionRepository D) (settings : SettingsRepository D)
    (executions : String → Value → Server D → Server D × Result String Value) where
  abbrev pub reading : Server D → Result String Value → Server D × Result String Value
  reading s r = (s, r)

  -- The `match` on the method; `executions` are `task.trigger_now` and `execution.cancel`.
  unfoldable pub handle_method :
      Outside → String → Value → Server D → Server D × Result String Value
  handle_method out method params s =
      if method == "agent.status"
      then reading s (agent_status serde tasks runs settings out.version out.uptime_secs s)
      else if method == "agent.shutdown"
      then (record s { shutdown_notified = true }, ok serde.yes)
      else if method == "settings.get"
      then reading s (settings_get serde tasks runs settings s)
      else if method == "settings.set"
      then settings_set serde tasks runs settings params s
      else if method == "task.list"
      then reading s (task_list serde tasks runs settings s)
      else if method == "task.get"
      then reading s (task_get serde tasks runs settings params s)
      else if method == "task.save"
      then task_save serde tasks runs settings params s
      else if method == "task.delete"
      then task_delete serde tasks runs settings params s
      else if method == "task.trigger_now"
      then executions method params s
      else if method == "task.overview"
      then reading s (task_overview serde tasks runs settings s)
      else if method == "execution.list"
      then reading s (execution_list serde tasks runs settings params s)
      else if method == "execution.get"
      then reading s (execution_get serde tasks runs settings params s)
      else if method == "execution.get_output"
      then reading s (execution_get_output serde tasks runs settings params s)
      else if method == "execution.cancel"
      then executions method params s
      else if method == "trigger.reroll"
      then trigger_reroll serde tasks runs settings params out.reply s
      else (s, err (join "Method '" (join method "' not found")))

  -- A request up to its answer, and for a change of the tasks up to the command that waits then.
  unfoldable pub handle_request :
      Outside → IpcRequest Value → Server D → Server D × IpcResponse Value
  handle_request out req s =
      let (s', result) = handle_method out req.method req.params s in (s', answer req.id result)
