-- ===== src/Persistence/Sample.antt =====
-- A codec and two tasks for the tests. A text of JSON is the value that was written.
use Prim.Native.String.{String}
use easy_job.Prelude.Int.{pos}
use easy_job.Prelude.{ℕ, ◌+◌, refl, true, none, List, [], ◌∷◌}
use easy_job.Prelude.Result.{Result, ok, err}
use easy_job.Domain.Trigger.{Trigger, agent_started}
use easy_job.Domain.Policy.{
  ExecutionPolicy, SystemSettings, allow_parallel, run_once, silent, system_default,
}
use easy_job.Domain.Task.{Action, Task, execute_shell}
use easy_job.Persistence.Codec.{Codec, IsFaithful}

pub data Text : Type 0 where
  trigger : Trigger → Text
  action : Action → Text
  policy : ExecutionPolicy → Text
  environment : List (String × String) → Text
  settings : SystemSettings → Text

abbrev pub read_trigger : Text → Result String Trigger
read_trigger (trigger t) = ok t
read_trigger _ = err "not a trigger"

abbrev pub read_action : Text → Result String Action
read_action (action a) = ok a
read_action _ = err "not an action"

abbrev pub read_policy : Text → Result String ExecutionPolicy
read_policy (policy p) = ok p
read_policy _ = err "not a policy"

abbrev pub read_environment : Text → Result String (List (String × String))
read_environment (environment e) = ok e
read_environment _ = err "not an environment"

abbrev pub read_settings : Text → Result String SystemSettings
read_settings (settings s) = ok s
read_settings _ = err "not the settings"

abbrev pub codec : Codec Text
codec = record {
  write_trigger = trigger;
  read_trigger = read_trigger;
  write_action = action;
  read_action = read_action;
  write_policy = policy;
  read_policy = read_policy;
  write_environment = environment;
  read_environment = read_environment;
  write_settings = settings;
  read_settings = read_settings;
  debug_kind = λ kind. "kind";
}

pub codec-IsFaithful : IsFaithful codec
codec-IsFaithful = record {
  trigger = λ t. refl;
  action = λ a. refl;
  policy = λ p. refl;
  environment = λ e. refl;
  settings = λ s. refl;
}

abbrev pub no_retry : ExecutionPolicy
no_retry = record {
  concurrency_policy = allow_parallel;
  missed_run_policy = run_once;
  retry_policy = record { max_retries = 0; delay_secs = 0 };
  timeout_secs = none;
  notification = silent;
  log_retention = system_default;
}

abbrev pub step_of : ℕ → ℕ → Action
step_of id sequence = record {
  id = id;
  task_id = 1;
  sequence = sequence;
  enabled = true;
  kind = execute_shell "make";
}

abbrev pub on_start : ℕ → Trigger
on_start task_id = record {
  id = task_id + 10;
  task_id = task_id;
  enabled = true;
  kind = agent_started;
  created_at = 5;
  updated_at = 5;
}

abbrev pub build : Task
build = record {
  id = 1;
  name = "build";
  description = none;
  enabled = true;
  triggers = on_start 1 ∷ [];
  actions = step_of 21 2 ∷ step_of 22 1 ∷ [];
  execution_policy = no_retry;
  working_directory = none;
  environment = ("LANG", "C") ∷ [];
  version = pos 1;
  created_at = 5;
  updated_at = 5;
}

abbrev pub backup : Task
backup = record build { id = 2; name = "backup"; triggers = on_start 2 ∷ []; actions = [] }
