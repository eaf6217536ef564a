-- ===== src/Agent/Executions/Examples.antt =====
-- The executions' theorems at concrete runs, with a counter as the semaphore.
use easy_job.Prelude.Int.{pos}
use easy_job.Prelude.{
  ℕ, zero, suc, ◌≡◌, ◌⊎◌, refl, arith, Bool, true, false, none, some, Option, List, [], ◌∷◌, All,
  keep_if, if◌then◌else◌, ◌==◌,
}
use easy_job.Prelude.Map
use easy_job.Domain.Policy.{ExecutionPolicy, run_once, silent, LogRetentionPolicy, skip_if_running}
use easy_job.Domain.Execution.{succeeded}
use easy_job.Domain.Task.{Task, Action, execute_shell}
use easy_job.Scheduler.Loop.{TriggerEvent}
use easy_job.Executor.Manager.{running_count, try_acquire_slot}
use easy_job.Agent.Semaphore.{Semaphore, IsSemaphore}
use easy_job.Agent.Executions.{
  ActionResult, ran, failed_to_run, Run, World, found, from_event, by_hand, permitted, dispatch,
  trigger_now, first_progress, acquire_slot,
}
use easy_job.Agent.Executions.Steps.{moved, Move, Step, Steps}
use easy_job.Agent.Executions.Balance.{Steps-IsBalanced}
use easy_job.Agent.Executions.Holding.{IsBalanced}
use easy_job.Agent.Executions.Tokens.{IsTracked, Steps-IsTracked}
use easy_job.Agent.Executions.Outcome.{
  run_actions, Stops, run_actions_lem, has_succeeded, is_enabled,
}

abbrev take_one : ℕ → Option ℕ
take_one zero = none
take_one (suc n) = some n

abbrev counter : Semaphore ℕ
counter = record { available = λ n. n; try_acquire = take_one; release = λ n. suc n }

counter-acquired : (s t : ℕ) → take_one s ≡ some t → s ≡ suc t
counter-acquired zero t e = cc
counter-acquired (suc n) t e = cc

counter-exhausted : (s : ℕ) → take_one s ≡ none → s ≡ 0
counter-exhausted zero e = refl
counter-exhausted (suc n) e = cc

counter-IsSemaphore : IsSemaphore counter
counter-IsSemaphore = record {
  acquired = counter-acquired;
  exhausted = counter-exhausted;
  released = λ s. refl;
}

abbrev policy : ExecutionPolicy
policy = record {
  concurrency_policy = skip_if_running;
  missed_run_policy = run_once;
  retry_policy = record { max_retries = 0; delay_secs = 0 };
  timeout_secs = none;
  notification = silent;
  log_retention = LogRetentionPolicy.system_default;
}

abbrev shell : ℕ → Bool → Action
shell n on = record { id = n; task_id = 7; sequence = n; enabled = on; kind = execute_shell "true" }

abbrev backup : Task
backup = record {
  id = 7;
  name = "backup";
  description = none;
  enabled = true;
  triggers = [];
  actions = [];
  execution_policy = policy;
  working_directory = none;
  environment = [];
  version = pos 1;
  created_at = 0;
  updated_at = 0;
}

abbrev idle : World ℕ
idle = record {
  shared = record { counts = []; semaphore = 2; active_executions = []; events = [] };
  runs = [];
}

abbrev due : TriggerEvent
due = record { task_id = 7; trigger_id = some 70; scheduled_at = 10 }

abbrev dispatched : World ℕ
dispatched = dispatch counter (found backup) due idle

abbrev asked : World ℕ
asked = (trigger_now counter (found backup) dispatched).0

abbrev scheduled : Run
scheduled = record { task = backup; origin = from_event due; phase = permitted }

abbrev by_call : Run
by_call = record { task = backup; origin = by_hand; phase = permitted }

-- The call by hand takes the slot while the event's admission has only its permit.
abbrev overtaken : World ℕ
overtaken = moved (acquire_slot counter by_call asked.shared) [] (scheduled ∷ [])

three-Steps : Steps counter idle overtaken
unfolding dispatch trigger_now
three-Steps =
    Steps.then_
      (Steps.then_ (Steps.then_ Steps.done (Step.event (found backup) due idle))
        (Step.asked (found backup) dispatched))
      (Step.moves by_call [] (scheduled ∷ []) _ asked refl Move.asks)

idle-IsBalanced : IsBalanced counter 2 idle
unfolding running_count Map.get
idle-IsBalanced = record { permits = refl; slots = λ id. refl }

-- Both have a permit, and one a slot.
overtaken_test : (overtaken.shared.semaphore ≡ 0) × (running_count 7 overtaken.shared.counts ≡ 1)
unfolding dispatch trigger_now acquire_slot try_acquire_slot running_count Map.get Map.insert
overtaken_test = (refl, refl)

Steps-IsBalanced_example : IsBalanced counter 2 overtaken
Steps-IsBalanced_example =
    Steps-IsBalanced counter counter-IsSemaphore 2 (omega arith) idle overtaken three-Steps
      idle-IsBalanced

Steps-IsTracked_example : IsTracked counter overtaken
Steps-IsTracked_example =
    Steps-IsTracked counter idle overtaken three-Steps λ id h. absurd (h (unfold Map.get in refl))

abbrev answer : Action → ActionResult
answer a =
    if a.id == 2
    then failed_to_run "no such file"
    else ran (record {
      status = succeeded;
      exit_code = some 0;
      stdout = "";
      stderr = "";
      error_message = none;
    })

abbrev four : List Action
four = shell 0 true ∷ shell 1 false ∷ shell 2 true ∷ shell 3 true ∷ []

ran_test : (run_actions answer four (first_progress four)).0 ≡ shell 0 true ∷ shell 2 true ∷ []
unfolding run_actions
ran_test = refl

run_actions_lem_example :
    let r = run_actions answer four (first_progress four) in
    (All (λ a. has_succeeded (answer a) ≡ true) (keep_if is_enabled four)
      × (r.0 ≡ keep_if is_enabled four)
      × (r.1.final_status ≡ succeeded)
      × (r.1.error_message ≡ none))
    ⊎ Stops answer four r
run_actions_lem_example = run_actions_lem answer four
