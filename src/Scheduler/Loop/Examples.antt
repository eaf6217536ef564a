-- ===== src/Scheduler/Loop/Examples.antt =====
-- Tests of the loop, and its theorems at a concrete run.
use easy_job.Prelude.Int.{pos}
use easy_job.Prelude.{ℕ, ◌≡◌, refl, arith, true, none, some, List, [], ◌∷◌, All}
use easy_job.Prelude.Map
use easy_job.Prelude.Map.{Map}
use easy_job.Prelude.Outcome.{returns}
use easy_job.Domain.Trigger.{Trigger, interval}
use easy_job.Domain.Policy.{ExecutionPolicy, queue_one, run_once, silent, LogRetentionPolicy}
use easy_job.Domain.Task.{Task}
use easy_job.Scheduler.Queue.{
  new, push, pop, pop_valid, peek, peek_valid, drop_stale, bump_generation, is_valid, cmp,
  heap_push, current_generation,
}
use easy_job.Scheduler.Reroll.{Evaluate, item_of}
use easy_job.Prelude.{inl}
use easy_job.Scheduler.Loop.Liveness.{add_task-IsQueued}
use easy_job.Scheduler.Queue.Contents.{IsQueued}
use easy_job.Scheduler.Loop.{
  LoopState, TriggerEvent, Input, add, remove, trigger_now, deadline, start, arm, turn, run,
  push_trigger, push_triggers, push_task, add_task, remove_task, push_found, reschedule, fire,
}
use easy_job.Scheduler.Loop.Coverage.{Inv}
use easy_job.Scheduler.Loop.Arms.{Fired}
use easy_job.Scheduler.Loop.Runs.{run-Inv}
use easy_job.Scheduler.Loop.Safety.{IsSilent, turn-Fired, removed_task-IsSilent}

abbrev policy : ExecutionPolicy
policy = record {
  concurrency_policy = queue_one;
  missed_run_policy = run_once;
  retry_policy = record { max_retries = 0; delay_secs = 0 };
  timeout_secs = none;
  notification = silent;
  log_retention = LogRetentionPolicy.system_default;
}

abbrev backup_trigger : Trigger
backup_trigger = record {
  id = 70;
  task_id = 7;
  enabled = true;
  kind = interval 10 none;
  created_at = 0;
  updated_at = 0;
}

abbrev backup : Task
backup = record {
  id = 7;
  name = "backup";
  description = none;
  enabled = true;
  triggers = backup_trigger ∷ [];
  actions = [];
  execution_policy = policy;
  working_directory = none;
  environment = [];
  version = pos 1;
  created_at = 0;
  updated_at = 0;
}

-- Every evaluation answers `next`.
abbrev always : ℕ → Evaluate
always next i kind = returns (some next)

abbrev earlier : List Input
earlier = add (always 10) backup ∷ deadline (always 20) ∷ []

abbrev later : List Input
later = deadline (always 30) ∷ trigger_now 7 25 ∷ []

abbrev queued : LoopState
queued = record {
  queue = record {
    heap = record { task_id = 7; trigger_id = 70; next_fire_at = 20; generation = 2 } ∷ [];
    generations = (7, 2) ∷ [];
  };
  registered_tasks = (7, backup) ∷ [];
  last_wall = 0;
  last_instant = 0;
}

abbrev fired : TriggerEvent
fired = record { task_id = 7; trigger_id = some 70; scheduled_at = 10 }

earlier_test : run earlier (start 0 0) ≡ returns (queued, fired ∷ [])
unfolding run turn arm start new peek_valid peek drop_stale is_valid current_generation add_task
    bump_generation push_task push_triggers push_trigger push heap_push cmp pop pop_valid fire
    reschedule push_found Map.get Map.insert
earlier_test = refl

abbrev emptied : LoopState
emptied = record {
  queue = record { heap = []; generations = (7, 3) ∷ [] };
  registered_tasks = [];
  last_wall = 0;
  last_instant = 0;
}

abbrev asked : TriggerEvent
asked = record { task_id = 7; trigger_id = none; scheduled_at = 25 }

later_test : run (remove 7 ∷ later) queued ≡ returns (emptied, asked ∷ [])
unfolding run turn arm peek_valid peek drop_stale is_valid current_generation remove_task
    bump_generation fire pop pop_valid Map.get Map.insert Map.remove
later_test = refl

run-Inv_example : Inv 3 queued
run-Inv_example = run-Inv 0 0 earlier queued (fired ∷ []) (omega arith) earlier_test

abbrev after_turn : LoopState
after_turn = record {
  queue = record {
    heap = record { task_id = 7; trigger_id = 70; next_fire_at = 30; generation = 2 } ∷ [];
    generations = (7, 2) ∷ [];
  };
  registered_tasks = (7, backup) ∷ [];
  last_wall = 0;
  last_instant = 0;
}

abbrev fired_again : TriggerEvent
fired_again = record { task_id = 7; trigger_id = some 70; scheduled_at = 20 }

turn_test : turn (deadline (always 30)) queued ≡ returns (after_turn, fired_again ∷ [])
unfolding turn arm peek_valid peek drop_stale is_valid current_generation push_trigger push
    heap_push pop pop_valid fire reschedule push_found Map.get Map.insert
turn_test = refl

turn-Fired_example : All (Fired queued.registered_tasks) (fired_again ∷ [])
turn-Fired_example =
    turn-Fired 0 0 earlier queued after_turn (fired ∷ []) (fired_again ∷ []) (deadline (always 30))
      (omega arith) earlier_test turn_test

removed_task-IsSilent_example : All (IsSilent 7) (asked ∷ [])
removed_task-IsSilent_example =
    removed_task-IsSilent 0 0 earlier later 7 queued emptied (fired ∷ []) (asked ∷ []) (omega arith)
      earlier_test ((λ e. e), ((λ e. e), tt)) later_test

abbrev ten : Evaluate
ten i kind = returns (some 10)

abbrev backed_up : LoopState
backed_up = record {
  queue = record {
    heap = record { task_id = 7; trigger_id = 70; next_fire_at = 10; generation = 2 } ∷ [];
    generations = (7, 2) ∷ [];
  };
  registered_tasks = (7, backup) ∷ [];
  last_wall = 0;
  last_instant = 0;
}

add_test : add_task ten backup (start 0 0) ≡ returns backed_up
unfolding start new current_generation add_task bump_generation push_task push_triggers push_trigger
    push heap_push Map.get Map.insert
add_test = refl

add_task-IsQueued_example :
    IsQueued backed_up.queue (item_of 7 (current_generation backed_up.queue 7) backup_trigger 10)
add_task-IsQueued_example =
    add_task-IsQueued ten backup (start 0 0) backed_up 0 backup_trigger 10 add_test refl
      (inl (refl, refl)) refl refl
