-- ===== src/Scheduler/Reroll.antt =====
-- crates/scheduler/src/scheduler.rs: `reroll_trigger`. `ev i kind` is the result of its call number
-- `i` of `evaluate_next_occurrence` in the loop, at the clock and the draws of that moment, and `last`
-- that of the call behind the loop. The trigger is found by `trigger_id`, which is then its own id.
pub mod Tracking
pub mod Others
mod Examples
use easy_job.Prelude.{
  ℕ, ◌+◌, Bool, true, false, ◌==◌, if◌then◌else◌, Option, none, some, List, [], ◌∷◌, find, keep_if,
}
use easy_job.Prelude.Map
use easy_job.Prelude.Map.{Map}
use easy_job.Prelude.Outcome.{Outcome, returns, ◌>>=◌}
use easy_job.Domain.Trigger.{TaskId, TriggerId, DateTime, TriggerKind, Trigger}
use easy_job.Domain.Task.{Task}
use easy_job.Scheduler.Queue.{
  ScheduledItem, ScheduleQueue, push, bump_generation, current_generation, take_task_items,
}
use easy_job.Scheduler.Evaluator.{Evaluation}

abbrev pub Evaluate : Type 0
Evaluate = ℕ → TriggerKind → Evaluation

abbrev pub item_of : TaskId → ℕ → Trigger → DateTime → ScheduledItem
item_of task_id gen tr next = record {
  task_id = task_id;
  trigger_id = tr.id;
  next_fire_at = next;
  generation = gen;
}

abbrev pub has_id : TriggerId → Trigger → Bool
has_id id tr = tr.id == id

-- The four refusals of `reroll_trigger`, in place of their messages.
pub data RerollError : Type 0 where
  not_registered task_disabled trigger_not_found trigger_disabled : RerollError

pub data Reply : Type 0 where
  ok : Option DateTime → Reply
  err : RerollError → Reply

-- The variables of the `for` loop over the valid items.
pub record Rerolling : Type 0 where
  pub queue : ScheduleQueue
  pub target_rerolled : Bool
  pub new_next : Option DateTime

abbrev pub renew : ScheduledItem → ℕ → ScheduledItem
renew item gen = record item { generation = gen }

abbrev pub reroll_target : ScheduledItem → ℕ → Rerolling → Option DateTime → Rerolling
reroll_target item gen r none = record r { target_rerolled = true }
reroll_target item gen r (some next) = record {
  queue = push (record item { next_fire_at = next; generation = gen }) r.queue;
  target_rerolled = true;
  new_next = some next;
}

unfoldable pub reroll_item :
    Evaluation → TriggerId → ℕ → ScheduledItem → Rerolling → Outcome Rerolling
reroll_item e trigger_id gen item r =
    if item.trigger_id == trigger_id
    then (e >>= λ (next : Option DateTime). returns (reroll_target item gen r next))
    else returns (record r { queue = push (renew item gen) r.queue })

unfoldable pub reroll_items :
    Evaluate → ℕ → Trigger → ℕ → List ScheduledItem → Rerolling → Outcome Rerolling
reroll_items ev i trigger gen [] r = returns r
reroll_items ev i trigger gen (item ∷ items) r =
    reroll_item (ev i trigger.kind) trigger.id gen item r >>= λ (r' : Rerolling).
    reroll_items ev (i + 1) trigger gen items r'

abbrev pub reroll_absent : TaskId → Trigger → ℕ → Rerolling → Option DateTime → Rerolling
reroll_absent task_id trigger gen r none = r
reroll_absent task_id trigger gen r (some next) = record r {
  queue = push (item_of task_id gen trigger next) r.queue;
  new_next = some next;
}

-- The end of `reroll_trigger`: `last` evaluates a target that was not in the queue.
unfoldable pub finish_reroll : Evaluation → TaskId → Trigger → ℕ → Rerolling → Outcome Rerolling
finish_reroll last task_id trigger gen r =
    if r.target_rerolled
    then returns r
    else last >>= λ (next : Option DateTime). returns (reroll_absent task_id trigger gen r next)

-- `reroll_trigger` behind its checks.
unfoldable pub reroll_queue :
    Evaluate → Evaluation → TaskId → Trigger → ScheduleQueue → Outcome Rerolling
reroll_queue ev last task_id trigger q =
    let old_generation = current_generation q task_id in
    let (taken, rest) = take_task_items task_id q in
    let valid_items = keep_if (λ (x : ScheduledItem). x.generation == old_generation) taken in
    let (gen, bumped) = bump_generation task_id rest in
    reroll_items ev 0 trigger gen valid_items
      (record { queue = bumped; target_rerolled = false; new_next = none })
    >>= finish_reroll last task_id trigger gen

unfoldable pub reroll_found :
    Evaluate
    → Evaluation
    → TaskId
    → Option Trigger
    → ScheduleQueue
    → Outcome (ScheduleQueue × Reply)
reroll_found ev last task_id none q = returns (q, err trigger_not_found)
reroll_found ev last task_id (some trigger) q =
    if trigger.enabled
    then (reroll_queue ev last task_id trigger q >>= λ (r : Rerolling).
        returns (r.queue, ok r.new_next))
    else returns (q, err trigger_disabled)

unfoldable pub reroll_task :
    Evaluate
    → Evaluation
    → TaskId
    → TriggerId
    → Option Task
    → ScheduleQueue
    → Outcome (ScheduleQueue × Reply)
reroll_task ev last task_id trigger_id none q = returns (q, err not_registered)
reroll_task ev last task_id trigger_id (some task) q =
    if task.enabled
    then reroll_found ev last task_id (find (has_id trigger_id) task.triggers) q
    else returns (q, err task_disabled)

unfoldable pub reroll_trigger :
    Evaluate
    → Evaluation
    → Map Task
    → TaskId
    → TriggerId
    → ScheduleQueue
    → Outcome (ScheduleQueue × Reply)
reroll_trigger ev last registered_tasks task_id trigger_id q =
    reroll_task ev last task_id trigger_id (Map.get task_id registered_tasks) q
