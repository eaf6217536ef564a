-- ===== src/Scheduler/Loop.antt =====
-- crates/scheduler/src/scheduler.rs: the loop of `Scheduler::run`. One turn of the loop is the arm
-- of the `select!` that it takes, with what that arm reads from outside: `ev i kind` is the result of
-- the arm's call number `i` of `evaluate_next_occurrence`, at the clock and the draws of that moment.
-- A panic of an evaluation ends the loop.
pub mod Coverage
pub mod Arms
pub mod Runs
pub mod Safety
pub mod Liveness
mod Examples
use easy_job.Prelude.{
  ℕ, zero, suc, ◌+◌, ◌-◌, ◌/◌, Bool, true, false, ◌&&◌, ltb, leb, ◌==◌, if◌then◌else◌, Option, none,
  some, List, [], ◌∷◌, ◌++◌, find, keep_if,
}
use easy_job.Prelude.Map
use easy_job.Prelude.Map.{Map}
use easy_job.Prelude.Outcome.{Outcome, returns, panics, ◌>>=◌}
use easy_job.Domain.Trigger.{TaskId, TriggerId, DateTime, TriggerKind, Trigger}
use easy_job.Domain.Task.{Task}
use easy_job.Scheduler.Queue.{
  ScheduledItem, ScheduleQueue, new, push, pop, peek_valid, bump_generation, current_generation,
  clear, take_task_items,
}
use easy_job.Scheduler.Evaluator.{Evaluation}
use easy_job.Scheduler.Reroll.{Evaluate, item_of, has_id, Reply, RerollError, reroll_trigger}

pub record TriggerEvent : Type 0 where
  pub task_id : TaskId
  pub trigger_id : Option TriggerId
  pub scheduled_at : DateTime

-- The loop's variables; the instant is a monotonic clock in nanoseconds.
pub record LoopState : Type 0 where
  pub queue : ScheduleQueue
  pub registered_tasks : Map Task
  pub last_wall : DateTime
  pub last_instant : ℕ

unfoldable pub start : DateTime → ℕ → LoopState
start now instant = record {
  queue = new;
  registered_tasks = [];
  last_wall = now;
  last_instant = instant;
}

abbrev pub push_next : TaskId → ℕ → Trigger → ScheduleQueue → Option DateTime → ScheduleQueue
push_next task_id gen tr q none = q
push_next task_id gen tr q (some next) = push (item_of task_id gen tr next) q

-- One enabled trigger, evaluated and pushed: the innermost body of three of the arms.
unfoldable pub push_trigger :
    Evaluation → TaskId → ℕ → Trigger → ScheduleQueue → Outcome ScheduleQueue
push_trigger e task_id gen tr q =
    if tr.enabled
    then (e >>= λ (next : Option DateTime). returns (push_next task_id gen tr q next))
    else returns q

unfoldable pub push_triggers :
    Evaluate → ℕ → TaskId → ℕ → List Trigger → ScheduleQueue → Outcome ScheduleQueue
push_triggers ev i task_id gen [] q = returns q
push_triggers ev i task_id gen (tr ∷ trs) q =
    push_trigger (ev i tr.kind) task_id gen tr q >>= λ (q' : ScheduleQueue).
    push_triggers ev (i + 1) task_id gen trs q'

unfoldable pub push_task : Evaluate → Task → ℕ → ScheduleQueue → Outcome ScheduleQueue
push_task ev task gen q =
    if task.enabled then push_triggers ev 0 task.id gen task.triggers q else returns q

unfoldable pub add_task : Evaluate → Task → LoopState → Outcome LoopState
add_task ev task s =
    let (gen, bumped) = bump_generation task.id s.queue in
    push_task ev task gen bumped >>= λ (q : ScheduleQueue).
    returns (record s { queue = q; registered_tasks = Map.insert task.id task s.registered_tasks })

unfoldable pub remove_task : TaskId → LoopState → LoopState
remove_task id s = record s {
  queue = (bump_generation id s.queue).1;
  registered_tasks = Map.remove id s.registered_tasks;
}

unfoldable pub push_found :
    Evaluate → Option Trigger → TaskId → ℕ → ScheduleQueue → Outcome ScheduleQueue
push_found ev none task_id gen q = returns q
push_found ev (some tr) task_id gen q = push_trigger (ev 0 tr.kind) task_id gen tr q

-- What the timer's arm does with the popped item, before the event is sent.
unfoldable pub reschedule :
    Evaluate → ScheduledItem → Option Task → ScheduleQueue → Outcome ScheduleQueue
reschedule ev item none q = returns q
reschedule ev item (some task) q =
    let gen = current_generation q task.id in
    if task.enabled && item.generation == gen
    then push_found ev (find (has_id item.trigger_id) task.triggers) task.id gen q
    else returns q

abbrev pub event_of : ScheduledItem → TriggerEvent
event_of item = record {
  task_id = item.task_id;
  trigger_id = some item.trigger_id;
  scheduled_at = item.next_fire_at;
}

unfoldable pub fire :
    Evaluate
    → LoopState
    → Option ScheduledItem × ScheduleQueue
    → Outcome (LoopState × List TriggerEvent)
fire ev s (none, q) = returns (record s { queue = q }, [])
fire ev s (some item, q) =
    reschedule ev item (Map.get item.task_id s.registered_tasks) q >>= λ (q' : ScheduleQueue).
    returns (record s { queue = q' }, event_of item ∷ [])

-- The rebuilding loop over `registered_tasks.values()`; the tasks have their own evaluations.
unfoldable pub rebuild : (ℕ → Evaluate) → ℕ → List Task → ScheduleQueue → Outcome ScheduleQueue
rebuild ev k [] q = returns q
rebuild ev k (task ∷ tasks) q =
    push_task (ev k) task (current_generation q task.id) q >>= λ (q' : ScheduleQueue).
    rebuild ev (k + 1) tasks q'

-- The clocks as the tick of `jump_interval` reads them, first and at its end. `wall_elapsed` is
-- in whole seconds towards zero, and its sign says whether the wall clock went back.
pub record Tick : Type 0 where
  pub wall_elapsed : ℕ
  pub went_back : Bool
  pub instant : ℕ
  pub wall_after : DateTime
  pub instant_after : ℕ

abbrev pub distance : ℕ → ℕ → ℕ
distance a b = if leb b a then a - b else b - a

unfoldable pub drift : Tick → LoopState → ℕ
drift t s =
    let mono_elapsed = (t.instant - s.last_instant) / 1_000_000_000 in
    if t.went_back then t.wall_elapsed + mono_elapsed else distance t.wall_elapsed mono_elapsed

unfoldable pub jump : (ℕ → Evaluate) → Tick → LoopState → Outcome LoopState
jump ev t s =
    (if ltb 30 (drift t s)
      then rebuild ev 0 (Map.values s.registered_tasks) (clear s.queue)
      else returns s.queue)
    >>= λ (q : ScheduleQueue).
        returns (record s { queue = q; last_wall = t.wall_after; last_instant = t.instant_after })

-- The arm that one turn of the loop takes, with what it reads from outside. `shutdown` is the command
-- and the closed channel.
pub data Input : Type 0 where
  shutdown : Input
  add : Evaluate → Task → Input
  remove : TaskId → Input
  trigger_now : TaskId → DateTime → Input
  reroll : Evaluate → Evaluation → TaskId → TriggerId → Input
  deadline : Evaluate → Input
  interval_tick : (ℕ → Evaluate) → Tick → Input

abbrev pub Turn : Type 0
Turn = Outcome (LoopState × List TriggerEvent)

abbrev pub quietly : LoopState → LoopState × List TriggerEvent
quietly s = (s, [])

abbrev pub event_now : TaskId → DateTime → TriggerEvent
event_now id now = record { task_id = id; trigger_id = none; scheduled_at = now }

-- The arms, behind `peek_valid`. The deadline's arm is enabled only where a deadline was found.
unfoldable pub arm : Input → Option ScheduledItem → LoopState → Turn
arm shutdown next s = returns (quietly s)
arm (add ev task) next s = add_task ev task s >>= λ (t : LoopState). returns (quietly t)
arm (remove id) next s = returns (quietly (remove_task id s))
arm (trigger_now id now) next s = returns (s, event_now id now ∷ [])
arm (reroll ev last task_id trigger_id) next s =
    reroll_trigger ev last s.registered_tasks task_id trigger_id s.queue
    >>= λ (r : ScheduleQueue × Reply). returns (quietly (record s { queue = r.0 }))
arm (deadline ev) none s = returns (quietly s)
arm (deadline ev) (some _) s = fire ev s (pop s.queue)
arm (interval_tick ev t) next s = jump ev t s >>= λ (u : LoopState). returns (quietly u)

unfoldable pub turn : Input → LoopState → Turn
turn input s = let (next, q) = peek_valid s.queue in arm input next (record s { queue = q })

abbrev pub is_shutdown : Input → Bool
is_shutdown shutdown = true
is_shutdown _ = false

-- The loop, until `shutdown`, with the events in the order in which they are sent.
unfoldable pub run : List Input → LoopState → Turn
run [] s = returns (quietly s)
run (input ∷ inputs) s =
    let rest = turn input s >>= λ (r : LoopState × List TriggerEvent).
    run inputs r.0 >>= λ (r' : LoopState × List TriggerEvent). returns (r'.0, r.1 ++ r'.1) in
    if is_shutdown input then returns (quietly s) else rest
