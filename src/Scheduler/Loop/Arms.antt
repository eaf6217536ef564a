-- ===== src/Scheduler/Loop/Arms.antt =====
-- Every arm of the loop keeps the scheduler's invariant.
use easy_job.Prelude.{
  ℕ, ◌+◌, ◌-◌, ◌^◌, ◌<◌, ◌≡◌, ◌≢◌, ◌∙◌, refl, sym, subst, Bool, true, false, ltb, if◌then◌else◌,
  Option, none, some, List, All, arith,
}
use easy_job.Prelude.Map
use easy_job.Prelude.Map.{Map, NodupKeys, Each, get-insert, get-remove}
use easy_job.Prelude.Outcome.{returns, Ensures, >>=-Ensures}
use easy_job.Domain.Trigger.{TaskId, TriggerId}
use easy_job.Domain.Task.{Task}
use easy_job.Scheduler.Queue.{ScheduledItem, ScheduleQueue, clear}
use easy_job.Scheduler.Queue.Tracking.{Tracks, Tracks-mono, bump-Tracks, clear-Tracks}
use easy_job.Scheduler.Reroll.{Evaluate}
use easy_job.Scheduler.Loop.{
  LoopState, TriggerEvent, add_task, remove_task, fire, rebuild, jump, Tick, drift,
}
use easy_job.Scheduler.Queue.Tracking.{new-Tracks}
use easy_job.Scheduler.Loop.{start}
use easy_job.Scheduler.Loop.Coverage.{
  IsCovered, Covers, HasKey, Inv, push_task-Tracks, reschedule-Tracks, rebuild-Tracks,
}

pub start-Inv : (now instant : ℕ) → Inv 1 (start now instant)
unfolding start
start-Inv now instant = record { tracks = new-Tracks _; distinct = tt; keyed = tt }

pub registered_here :
    (tasks : Map Task) (k : ℕ) (task : Task)
    → Each HasKey tasks
    → Map.get k tasks ≡ some task
    → Map.get task.id tasks ≡ some task
registered_here tasks k task keyed e =
    let same : task.id ≡ k = Map.Each-get HasKey k task tasks keyed e in
    subst (λ j. Map.get j tasks ≡ some task) (sym same) e

covered_elsewhere :
    (tasks tasks' : Map Task) (id : TaskId)
    → ((j : TaskId) → j ≢ id → Map.get j tasks' ≡ Map.get j tasks)
    → (x : ScheduledItem) → (x.task_id ≢ id) × Covers tasks x
    → Covers tasks' x
covered_elsewhere tasks tasks' id same x (other, c) = record {
  task = c.task;
  registered = same x.task_id other ∙ c.registered;
  task_enabled = c.task_enabled;
  trigger = c.trigger;
  listed = c.listed;
  named = c.named;
  trigger_enabled = c.trigger_enabled;
}

pub add_task-Inv :
    (n : ℕ) (ev : Evaluate) (task : Task) (s : LoopState)
    → n < 2 ^ 64 - 1
    → Inv n s
    → Ensures
        (λ (r : LoopState).
          Inv (n + 1) r × (r.registered_tasks ≡ Map.insert task.id task s.registered_tasks))
        (add_task ev task s)
unfolding add_task
add_task-Inv n ev task s h v =
    let tasks = Map.insert task.id task s.registered_tasks in
    >>=-Ensures (Tracks (n + 1) (Covers tasks)) _ _ _
      (push_task-Tracks (n + 1) tasks ev task _ _
        (get-insert task.id task.id task s.registered_tasks ∙ ground arith)
        (Tracks-mono (omega arith)
          (covered_elsewhere s.registered_tasks tasks task.id
            λ j other. get-insert task.id j task s.registered_tasks ∙ ground arith)
          (bump-Tracks task.id s.queue h v.tracks)))
      λ q t. (
        record {
          tracks = t;
          distinct = Map.insert-NodupKeys task.id task s.registered_tasks v.distinct;
          keyed = Map.Each-insert HasKey task.id task s.registered_tasks refl v.keyed;
        },
        refl,
      )

pub remove_task-Inv :
    (n : ℕ) (id : TaskId) (s : LoopState)
    → n < 2 ^ 64 - 1
    → Inv n s
    → Inv (n + 1) (remove_task id s)
unfolding remove_task
remove_task-Inv n id s h v = record {
  tracks =
      Tracks-mono (omega arith)
        (covered_elsewhere s.registered_tasks (Map.remove id s.registered_tasks) id
          λ j other. get-remove id j s.registered_tasks ∙ ground arith)
        (bump-Tracks id s.queue h v.tracks);
  distinct = Map.remove-NodupKeys id s.registered_tasks v.distinct;
  keyed = Map.Each-remove HasKey id s.registered_tasks v.keyed;
}

rebuilt-Tracks :
    (n : ℕ) (ev : ℕ → Evaluate) (s : LoopState) (far : Bool)
    → Inv n s
    → Ensures (Tracks n (Covers s.registered_tasks)) (
        if far
        then rebuild ev 0 (Map.values s.registered_tasks) (clear s.queue)
        else returns s.queue)
rebuilt-Tracks n ev s false v = v.tracks
rebuilt-Tracks n ev s true v =
    rebuild-Tracks n s.registered_tasks ev 0 s.registered_tasks (clear s.queue)
      (Map.Each-of_get _ s.registered_tasks v.distinct
        λ k task e. registered_here s.registered_tasks k task v.keyed e)
      (clear-Tracks s.queue v.tracks)

pub jump-Inv :
    (n : ℕ) (ev : ℕ → Evaluate) (t : Tick) (s : LoopState)
    → Inv n s
    → Ensures (λ (r : LoopState). Inv n r × (r.registered_tasks ≡ s.registered_tasks)) (jump ev t s)
unfolding jump
jump-Inv n ev t s v =
    >>=-Ensures (Tracks n (Covers s.registered_tasks)) _ _ _
      (rebuilt-Tracks n ev s (ltb 30 (drift t s)) v)
      λ q tr. (record { tracks = tr; distinct = v.distinct; keyed = v.keyed }, refl)

-- An event that a deadline caused is of a covered trigger; one with no trigger was asked for.
abbrev pub Fired : Map Task → TriggerEvent → Type 0
Fired tasks event = (id : TriggerId) → event.trigger_id ≡ some id → IsCovered tasks event.task_id id

pub fire-Inv :
    (n : ℕ) (ev : Evaluate) (s : LoopState) (r : Option ScheduledItem × ScheduleQueue)
    → Inv n s
    → Tracks n (Covers s.registered_tasks) r.1
    → ((x : ScheduledItem) → r.0 ≡ some x → Covers s.registered_tasks x)
    → Ensures
        (λ (r' : LoopState × List TriggerEvent).
          Inv n r'.0
          × (r'.0.registered_tasks ≡ s.registered_tasks)
          × All (Fired s.registered_tasks) r'.1)
        (fire ev s r)
unfolding fire
fire-Inv n ev s (none, q) v t c =
    (record { tracks = t; distinct = v.distinct; keyed = v.keyed }, refl, tt)
fire-Inv n ev s (some item, q) v t c =
    >>=-Ensures (Tracks n (Covers s.registered_tasks)) _ _ _
      (reschedule-Tracks n s.registered_tasks ev item (Map.get item.task_id s.registered_tasks) q
        (λ task e. registered_here s.registered_tasks item.task_id task v.keyed e) t)
      λ q' t'. (
        record { tracks = t'; distinct = v.distinct; keyed = v.keyed },
        refl,
        (
          (λ id e.
              let same : item.trigger_id ≡ id = ground arith in
              subst (IsCovered s.registered_tasks item.task_id) same (c item refl)),
          tt,
        ),
      )
