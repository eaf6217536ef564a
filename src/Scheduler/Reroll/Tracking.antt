-- ===== src/Scheduler/Reroll/Tracking.antt =====
-- `reroll_trigger` keeps what the queue's valid items stand for.
use easy_job.Prelude.{
  ℕ, ◌+◌, ◌-◌, ◌^◌, ◌<◌, ◌≡◌, true, false, ◌==◌, Option, none, some, List, [], ◌∷◌, keep_if,
  keep_if_passes, All, All-map, All-zip, All-keep_if, arith, Bool-cases, inl, inr,
}
use easy_job.Prelude.Outcome.{Ensures, >>=-Ensures, >>=-Ensures_any}
use easy_job.Domain.Trigger.{TaskId, TriggerId, DateTime, Trigger}
use easy_job.Scheduler.Evaluator.{Evaluation}
use easy_job.Scheduler.Queue.{
  ScheduledItem, ScheduleQueue, bump_generation, current_generation, take_task_items,
}
use easy_job.Scheduler.Queue.Overview.{take_task_items_lem}
use easy_job.Scheduler.Queue.Tracking.{
  Tracks, Tracks-mono, push-Tracks, bump-Tracks, take-Tracks, taken-Tracks,
}
use easy_job.Scheduler.Reroll.{
  Evaluate, item_of, Rerolling, renew, reroll_target, reroll_item, reroll_items, reroll_absent,
  finish_reroll, reroll_queue,
}

-- A predicate on what an item is for, not on its time or generation.
abbrev pub Keyed : (TaskId → TriggerId → Type 0) → ScheduledItem → Type 0
Keyed P x = P x.task_id x.trigger_id

module _ (n : ℕ) (P : TaskId → TriggerId → Type 0) (trigger : Trigger) (gen : ℕ) where
  abbrev Good : Rerolling → Type 0
  Good r = Tracks n (Keyed P) r.queue

  target-Good :
      (item : ScheduledItem) (r : Rerolling) (next : Option DateTime)
      → Keyed P item
      → Good r
      → Good (reroll_target item gen r next)
  target-Good item r none p g = g
  target-Good item r (some at) p g =
      push-Tracks (record item { next_fire_at = at; generation = gen }) r.queue p g

  reroll_item-Good :
      (e : Evaluation) (item : ScheduledItem) (r : Rerolling)
      → Keyed P item
      → Good r
      → Ensures Good (reroll_item e trigger.id gen item r)
  unfolding reroll_item
  reroll_item-Good e item r p g = elim (Bool-cases (item.trigger_id == trigger.id)) [
    | inl t ↦ rw t (>>=-Ensures_any Good e _ λ next. target-Good item r next p g)
    | inr t ↦ rw t (push-Tracks (renew item gen) r.queue p g)
  ]

  reroll_items-Good :
      (ev : Evaluate) (i : ℕ) (items : List ScheduledItem) (r : Rerolling)
      → All (Keyed P) items
      → Good r
      → Ensures Good (reroll_items ev i trigger gen items r)
  unfolding reroll_items
  reroll_items-Good ev i [] r p g = g
  reroll_items-Good ev i (item ∷ items) r p g =
      >>=-Ensures Good Good (reroll_item (ev i trigger.kind) trigger.id gen item r) _
        (reroll_item-Good (ev i trigger.kind) item r p.0 g)
        λ r' g'. reroll_items-Good ev (i + 1) items r' p.1 g'

  absent-Good :
      (task_id : TaskId) (r : Rerolling) (next : Option DateTime)
      → P task_id trigger.id
      → Good r
      → Good (reroll_absent task_id trigger gen r next)
  absent-Good task_id r none p g = g
  absent-Good task_id r (some at) p g = push-Tracks (item_of task_id gen trigger at) r.queue p g

  finish_reroll-Good :
      (last : Evaluation) (task_id : TaskId) (r : Rerolling)
      → P task_id trigger.id
      → Good r
      → Ensures Good (finish_reroll last task_id trigger gen r)
  unfolding finish_reroll
  finish_reroll-Good last task_id r p g = elim (Bool-cases r.target_rerolled) [
    | inl t ↦ rw t g
    | inr t ↦ simp t (>>=-Ensures_any Good last _ λ next. absent-Good task_id r next p g)
  ]

-- The valid items of a task, as `reroll_trigger` takes them out.
abbrev pub valid_items : TaskId → ScheduleQueue → List ScheduledItem
valid_items task_id q =
    keep_if (λ (x : ScheduledItem). x.generation == current_generation q task_id)
      (take_task_items task_id q).0

valid_items-Keyed :
    (n : ℕ) (P : TaskId → TriggerId → Type 0) (task_id : TaskId) (q : ScheduleQueue)
    → Tracks n (Keyed P) q
    → All (Keyed P) (valid_items task_id q)
valid_items-Keyed n P task_id q t =
    let test = λ (x : ScheduledItem). x.generation == current_generation q task_id in
    let taken = (take_task_items task_id q).0 in
    let mine = (take_task_items_lem task_id q).1 in
    All-map _ _ (keep_if test taken)
      (λ x h. h.1.1 (
        let same : x.task_id ≡ task_id = h.1.0 in
        let passed : (x.generation == current_generation q task_id) ≡ true = h.0 in ground arith))
      (All-zip _ _ (keep_if test taken) (keep_if_passes test taken) (
        All-zip _ _ (keep_if test taken) (All-keep_if _ test taken mine)
          (All-keep_if _ test taken (taken-Tracks task_id q t))))

pub reroll_queue-Tracks :
    (n : ℕ) (P : TaskId → TriggerId → Type 0) (ev : Evaluate) (last : Evaluation) (task_id : TaskId)
    (trigger : Trigger) (q : ScheduleQueue)
    → n < 2 ^ 64 - 1
    → P task_id trigger.id
    → Tracks n (Keyed P) q
    → Ensures
        (λ (r : Rerolling). Tracks (n + 1) (Keyed P) r.queue)
        (reroll_queue ev last task_id trigger q)
unfolding reroll_queue
reroll_queue-Tracks n P ev last task_id trigger q h p t =
    let rest = (take_task_items task_id q).1 in
    let gen = (bump_generation task_id rest).0 in
    let bumped = (bump_generation task_id rest).1 in
    >>=-Ensures (Good (n + 1) P trigger gen) (Good (n + 1) P trigger gen) _
      (finish_reroll last task_id trigger gen)
      (reroll_items-Good (n + 1) P trigger gen ev 0 (valid_items task_id q)
        (record { queue = bumped; target_rerolled = false; new_next = none })
        (valid_items-Keyed n P task_id q t)
        (Tracks-mono (omega arith) (λ x both. both.1)
          (bump-Tracks task_id rest h (take-Tracks task_id q t))))
      λ r g. finish_reroll-Good (n + 1) P trigger gen last task_id r p g
