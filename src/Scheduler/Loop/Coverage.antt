-- ===== src/Scheduler/Loop/Coverage.antt =====
-- The scheduler's invariant, and that every arm of the loop keeps it.
use mathlib.Core.List.{Memᴰ}
use easy_job.Prelude.{
  ℕ, ◌+◌, ◌≡◌, refl, true, ◌==◌, Option, none, some, List, [], ◌∷◌, find, find-Memᴰ, Bool-cases,
  Option-cases, inl, inr,
}
use easy_job.Prelude.Map
use easy_job.Prelude.Map.{Map, NodupKeys, Each, get-insert, get-remove}
use easy_job.Prelude.Outcome.{Ensures, >>=-Ensures, >>=-Ensures_any}
use easy_job.Domain.Trigger.{TaskId, TriggerId, DateTime, Trigger}
use easy_job.Domain.Task.{Task}
use easy_job.Scheduler.Evaluator.{Evaluation}
use easy_job.Scheduler.Queue.{ScheduledItem, ScheduleQueue, current_generation}
use easy_job.Scheduler.Queue.Tracking.{Tracks, push-Tracks}
use easy_job.Scheduler.Reroll.{Evaluate, item_of, has_id}
use easy_job.Scheduler.Loop.{
  LoopState, push_next, push_trigger, push_triggers, push_task, push_found, reschedule, rebuild,
}

-- The task is registered and enabled, and the trigger is one of its enabled triggers.
pub record IsCovered (tasks : Map Task) (task_id : TaskId) (trigger_id : TriggerId) : Type 0 where
  pub task : Task
  pub registered : Map.get task_id tasks ≡ some task
  pub task_enabled : task.enabled ≡ true
  pub trigger : Trigger
  pub listed : Memᴰ trigger task.triggers
  pub named : trigger.id ≡ trigger_id
  pub trigger_enabled : trigger.enabled ≡ true

abbrev pub Covers : Map Task → ScheduledItem → Type 0
Covers tasks x = IsCovered tasks x.task_id x.trigger_id

abbrev pub HasKey : ℕ → Task → Type 0
HasKey k task = task.id ≡ k

-- Every valid item of the queue is covered, and each task is registered once and under its own id. No
-- generation passes `n`.
pub record Inv (n : ℕ) (s : LoopState) : Type 0 where
  pub tracks : Tracks n (Covers s.registered_tasks) s.queue
  pub distinct : NodupKeys s.registered_tasks
  pub keyed : Each HasKey s.registered_tasks

module _ (n : ℕ) (P : ScheduledItem → Type 0) (task_id gen : ℕ) where
  -- A trigger's items are all `P`, if the trigger is enabled.
  abbrev pub Pushes : Trigger → Type 0
  Pushes tr = tr.enabled ≡ true → (next : DateTime) → P (item_of task_id gen tr next)

  push_next-Tracks :
      (tr : Trigger) (q : ScheduleQueue) (next : Option DateTime)
      → ((at : DateTime) → P (item_of task_id gen tr at))
      → Tracks n P q
      → Tracks n P (push_next task_id gen tr q next)
  push_next-Tracks tr q none p t = t
  push_next-Tracks tr q (some at) p t = push-Tracks (item_of task_id gen tr at) q (p at) t

  pub push_trigger-Tracks :
      (e : Evaluation) (tr : Trigger) (q : ScheduleQueue)
      → Pushes tr
      → Tracks n P q
      → Ensures (Tracks n P) (push_trigger e task_id gen tr q)
  unfolding push_trigger
  push_trigger-Tracks e tr q p t = elim (Bool-cases tr.enabled) [
    | inl on ↦ rw on (>>=-Ensures_any (Tracks n P) e _ λ next. push_next-Tracks tr q next (p on) t)
    | inr off ↦ rw off t
  ]

  push_triggers-Tracks :
      (ev : Evaluate) (i : ℕ) (trs : List Trigger) (q : ScheduleQueue)
      → ((tr : Trigger) → Memᴰ tr trs → Pushes tr)
      → Tracks n P q
      → Ensures (Tracks n P) (push_triggers ev i task_id gen trs q)
  unfolding push_triggers
  push_triggers-Tracks ev i [] q p t = t
  push_triggers-Tracks ev i (tr ∷ trs) q p t =
      >>=-Ensures (Tracks n P) (Tracks n P) (push_trigger (ev i tr.kind) task_id gen tr q) _
        (push_trigger-Tracks (ev i tr.kind) tr q (p tr (Memᴰ.head refl)) t)
        λ q' t'. push_triggers-Tracks ev (i + 1) trs q' (λ tr' m. p tr' (Memᴰ.tail m)) t'

pub covered_item :
    (tasks : Map Task) (task : Task) (gen : ℕ) (tr : Trigger)
    → Map.get task.id tasks ≡ some task
    → task.enabled ≡ true
    → Memᴰ tr task.triggers
    → tr.enabled ≡ true
    → (next : DateTime) → Covers tasks (item_of task.id gen tr next)
covered_item tasks task gen tr r on m e next = record {
  task = task;
  registered = r;
  task_enabled = on;
  trigger = tr;
  listed = m;
  named = refl;
  trigger_enabled = e;
}

module _ (n : ℕ) (tasks : Map Task) where
  pub push_task-Tracks :
      (ev : Evaluate) (task : Task) (gen : ℕ) (q : ScheduleQueue)
      → Map.get task.id tasks ≡ some task
      → Tracks n (Covers tasks) q
      → Ensures (Tracks n (Covers tasks)) (push_task ev task gen q)
  unfolding push_task
  push_task-Tracks ev task gen q r t = elim (Bool-cases task.enabled) [
    | inl on ↦ rw on (
        push_triggers-Tracks n (Covers tasks) task.id gen ev 0 task.triggers q
          (λ tr m e next. covered_item tasks task gen tr r on m e next) t)
    | inr off ↦ rw off t
  ]

  push_found-Tracks :
      (ev : Evaluate) (task : Task) (trigger_id gen : ℕ) (q : ScheduleQueue)
      → Map.get task.id tasks ≡ some task
      → task.enabled ≡ true
      → Tracks n (Covers tasks) q
      → Ensures
          (Tracks n (Covers tasks))
          (push_found ev (find (has_id trigger_id) task.triggers) task.id gen q)
  unfolding push_found
  push_found-Tracks ev task trigger_id gen q r on t =
      elim (Option-cases (find (has_id trigger_id) task.triggers)) [
        | inl e ↦ rw e t
        | inr (tr, e) ↦ rw e (
            push_trigger-Tracks n (Covers tasks) task.id gen (ev 0 tr.kind) tr q
              (covered_item tasks task gen tr r on
                (find-Memᴰ (has_id trigger_id) task.triggers tr e))
              t)
      ]

  pub reschedule-Tracks :
      (ev : Evaluate) (item : ScheduledItem) (o : Option Task) (q : ScheduleQueue)
      → ((task : Task) → o ≡ some task → Map.get task.id tasks ≡ some task)
      → Tracks n (Covers tasks) q
      → Ensures (Tracks n (Covers tasks)) (reschedule ev item o q)
  unfolding reschedule
  reschedule-Tracks ev item none q r t = t
  reschedule-Tracks ev item (some task) q r t = elim (Bool-cases task.enabled) [
    | inl on ↦ rw on (elim (Bool-cases (item.generation == current_generation q task.id)) [
      | inl e ↦ rw e (push_found-Tracks ev task item.trigger_id _ q (r task refl) on t)
      | inr e ↦ rw e t
    ])
    | inr off ↦ rw off t
  ]

  pub rebuild-Tracks :
      (ev : ℕ → Evaluate) (k : ℕ) (m : Map Task) (q : ScheduleQueue)
      → Each (λ _ (task : Task). Map.get task.id tasks ≡ some task) m
      → Tracks n (Covers tasks) q
      → Ensures (Tracks n (Covers tasks)) (rebuild ev k (Map.values m) q)
  unfolding rebuild
  rebuild-Tracks ev k [] q h t = t
  rebuild-Tracks ev k ((id, task) ∷ m) q h t =
      >>=-Ensures (Tracks n (Covers tasks)) (Tracks n (Covers tasks)) _ _
        (push_task-Tracks (ev k) task (current_generation q task.id) q h.0 t)
        λ q' t'. rebuild-Tracks ev (k + 1) m q' h.1 t'
