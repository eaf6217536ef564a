-- ===== src/Scheduler/Loop/Runs.antt =====
-- What holds of the loop over every sequence of turns.
use easy_job.Prelude.{
  ℕ, ◌+◌, ◌-◌, ◌^◌, ◌<◌, ◌≤◌, ◌≡◌, ◌∙◌, refl, true, Option, none, some, List, [], ◌∷◌, find,
  find-Memᴰ, All, All-map, arith, Option-cases, inl, inr,
}
use easy_job.Prelude.Map
use easy_job.Prelude.Map.{Map, NodupKeys, Each, get-insert, get-remove}
use easy_job.Prelude.Outcome.{returns, Ensures, >>=-Ensures, Ensures-map}
use easy_job.Domain.Trigger.{TaskId, TriggerId, Trigger}
use easy_job.Domain.Task.{Task}
use easy_job.Scheduler.Evaluator.{Evaluation}
use easy_job.Scheduler.Queue.{ScheduledItem, ScheduleQueue, pop}
use easy_job.Scheduler.Queue.Tracking.{Tracks, Tracks-mono, pop-Tracks, popped-Tracks}
use easy_job.Scheduler.Reroll.{Evaluate, has_id}
use easy_job.Scheduler.Loop.{LoopState, TriggerEvent, add_task, remove_task, fire, jump}
use easy_job.Prelude.Outcome.{ensured, if-Ensures}
use easy_job.Prelude.{ap, length, All-append}
use easy_job.Scheduler.Queue.{peek_valid}
use easy_job.Scheduler.Queue.Tracking.{peek_valid-Tracks}
use easy_job.Scheduler.Reroll.{
  Reply, reroll_found, reroll_task, reroll_trigger, Rerolling, reroll_queue,
}
use easy_job.Scheduler.Reroll.Tracking.{reroll_queue-Tracks}
use easy_job.Scheduler.Loop.{
  start, Input, shutdown, add, remove, trigger_now, reroll, deadline, interval_tick, arm, turn,
  is_shutdown, run,
}
use easy_job.Scheduler.Loop.Coverage.{IsCovered, Covers, Inv}
use easy_job.Scheduler.Loop.Arms.{
  start-Inv, add_task-Inv, remove_task-Inv, jump-Inv, fire-Inv, Fired,
}

module _ (n : ℕ) (tasks : Map Task) (h : n < 2 ^ 64 - 1) where
  abbrev Kept : ScheduleQueue × Reply → Type 0
  Kept r = Tracks (n + 1) (Covers tasks) r.0

  found-Kept :
      (ev : Evaluate) (last : Evaluation) (task_id : TaskId) (o : Option Trigger)
      (q : ScheduleQueue)
      → ((tr : Trigger) → o ≡ some tr → tr.enabled ≡ true → IsCovered tasks task_id tr.id)
      → Tracks n (Covers tasks) q
      → Ensures Kept (reroll_found ev last task_id o q)
  unfolding reroll_found
  found-Kept ev last task_id none q c t = Tracks-mono (omega arith) (λ x p. p) t
  found-Kept ev last task_id (some tr) q c t =
      if-Ensures Kept tr.enabled _ _
        (λ on.
          (>>=-Ensures (λ (r : Rerolling). Tracks (n + 1) (Covers tasks) r.queue) Kept
            (reroll_queue ev last task_id tr q) _
            (reroll_queue-Tracks n (IsCovered tasks) ev last task_id tr q h (c tr refl on) t)
            λ r g. g))
        (λ _. Tracks-mono (omega arith) (λ x p. p) t)

  task-Kept :
      (ev : Evaluate) (last : Evaluation) (task_id : TaskId) (trigger_id : TriggerId)
      (o : Option Task) (q : ScheduleQueue)
      → Map.get task_id tasks ≡ o
      → Tracks n (Covers tasks) q
      → Ensures Kept (reroll_task ev last task_id trigger_id o q)
  unfolding reroll_task
  task-Kept ev last task_id trigger_id none q e t = Tracks-mono (omega arith) (λ x p. p) t
  task-Kept ev last task_id trigger_id (some task) q e t =
      if-Ensures Kept task.enabled _ _
        (λ on.
          (found-Kept ev last task_id (find (has_id trigger_id) task.triggers) q
            (λ tr found enabled. record {
              task = task;
              registered = e;
              task_enabled = on;
              trigger = tr;
              listed = find-Memᴰ (has_id trigger_id) task.triggers tr found;
              named = refl;
              trigger_enabled = enabled;
            })
            t))
        (λ _. Tracks-mono (omega arith) (λ x p. p) t)

  reroll-Kept :
      (ev : Evaluate) (last : Evaluation) (task_id : TaskId) (trigger_id : TriggerId)
      (q : ScheduleQueue)
      → Tracks n (Covers tasks) q
      → Ensures Kept (reroll_trigger ev last tasks task_id trigger_id q)
  unfolding reroll_trigger
  reroll-Kept ev last task_id trigger_id q =
      task-Kept ev last task_id trigger_id (Map.get task_id tasks) q refl

abbrev pub Adds : TaskId → Input → Type 0
Adds id (add ev task) = task.id ≡ id
Adds id _ = ⊥

-- What one turn guarantees: the invariant, the events, and that a task that is not registered is
-- registered only by an `add`.
abbrev After : ℕ → LoopState → Input → LoopState × List TriggerEvent → Type 0
After n s input r =
    Inv (n + 1) r.0
    × All (Fired s.registered_tasks) r.1
    × ((id : TaskId)
        → ¬ Adds id input
        → Map.get id s.registered_tasks ≡ none
        → Map.get id r.0.registered_tasks ≡ none)

Inv-mono : {n m : ℕ} {s : LoopState} → n ≤ m → Inv n s → Inv m s
Inv-mono le v = record {
  tracks = Tracks-mono le (λ x p. p) v.tracks;
  distinct = v.distinct;
  keyed = v.keyed;
}

module _ (n : ℕ) (h : n < 2 ^ 64 - 1) where
  Inv-later : (s : LoopState) → Inv n s → Inv (n + 1) s
  Inv-later s v = Inv-mono (omega arith) v

  arm-After :
      (input : Input) (next : Option ScheduledItem) (s : LoopState)
      → Inv n s
      → Ensures (After n s input) (arm input next s)
  unfolding arm
  arm-After shutdown next s v = (Inv-later s v, tt, λ id _ e. e)
  arm-After (add ev task) next s v =
      >>=-Ensures _ (After n s (add ev task)) (add_task ev task s) _ (add_task-Inv n ev task s h v)
        λ t a. (
          a.0,
          tt,
          λ id other e.
              ap (Map.get id) a.1 ∙ get-insert task.id id task s.registered_tasks ∙ ground arith,
        )
  arm-After (remove id) next s v = (
    remove_task-Inv n id s h v,
    tt,
    λ j _ e. unfold remove_task in (get-remove id j s.registered_tasks ∙ ground arith),
  )
  arm-After (trigger_now id now) next s v = (Inv-later s v, ((λ k e'. cc), tt), λ j _ e. e)
  arm-After (reroll ev last task_id trigger_id) next s v =
      >>=-Ensures (Kept n s.registered_tasks h) (After n s (reroll ev last task_id trigger_id)) _ _
        (reroll-Kept n s.registered_tasks h ev last task_id trigger_id s.queue v.tracks)
        λ r t. (record { tracks = t; distinct = v.distinct; keyed = v.keyed }, tt, λ id _ e. e)
  arm-After (deadline ev) none s v = (Inv-later s v, tt, λ id _ e. e)
  arm-After (deadline ev) (some item) s v =
      Ensures-map _ (After n s (deadline ev)) (fire ev s (pop s.queue))
        (fire-Inv n ev s (pop s.queue) v (pop-Tracks s.queue v.tracks)
          (λ x e. popped-Tracks s.queue x v.tracks e))
        λ r f. (Inv-later r.0 f.0, f.2, λ id _ e. ap (Map.get id) f.1 ∙ e)
  arm-After (interval_tick ev t) next s v =
      >>=-Ensures _ (After n s (interval_tick ev t)) (jump ev t s) _ (jump-Inv n ev t s v)
        λ u j. (Inv-later u j.0, tt, λ id _ e. ap (Map.get id) j.1 ∙ e)

  pub turn-After :
      (input : Input) (s : LoopState) → Inv n s → Ensures (After n s input) (turn input s)
  unfolding turn
  turn-After input s v =
      arm-After input _ (record s { queue = (peek_valid s.queue).1 })
        (record {
          tracks = peek_valid-Tracks s.queue v.tracks;
          distinct = v.distinct;
          keyed = v.keyed;
        })

-- What a run from `s` guarantees: the invariant, and for a task that is not registered and that no
-- input adds, that it stays so and that no deadline fires it.
abbrev pub RunAfter : ℕ → List Input → LoopState → TaskId → LoopState × List TriggerEvent → Type 0
RunAfter n inputs s id r =
    Inv (n + length inputs) r.0
    × (All (λ input. ¬ Adds id input) inputs
        → Map.get id s.registered_tasks ≡ none
        → All (λ (e : TriggerEvent). e.task_id ≡ id → e.trigger_id ≡ none) r.1)

not-Fired :
    (tasks : Map Task) (id : TaskId) (events : List TriggerEvent)
    → Map.get id tasks ≡ none
    → All (Fired tasks) events
    → All (λ (e : TriggerEvent). e.task_id ≡ id → e.trigger_id ≡ none) events
not-Fired tasks id events absent fired =
    All-map _ _ events
      (λ e f same. elim (Option-cases e.trigger_id) [
        | inl none_asked ↦ none_asked
        | inr (k, by) ↦ absurd (
            let covered : IsCovered tasks e.task_id k = f k by in
            cc (covered.registered, ap (λ j. Map.get j tasks) same))
      ])
      fired

pub run-After :
    (inputs : List Input) (n : ℕ) (s : LoopState) (id : TaskId)
    → n + length inputs < 2 ^ 64
    → Inv n s
    → Ensures (RunAfter n inputs s id) (run inputs s)
unfolding run
run-After [] n s id h v = (Inv-mono (omega arith) v, λ _ _. tt)
run-After (input ∷ inputs) n s id h v =
    if-Ensures (RunAfter n (input ∷ inputs) s id) (is_shutdown input) _ _
      (λ _. (Inv-mono (omega arith) v, λ _ _. tt))
      λ _.
        >>=-Ensures (After n s input) (RunAfter n (input ∷ inputs) s id) (turn input s) _
          (turn-After n (omega arith) input s v)
          λ r a.
            >>=-Ensures (RunAfter (n + 1) inputs r.0 id) (RunAfter n (input ∷ inputs) s id)
              (run inputs r.0) _ (run-After inputs (n + 1) r.0 id (omega arith) a.0)
              λ r' b. (
                Inv-mono (omega arith) b.0,
                λ others absent.
                    All-append _ r.1 r'.1 (not-Fired s.registered_tasks id r.1 absent a.1)
                      (b.1 others.1 (a.2 id others.0 absent)),
              )

-- From the start, after any inputs, fewer than `2 ^ 64 - 1` of them, unless an evaluation panics:
-- each valid item of the queue is for an enabled trigger of an enabled registered task, the heap is
-- ordered, each task is registered once and under its own id, and no generation has wrapped round.
pub run-Inv :
    (now instant : ℕ) (inputs : List Input) (s : LoopState) (events : List TriggerEvent)
    → length inputs < 2 ^ 64 - 1
    → run inputs (start now instant) ≡ returns (s, events)
    → Inv (1 + length inputs) s
run-Inv now instant inputs s events h e =
    (ensured _ _ _ (run-After inputs 1 (start now instant) 0 (omega arith) (start-Inv now instant))
      e).0
