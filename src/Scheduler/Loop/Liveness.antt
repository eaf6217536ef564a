-- ===== src/Scheduler/Loop/Liveness.antt =====
-- What a task that is added has in the queue.
use easy_job.Prelude.{
  ℕ, ◌+◌, ◌≡◌, refl, sym, ap, subst, ◌∙◌, ◌⊎◌, true, Option, none, some, List, [], ◌∷◌, arith, inl,
  inr,
}
use easy_job.Prelude.Outcome.{
  returns, panics, ◌>>=◌, Ensures, >>=-Ensures, Ensures-map, if-Ensures, ensured,
}
use easy_job.Domain.Trigger.{DateTime, Trigger}
use easy_job.Domain.Task.{Task}
use easy_job.Scheduler.Evaluator.{Evaluation}
use easy_job.Scheduler.Queue.{ScheduleQueue, push, current_generation, bump_generation}
use easy_job.Scheduler.Queue.Pop.{current_generation-bump}
use easy_job.Scheduler.Reroll.{Evaluate, item_of}
use easy_job.Scheduler.Loop.{LoopState, push_next, push_trigger, push_triggers, push_task, add_task}
use easy_job.Scheduler.Queue.Contents.{
  IsQueued, Extends, extend_twice, push-Extends, push-IsQueued, stays,
}

-- The trigger stands at the index `j` of the list, whose first index is `i`.
abbrev pub StandsAt : ℕ → List Trigger → ℕ → Trigger → Type 0
StandsAt i [] j tr = ⊥
StandsAt i (t ∷ trs) j tr = ((j ≡ i) × (tr ≡ t)) ⊎ StandsAt (i + 1) trs j tr

module _ (ev : Evaluate) (task_id gen : ℕ) where
  abbrev Pushed : Trigger → ScheduleQueue → Evaluation → ScheduleQueue → Type 0
  Pushed tr q e q' =
      Extends q q'
      × ((next : DateTime) → e ≡ returns (some next) → IsQueued q' (item_of task_id gen tr next))

  evaluated-Pushed :
      (e : Evaluation) (tr : Trigger) (q : ScheduleQueue)
      → current_generation q task_id ≡ gen
      → Ensures
          (Pushed tr q e)
          (e >>= λ (next : Option DateTime). returns (push_next task_id gen tr q next))
  evaluated-Pushed (returns none) tr q g = (stays q, λ next e. cc)
  evaluated-Pushed (returns (some at)) tr q g = (
    push-Extends (item_of task_id gen tr at) q,
    λ next e.
        let same : at ≡ next = ground arith in
        subst (λ u. IsQueued (push (item_of task_id gen tr at) q) (item_of task_id gen tr u)) same
          (push-IsQueued (item_of task_id gen tr at) q (sym g)),
  )
  evaluated-Pushed panics tr q g = tt

  push_trigger-Extends :
      (e : Evaluation) (tr : Trigger) (q : ScheduleQueue)
      → current_generation q task_id ≡ gen
      → Ensures
          (λ (q' : ScheduleQueue).
            Extends q q'
            × (tr.enabled ≡ true
                → (next : DateTime) → e ≡ returns (some next)
                → IsQueued q' (item_of task_id gen tr next)))
          (push_trigger e task_id gen tr q)
  unfolding push_trigger
  push_trigger-Extends e tr q g =
      if-Ensures _ tr.enabled _ _
        (λ on. Ensures-map (Pushed tr q e) _ _ (evaluated-Pushed e tr q g) λ q' v. (v.0, λ _. v.1))
        (λ off. (stays q, λ on. cc))

  push_triggers-IsQueued :
      (i : ℕ) (trs : List Trigger) (q : ScheduleQueue)
      → current_generation q task_id ≡ gen
      → Ensures
          (λ (q' : ScheduleQueue).
            Extends q q'
            × ((j : ℕ) (tr : Trigger) (next : DateTime)
                → StandsAt i trs j tr
                → tr.enabled ≡ true
                → ev j tr.kind ≡ returns (some next)
                → IsQueued q' (item_of task_id gen tr next)))
          (push_triggers ev i task_id gen trs q)
  unfolding push_triggers
  push_triggers-IsQueued i [] q g = (((λ y m. m), (λ id. refl)), λ j tr next at on e. absurd at)
  push_triggers-IsQueued i (t ∷ trs) q g =
      >>=-Ensures _ _ (push_trigger (ev i t.kind) task_id gen t q) _
        (push_trigger-Extends (ev i t.kind) t q g)
        λ r a.
          Ensures-map _ _ (push_triggers ev (i + 1) task_id gen trs r)
            (push_triggers-IsQueued (i + 1) trs r (a.0.1 task_id ∙ g))
            λ r' b. (
              extend_twice q r r' a.0 b.0,
              λ j tr next at on e. elim at [
                | inl (here, same) ↦
                    subst (λ u. IsQueued r' (item_of task_id gen u next)) (sym same)
                      (b.0.0 (item_of task_id gen t next) (
                        a.1 (ap (λ (u : Trigger). u.enabled) (sym same) ∙ on) next (
                          subst (λ u. ev i u.kind ≡ returns (some next)) same
                            (subst (λ k. ev k tr.kind ≡ returns (some next)) here e))))
                | inr later ↦ b.1 j tr next later on e
              ],
            )

module _ (ev : Evaluate) (task : Task) (j : ℕ) (tr : Trigger) (next : DateTime)
    (on : task.enabled ≡ true) (at : StandsAt 0 task.triggers j tr) (enabled : tr.enabled ≡ true)
    (e : ev j tr.kind ≡ returns (some next)) where
  abbrev HasIt : ScheduleQueue → Type 0
  HasIt q = IsQueued q (item_of task.id (current_generation q task.id) tr next)

  push_task-HasIt :
      (gen : ℕ) (q : ScheduleQueue)
      → current_generation q task.id ≡ gen
      → Ensures HasIt (push_task ev task gen q)
  unfolding push_task
  push_task-HasIt gen q g =
      if-Ensures HasIt task.enabled _ _
        (λ _.
          Ensures-map _ HasIt (push_triggers ev 0 task.id gen task.triggers q)
            (push_triggers-IsQueued ev task.id gen 0 task.triggers q g)
            λ r v.
              subst (λ k. IsQueued r (item_of task.id k tr next)) (sym (v.0.1 task.id ∙ g))
                (v.1 j tr next at enabled e))
        (λ off. absurd (cc))

  add_task-HasIt : (s : LoopState) → Ensures (λ (t : LoopState). HasIt t.queue) (add_task ev task s)
  unfolding add_task
  add_task-HasIt s =
      let bumped : current_generation (bump_generation task.id s.queue).1 task.id
          ≡ (bump_generation task.id s.queue).0 =
        current_generation-bump task.id task.id s.queue ∙ ground arith in
      >>=-Ensures HasIt (λ (t : LoopState). HasIt t.queue) _ _
        (push_task-HasIt (bump_generation task.id s.queue).0 (bump_generation task.id s.queue).1
          bumped)
        λ q v. v

-- After `add_task`, for an enabled task, each enabled trigger that has a next occurrence, by the
-- evaluation at its place in the task, is in the queue with that time, in the task's current
-- generation, whatever the queue held before.
pub add_task-IsQueued :
    (ev : Evaluate) (task : Task) (s t : LoopState) (j : ℕ) (tr : Trigger) (next : DateTime)
    → add_task ev task s ≡ returns t
    → task.enabled ≡ true
    → StandsAt 0 task.triggers j tr
    → tr.enabled ≡ true
    → ev j tr.kind ≡ returns (some next)
    → IsQueued t.queue (item_of task.id (current_generation t.queue task.id) tr next)
add_task-IsQueued ev task s t j tr next added on at enabled e =
    ensured _ _ _ (add_task-HasIt ev task j tr next on at enabled e s) added
