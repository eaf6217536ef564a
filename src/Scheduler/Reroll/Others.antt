-- ===== src/Scheduler/Reroll/Others.antt =====
-- What `reroll_trigger` does to the items of the task's other triggers and of the other tasks.
use mathlib.Core.List.{Memᴰ}
use easy_job.Prelude.{
  ℕ, ◌+◌, ◌≡◌, ◌≢◌, refl, sym, ap, subst, ◌∙◌, true, false, Bool, ◌==◌, if◌then◌else◌, Option, none,
  some, List, [], ◌∷◌, keep_if, arith,
}
use easy_job.Prelude.Outcome.{
  returns, ensured, Ensures, Ensures-map, if-Ensures, >>=-Ensures, >>=-Ensures_any,
}
use easy_job.Domain.Trigger.{TaskId, DateTime, Trigger}
use easy_job.Scheduler.Evaluator.{Evaluation}
use easy_job.Scheduler.Queue.{
  ScheduledItem, ScheduleQueue, heap_push, bump_generation, current_generation, take_task_items,
  split_task, is_valid,
}
use easy_job.Scheduler.Queue.Pop.{current_generation-bump}
use easy_job.Scheduler.Queue.Overview.{bump_generation_stales}
use easy_job.Scheduler.Queue.Contents.{
  IsQueued, Extends, extend_twice, push-Extends, push-IsQueued, stays, heap_push_here,
  heap_push_keeps,
}
use easy_job.Scheduler.Reroll.{
  Evaluate, item_of, Rerolling, renew, reroll_target, reroll_item, reroll_items, reroll_absent,
  finish_reroll, reroll_queue,
}

keep_if-Memᴰ {ℓ} :
    {A : Type ℓ} (p : A → Bool) (xs : List A) (x : A)
    → Memᴰ x xs
    → p x ≡ true
    → Memᴰ x (keep_if p xs)
keep_if-Memᴰ p [] x m h = absurd (elim m [ ])
keep_if-Memᴰ p (y ∷ ys) x m h = go (p y) refl (keep_if-Memᴰ p ys x) m
  where
    go :
        (b : Bool)
        → p y ≡ b
        → (Memᴰ x ys → p x ≡ true → Memᴰ x (keep_if p ys))
        → Memᴰ x (y ∷ ys)
        → Memᴰ x (if b then y ∷ keep_if p ys else keep_if p ys)
    go true e later (Memᴰ.head s) = Memᴰ.head s
    go true e later (Memᴰ.tail m') = Memᴰ.tail (later m' h)
    go false e later (Memᴰ.head s) = absurd (let t : p x ≡ p y = ap p s in cc)
    go false e later (Memᴰ.tail m') = later m' h

abbrev Sides : TaskId → ScheduledItem → List ScheduledItem × List ScheduledItem → Type 0
Sides id x r = (x.task_id ≡ id → Memᴰ x r.0) × (x.task_id ≢ id → Memᴰ x r.1)

split_task-Sides :
    (id : TaskId) (xs : List ScheduledItem) (x : ScheduledItem)
    → Memᴰ x xs
    → Sides id x (split_task id xs)
unfolding split_task
split_task-Sides id [] x m = absurd (elim m [ ])
split_task-Sides id (y ∷ ys) x m = go (y.task_id == id) refl (split_task-Sides id ys x) m
  where
    go :
        (b : Bool)
        → (y.task_id == id) ≡ b
        → (Memᴰ x ys → Sides id x (split_task id ys))
        → Memᴰ x (y ∷ ys)
        → Sides id x (
            if b
            then (y ∷ (split_task id ys).0, (split_task id ys).1)
            else ((split_task id ys).0, heap_push y (split_task id ys).1))
    go true e later (Memᴰ.head s) = (
      (λ _. Memᴰ.head s),
      (λ other. absurd (other (ap (λ (z : ScheduledItem). z.task_id) s ∙ ground arith))),
    )
    go true e later (Memᴰ.tail m') = ((λ h. Memᴰ.tail ((later m').0 h)), (later m').1)
    go false e later (Memᴰ.head s) = (
      (λ h. absurd (
          let t : y.task_id ≡ id = sym (ap (λ (z : ScheduledItem). z.task_id) s) ∙ h in
          ground arith)),
      (λ _.
          subst (λ z. Memᴰ z (heap_push y (split_task id ys).1)) (sym s)
            (heap_push_here y (split_task id ys).1)),
    )
    go false e later (Memᴰ.tail m') =
        ((later m').0, (λ h. heap_push_keeps y x (split_task id ys).1 ((later m').1 h)))

module _ (trigger : Trigger) (gen : ℕ) where
  target-Extends :
      (item : ScheduledItem) (r : Rerolling) (next : Option DateTime)
      → Extends r.queue (reroll_target item gen r next).queue
  target-Extends item r none = stays r.queue
  target-Extends item r (some at) =
      push-Extends (record item { next_fire_at = at; generation = gen }) r.queue

  abbrev Kept : ScheduledItem → ScheduleQueue → ScheduleQueue → Type 0
  Kept item q q' =
      Extends q q'
      × (item.trigger_id ≢ trigger.id
          → current_generation q item.task_id ≡ gen
          → IsQueued q' (renew item gen))

  reroll_item-Kept :
      (e : Evaluation) (item : ScheduledItem) (r : Rerolling)
      → Ensures
          (λ (r' : Rerolling). Kept item r.queue r'.queue)
          (reroll_item e trigger.id gen item r)
  unfolding reroll_item
  reroll_item-Kept e item r =
      if-Ensures _ (item.trigger_id == trigger.id) _ _
        (λ same.
          >>=-Ensures_any (λ (r' : Rerolling). Kept item r.queue r'.queue) e _
            λ next. (target-Extends item r next, λ other. absurd (ground arith)))
        (λ _. (
          push-Extends (renew item gen) r.queue,
          λ _ g. push-IsQueued (renew item gen) r.queue (sym g),
        ))

  reroll_items-Kept :
      (ev : Evaluate) (task_id : TaskId) (i : ℕ) (items : List ScheduledItem) (r : Rerolling)
      → current_generation r.queue task_id ≡ gen
      → Ensures
          (λ (r' : Rerolling).
            Extends r.queue r'.queue
            × ((x : ScheduledItem)
                → Memᴰ x items
                → x.task_id ≡ task_id
                → x.trigger_id ≢ trigger.id
                → IsQueued r'.queue (renew x gen)))
          (reroll_items ev i trigger gen items r)
  unfolding reroll_items
  reroll_items-Kept ev task_id i [] r g = (stays r.queue, λ x m. absurd (elim m [ ]))
  reroll_items-Kept ev task_id i (item ∷ items) r g =
      >>=-Ensures _ _ (reroll_item (ev i trigger.kind) trigger.id gen item r) _
        (reroll_item-Kept (ev i trigger.kind) item r)
        λ s a.
          Ensures-map _ _ (reroll_items ev (i + 1) trigger gen items s)
            (reroll_items-Kept ev task_id (i + 1) items s (a.0.1 task_id ∙ g))
            λ t b. (
              extend_twice r.queue s.queue t.queue a.0 b.0,
              λ x m own other. elim m [
                | Memᴰ.head same ↦
                    subst (λ y. IsQueued t.queue (renew y gen)) (sym same)
                      (b.0.0 (renew item gen) (
                        a.1 (subst (λ y. y.trigger_id ≢ trigger.id) same other) (
                          subst (λ k. current_generation r.queue k ≡ gen)
                            (sym own ∙ ap (λ (y : ScheduledItem). y.task_id) same) g)))
                | Memᴰ.tail later ↦ b.1 x later own other
              ],
            )

  finish_reroll-Extends :
      (last : Evaluation) (task_id : TaskId) (r : Rerolling)
      → Ensures
          (λ (r' : Rerolling). Extends r.queue r'.queue)
          (finish_reroll last task_id trigger gen r)
  unfolding finish_reroll
  finish_reroll-Extends last task_id r =
      if-Ensures _ r.target_rerolled _ _ (λ _. stays r.queue)
        (λ _. >>=-Ensures_any _ last _ (absent r))
    where
      absent :
          (r : Rerolling) (next : Option DateTime)
          → Extends r.queue (reroll_absent task_id trigger gen r next).queue
      absent r none = stays r.queue
      absent r (some at) = push-Extends (item_of task_id gen trigger at) r.queue

valid_current :
    (q : ScheduleQueue) (x : ScheduledItem) (id : TaskId)
    → is_valid q x ≡ true
    → x.task_id ≡ id
    → (x.generation == current_generation q id) ≡ true
unfolding is_valid
valid_current q x id v own =
    subst (λ k. (x.generation == current_generation q k) ≡ true) own (ground arith)

is_valid-heap :
    (q : ScheduleQueue) (h : List ScheduledItem) (x : ScheduledItem)
    → is_valid (record q { heap = h }) x ≡ is_valid q x
unfolding is_valid current_generation
is_valid-heap q h x = refl

bumped_heap : (id : TaskId) (q : ScheduleQueue) → (bump_generation id q).1.heap ≡ q.heap
unfolding bump_generation
bumped_heap id q = refl

reroll_queue-Kept :
    (ev : Evaluate) (last : Evaluation) (task_id : TaskId) (trigger : Trigger) (q : ScheduleQueue)
    → Ensures
        (λ (r : Rerolling).
          (x : ScheduledItem)
          → IsQueued q x
          → (x.task_id ≡ task_id
              → x.trigger_id ≢ trigger.id
              → IsQueued r.queue (renew x (current_generation r.queue task_id)))
            × (x.task_id ≢ task_id → IsQueued r.queue x))
        (reroll_queue ev last task_id trigger q)
unfolding reroll_queue take_task_items
reroll_queue-Kept ev last task_id trigger q =
    let taken = (split_task task_id q.heap).0 in
    let rest = record q { heap = (split_task task_id q.heap).1 } in
    let gen = (bump_generation task_id rest).0 in
    let bumped = (bump_generation task_id rest).1 in
    let now : current_generation bumped task_id ≡ gen =
      current_generation-bump task_id task_id rest ∙ ground arith in
    let r0 : Rerolling = record { queue = bumped; target_rerolled = false; new_next = none } in
    >>=-Ensures _ _
      (reroll_items ev 0 trigger gen
        (keep_if (λ (x : ScheduledItem). x.generation == current_generation q task_id) taken) r0)
      _ (reroll_items-Kept trigger gen ev task_id 0 _ r0 now)
      λ s a.
        Ensures-map _ _ (finish_reroll last task_id trigger gen s)
          (finish_reroll-Extends trigger gen last task_id s)
          λ t e x queued.
            let sides = split_task-Sides task_id q.heap x queued.0 in
            (
              λ own other.
                  subst (λ k. IsQueued t.queue (renew x k))
                    (sym (e.1 task_id ∙ a.0.1 task_id ∙ now))
                    (e.0 (renew x gen) (
                      a.1 x
                        (keep_if-Memᴰ _ taken x (sides.0 own)
                          (valid_current q x task_id queued.1 own))
                        own other)),
              λ away. e.0 x (
                  a.0.0 x (
                    subst (Memᴰ x) (sym (bumped_heap task_id rest)) (sides.1 away),
                    (bump_generation_stales task_id rest x).1 away
                        ∙ is_valid-heap q (split_task task_id q.heap).1 x
                        ∙ queued.1,
                  )),
            )

-- Where `reroll_trigger` has passed its checks and its evaluations return: every valid item of another
-- trigger of the task is in the queue afterwards, valid and with the time that it had, and so is
-- every valid item of any other task, as it was.
pub reroll_queue-IsQueued :
    (ev : Evaluate) (last : Evaluation) (task_id : TaskId) (trigger : Trigger) (q : ScheduleQueue)
    (r : Rerolling) (x : ScheduledItem)
    → reroll_queue ev last task_id trigger q ≡ returns r
    → IsQueued q x
    → (x.task_id ≡ task_id
        → x.trigger_id ≢ trigger.id
        → IsQueued r.queue (renew x (current_generation r.queue task_id)))
      × (x.task_id ≢ task_id → IsQueued r.queue x)
reroll_queue-IsQueued ev last task_id trigger q r x e queued =
    ensured _ _ _ (reroll_queue-Kept ev last task_id trigger q) e x queued
