-- ===== src/Scheduler/Queue/Overview.antt =====
-- `next_fire_by_trigger`, `take_task_items` and the items of one task.
use mathlib.Core.List.{Perm, Memᴰ, perm_middle}
use mathlib.Core.List.Perm
use easy_job.Prelude.{
  ℕ, ◌≤◌, ◌≡◌, ◌≢◌, refl, ◌∙◌, ◌⊎◌, ◌==◌, ltb, Bool, true, false, if◌then◌else◌, List, [], ◌∷◌,
  ◌++◌, Option, none, some, All, arith, Bool-cases, inl, inr, keep_if, map,
}
use easy_job.Domain.Trigger.{TaskId, TriggerId, DateTime}
use easy_job.Scheduler.Queue.{
  ScheduledItem, ScheduleQueue, FireTimes, is_valid, current_generation, bump_generation, same_key,
  next_fire, keep_earliest, collect_times, next_fire_by_trigger, split_task, take_task_items, push,
}
use easy_job.Scheduler.Queue.Order.{All-heap_push, heap_push-perm}
use easy_job.Scheduler.Queue.Pop.{current_generation-bump}

abbrev least_with : DateTime → Option DateTime → DateTime
least_with at none = at
least_with at (some t) = if ltb at t then at else t

abbrev fold_least : Option DateTime → List DateTime → Option DateTime
fold_least o [] = o
fold_least o (t ∷ ts) = fold_least (some (least_with t o)) ts

abbrev pub matches : ScheduleQueue → TaskId → TriggerId → ScheduledItem → Bool
matches q a b x = if is_valid q x then same_key x.task_id x.trigger_id a b else false

-- The times of the valid items of one trigger.
abbrev pub times_of : ScheduleQueue → TaskId → TriggerId → List ScheduledItem → List DateTime
times_of q a b xs = map (λ (x : ScheduledItem). x.next_fire_at) (keep_if (matches q a b) xs)

next_fire-keep_earliest :
    (a b : ℕ) (x : ScheduledItem) (m : FireTimes)
    → next_fire a b (keep_earliest x m) ≡ (
        if same_key x.task_id x.trigger_id a b
        then some (least_with x.next_fire_at (next_fire a b m))
        else next_fire a b m)
unfolding next_fire keep_earliest
next_fire-keep_earliest a b x [] = ground arith
next_fire-keep_earliest a b x ((c, d, at) ∷ m) = ground (arith, next_fire-keep_earliest a b x m)

next_fire-collect_times :
    (q : ScheduleQueue) (a b : ℕ) (xs : List ScheduledItem) (m : FireTimes)
    → next_fire a b (collect_times q xs m) ≡ fold_least (next_fire a b m) (times_of q a b xs)
unfolding collect_times
next_fire-collect_times q a b [] m = refl
next_fire-collect_times q a b (x ∷ xs) m = elim (Bool-cases (is_valid q x)) [
  | inl e ↦ rw e (
      next_fire-collect_times q a b xs (keep_earliest x m)
      ∙ rw (next_fire-keep_earliest a b x m)
          (elim (Bool-cases (same_key x.task_id x.trigger_id a b)) [ inl k ↦ rw k | inr k ↦ rw k ]))
  | inr e ↦ rw e (next_fire-collect_times q a b xs m)
]

-- The least of a list of times, which is absent exactly when the list is empty.
abbrev pub IsLeast : Option DateTime → List DateTime → Type 0
IsLeast none ts = ts ≡ []
IsLeast (some t) ts = Memᴰ t ts × All (λ u. t ≤ u) ts

mem_widen :
    {v a t u : DateTime} {ts : List DateTime}
    → (a ≡ t) ⊎ (a ≡ u)
    → Memᴰ v (a ∷ ts)
    → Memᴰ v (t ∷ u ∷ ts)
mem_widen (inl e) (Memᴰ.head p) = Memᴰ.head (p ∙ e)
mem_widen (inr e) (Memᴰ.head p) = Memᴰ.tail (Memᴰ.head (p ∙ e))
mem_widen e (Memᴰ.tail m) = Memᴰ.tail (Memᴰ.tail m)

IsLeast-widen :
    (a t u : DateTime) (ts : List DateTime) (r : Option DateTime)
    → a ≤ t
    → a ≤ u
    → (a ≡ t) ⊎ (a ≡ u)
    → IsLeast r (a ∷ ts)
    → IsLeast r (t ∷ u ∷ ts)
IsLeast-widen a t u ts none below below' one h = cc
IsLeast-widen a t u ts (some v) below below' one h =
    (mem_widen one h.0, (omega arith, (omega arith, h.1.1)))

fold_least-IsLeast : (t : DateTime) (ts : List DateTime) → IsLeast (fold_least (some t) ts) (t ∷ ts)
fold_least-IsLeast t [] = (Memᴰ.head refl, (omega arith, tt))
fold_least-IsLeast t (u ∷ ts) =
    let a = least_with u (some t) in
    IsLeast-widen a t u ts (fold_least (some a) ts) (ground arith) (ground arith) (ground arith)
      (fold_least-IsLeast a ts)

fold_least-IsLeast-none : (ts : List DateTime) → IsLeast (fold_least none ts) ts
fold_least-IsLeast-none [] = refl
fold_least-IsLeast-none (t ∷ ts) = fold_least-IsLeast t ts

-- For every trigger the map holds the earliest time of its valid items in the heap, and holds none
-- exactly when the trigger has no valid item there; stale items do not count.
pub next_fire_by_trigger-IsLeast :
    (q : ScheduleQueue) (a : TaskId) (b : TriggerId)
    → IsLeast (next_fire a b (next_fire_by_trigger q)) (times_of q a b q.heap)
unfolding next_fire_by_trigger next_fire
next_fire_by_trigger-IsLeast q a b =
    rw (next_fire-collect_times q a b q.heap []) (fold_least-IsLeast-none (times_of q a b q.heap))

split_task-perm :
    (id : TaskId) (xs : List ScheduledItem) → Perm ((split_task id xs).0 ++ (split_task id xs).1) xs
unfolding split_task
split_task-perm id [] = Perm.rfl
split_task-perm id (x ∷ xs) =
    let rest = Perm.cons x (split_task-perm id xs) in
    elim (Bool-cases (x.task_id == id)) [
      | inl e ↦ rw e rest
      | inr e ↦ rw e (
          Perm.trans
            (Perm.append (Perm.refl (split_task id xs).0) (heap_push-perm x (split_task id xs).1))
            (Perm.trans (perm_middle (split_task id xs).0 (split_task id xs).1) rest))
    ]

split_task_sides :
    (id : TaskId) (xs : List ScheduledItem)
    → All (λ (x : ScheduledItem). x.task_id ≡ id) (split_task id xs).0
      × All (λ (x : ScheduledItem). x.task_id ≢ id) (split_task id xs).1
unfolding split_task
split_task_sides id [] = (tt, tt)
split_task_sides id (x ∷ xs) =
    let (taken, kept) = split_task_sides id xs in
    elim (Bool-cases (x.task_id == id)) [
      | inl e ↦ rw e ((ground arith, taken), kept)
      | inr e ↦ rw e (taken, All-heap_push _ x (split_task id xs).1 (ground arith) kept)
    ]

-- `take_task_items` loses no item and makes none up: the items taken are all of the task, those left
-- are all of other tasks, and together they are the items that the heap held. The generations stay.
pub take_task_items_lem :
    (id : TaskId) (q : ScheduleQueue)
    → Perm ((take_task_items id q).0 ++ (take_task_items id q).1.heap) q.heap
      × All (λ (x : ScheduledItem). x.task_id ≡ id) (take_task_items id q).0
      × All (λ (x : ScheduledItem). x.task_id ≢ id) (take_task_items id q).1.heap
      × ((take_task_items id q).1.generations ≡ q.generations)
unfolding take_task_items
take_task_items_lem id q =
    let (taken, kept) = split_task_sides id q.heap in (split_task-perm id q.heap, taken, kept, refl)

-- Bumping the generation of a task makes each of its valid items stale, whatever the counter's value
-- and also where it wraps, and leaves the items of every other task as valid or stale as they were.
pub bump_generation_stales :
    (id : TaskId) (q : ScheduleQueue) (x : ScheduledItem)
    → (x.task_id ≡ id → is_valid q x ≡ true → is_valid (bump_generation id q).1 x ≡ false)
      × (x.task_id ≢ id → is_valid (bump_generation id q).1 x ≡ is_valid q x)
unfolding is_valid
bump_generation_stales id q x = (
  (λ e v. unfold bump_generation in ground (arith, current_generation-bump id x.task_id q)),
  (λ n. ground (arith, current_generation-bump id x.task_id q)),
)

-- An item enters the heap exactly when it carries its task's current generation; otherwise `push`
-- leaves the heap as it is.
push-perm :
    (x : ScheduledItem) (q : ScheduleQueue)
    → (is_valid q x ≡ true → Perm (push x q).heap (x ∷ q.heap))
      × (is_valid q x ≡ false → (push x q).heap ≡ q.heap)
unfolding push is_valid
push-perm x q = (
  (λ v.
      rw (let e : (x.generation == current_generation q x.task_id) ≡ true = ground arith in e)
        (heap_push-perm x q.heap)),
  (λ v. ground arith),
)
