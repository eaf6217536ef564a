-- ===== src/Scheduler/Queue/Order.antt =====
-- The order of the heap.
use mathlib.Core.List.Perm
use mathlib.Core.List.{Perm}
use easy_job.Prelude.{
  ◌≤◌, ◌≡◌, ◌==◌, true, false, List, [], ◌∷◌, All, All-map, arith, Bool-cases, inl, inr, some,
}
use easy_job.Domain.Trigger.{TaskId}
use easy_job.Scheduler.Queue.{
  ScheduledItem, ScheduleQueue, cmp, is_less, heap_push, new, push, pop_valid, pop, drop_stale,
  peek_valid, bump_generation, split_task, take_task_items, clear, is_valid, current_generation,
}

-- No item fires before one that stands ahead of it.
abbrev pub IsOrdered : List ScheduledItem → Type 0
IsOrdered [] = Unit {0}
IsOrdered (x ∷ xs) = All (λ y. x.next_fire_at ≤ y.next_fire_at) xs × IsOrdered xs

cmp_less : (x y : ScheduledItem) → is_less (cmp x y) ≡ true → y.next_fire_at ≤ x.next_fire_at
unfolding cmp
cmp_less x y h = ground arith

cmp_not_less : (x y : ScheduledItem) → is_less (cmp x y) ≡ false → x.next_fire_at ≤ y.next_fire_at
unfolding cmp
cmp_not_less x y h = ground arith

pub All-heap_push {ℓ} :
    (P : ScheduledItem → Type ℓ) (x : ScheduledItem) (xs : List ScheduledItem)
    → P x
    → All P xs
    → All P (heap_push x xs)
unfolding heap_push
All-heap_push P x [] p h = (p, tt)
All-heap_push P x (y ∷ ys) p h = elim (Bool-cases (is_less (cmp x y))) [
  | inl e ↦ rw e (h.0, All-heap_push P x ys p h.1)
  | inr e ↦ rw e (p, h)
]

pub heap_push-IsOrdered :
    (x : ScheduledItem) (xs : List ScheduledItem) → IsOrdered xs → IsOrdered (heap_push x xs)
unfolding heap_push
heap_push-IsOrdered x [] o = (tt, tt)
heap_push-IsOrdered x (y ∷ ys) o = elim (Bool-cases (is_less (cmp x y))) [
  | inl e ↦ rw e (
    All-heap_push (λ z. y.next_fire_at ≤ z.next_fire_at) x ys (cmp_less x y e) o.0,
    heap_push-IsOrdered x ys o.1,
  )
  | inr e ↦
      let first : x.next_fire_at ≤ y.next_fire_at = cmp_not_less x y e in
      rw e ((first, All-map _ _ ys (λ z h. omega arith) o.0), o)
]

pub heap_push-perm : (x : ScheduledItem) (xs : List ScheduledItem) → Perm (heap_push x xs) (x ∷ xs)
unfolding heap_push
heap_push-perm x [] = Perm.rfl
heap_push-perm x (y ∷ ys) = elim (Bool-cases (is_less (cmp x y))) [
  | inl e ↦ rw e (Perm.trans (Perm.cons y (heap_push-perm x ys)) (Perm.swap x y ys))
  | inr e ↦ rw e Perm.rfl
]

pub All-push {ℓ} :
    (P : ScheduledItem → Type ℓ) (x : ScheduledItem) (q : ScheduleQueue)
    → (x.generation ≡ current_generation q x.task_id → P x)
    → All P q.heap
    → All P (push x q).heap
unfolding push
All-push P x q p h = elim (Bool-cases (x.generation == current_generation q x.task_id)) [
  | inl e ↦ rw e (All-heap_push P x q.heap (p (ground arith)) h)
  | inr e ↦ rw e h
]

module _ {ℓ} (P : ScheduledItem → Type ℓ) where
  pub All-pop_valid :
      (q : ScheduleQueue) (xs : List ScheduledItem) → All P xs → All P (pop_valid q xs).1
  unfolding pop_valid
  All-pop_valid q [] h = h
  All-pop_valid q (x ∷ xs) h = elim (Bool-cases (is_valid q x)) [
    | inl e ↦ rw e (h.1)
    | inr e ↦ rw e (All-pop_valid q xs h.1)
  ]

  pub All-drop_stale :
      (q : ScheduleQueue) (xs : List ScheduledItem) → All P xs → All P (drop_stale q xs)
  unfolding drop_stale
  All-drop_stale q [] h = h
  All-drop_stale q (x ∷ xs) h = elim (Bool-cases (is_valid q x)) [
    | inl e ↦ rw e h
    | inr e ↦ rw e (All-drop_stale q xs h.1)
  ]

  pub All-split_task :
      (id : TaskId) (xs : List ScheduledItem)
      → All P xs
      → All P (split_task id xs).0 × All P (split_task id xs).1
  unfolding split_task
  All-split_task id [] h = (h, h)
  All-split_task id (x ∷ xs) h =
      let (taken, kept) = All-split_task id xs h.1 in
      elim (Bool-cases (x.task_id == id)) [
        | inl e ↦ rw e ((h.0, taken), kept)
        | inr e ↦ rw e (taken, All-heap_push P x _ h.0 kept)
      ]

  -- What `pop` returns is one of the items, and a valid one.
  pub All-popped :
      (q : ScheduleQueue) (xs : List ScheduledItem) (x : ScheduledItem)
      → All P xs
      → (pop_valid q xs).0 ≡ some x
      → P x × (is_valid q x ≡ true)
  unfolding pop_valid
  All-popped q [] x h e = cc
  All-popped q (y ∷ xs) x h e = ground (arith, All-popped q xs x h.1)

pub push-IsOrdered :
    (x : ScheduledItem) (q : ScheduleQueue) → IsOrdered q.heap → IsOrdered (push x q).heap
unfolding push
push-IsOrdered x q o = elim (Bool-cases (x.generation == current_generation q x.task_id)) [
  | inl e ↦ rw e (heap_push-IsOrdered x q.heap o)
  | inr e ↦ rw e o
]

pub pop_valid-IsOrdered :
    (q : ScheduleQueue) (xs : List ScheduledItem) → IsOrdered xs → IsOrdered (pop_valid q xs).1
unfolding pop_valid
pop_valid-IsOrdered q [] o = o
pop_valid-IsOrdered q (x ∷ xs) o = elim (Bool-cases (is_valid q x)) [
  | inl e ↦ rw e (o.1)
  | inr e ↦ rw e (pop_valid-IsOrdered q xs o.1)
]

pub drop_stale-IsOrdered :
    (q : ScheduleQueue) (xs : List ScheduledItem) → IsOrdered xs → IsOrdered (drop_stale q xs)
unfolding drop_stale
drop_stale-IsOrdered q [] o = o
drop_stale-IsOrdered q (x ∷ xs) o = elim (Bool-cases (is_valid q x)) [
  | inl e ↦ rw e o
  | inr e ↦ rw e (drop_stale-IsOrdered q xs o.1)
]

pub split_task-IsOrdered : (id : TaskId) (xs : List ScheduledItem) → IsOrdered (split_task id xs).1
unfolding split_task
split_task-IsOrdered id [] = tt
split_task-IsOrdered id (x ∷ xs) = elim (Bool-cases (x.task_id == id)) [
  | inl e ↦ rw e (split_task-IsOrdered id xs)
  | inr e ↦ rw e (heap_push-IsOrdered x _ (split_task-IsOrdered id xs))
]

-- The heap of a new queue is in the order in which `pop` yields, earliest first, and every operation
-- that changes the queue keeps it so.
pub operations-IsOrdered :
    (q : ScheduleQueue) (x : ScheduledItem) (id : TaskId)
    → IsOrdered q.heap
    → IsOrdered new.heap
      × IsOrdered (push x q).heap
      × IsOrdered (pop q).1.heap
      × IsOrdered (peek_valid q).1.heap
      × IsOrdered (bump_generation id q).1.heap
      × IsOrdered (take_task_items id q).1.heap
      × IsOrdered (clear q).heap
unfolding new pop peek_valid bump_generation take_task_items clear
operations-IsOrdered q x id o = (
  tt,
  push-IsOrdered x q o,
  pop_valid-IsOrdered q q.heap o,
  drop_stale-IsOrdered q q.heap o,
  o,
  split_task-IsOrdered id q.heap,
  tt,
)
