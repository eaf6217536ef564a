-- ===== src/Scheduler/Queue/Contents.antt =====
-- `push` keeps the valid items of the queue and adds its own.
use mathlib.Core.List.{Memᴰ}
use easy_job.Prelude.{
  ◌≡◌, refl, ap, ◌∙◌, Bool, true, false, ◌==◌, if◌then◌else◌, List, [], ◌∷◌, arith, Bool-cases, inl,
  inr,
}
use easy_job.Domain.Trigger.{TaskId}
use easy_job.Scheduler.Queue.{
  ScheduledItem, ScheduleQueue, cmp, is_less, with_entry, heap_push, push, is_valid,
  current_generation,
}
use easy_job.Scheduler.Queue.Pop.{current_generation-push}

pub heap_push_here : (x : ScheduledItem) (xs : List ScheduledItem) → Memᴰ x (heap_push x xs)
unfolding heap_push
heap_push_here x [] = Memᴰ.head refl
heap_push_here x (y ∷ ys) = elim (Bool-cases (is_less (cmp x y))) [
  | inl e ↦ simp e (Memᴰ.tail (heap_push_here x ys))
  | inr e ↦ simp e (Memᴰ.head refl)
]

pub heap_push_keeps :
    (x y : ScheduledItem) (xs : List ScheduledItem) → Memᴰ y xs → Memᴰ y (heap_push x xs)
unfolding heap_push
heap_push_keeps x y [] m = absurd (elim m [ ])
heap_push_keeps x y (z ∷ zs) m = go (is_less (cmp x z)) (heap_push_keeps x y zs) m
  where
    go :
        (b : Bool)
        → (Memᴰ y zs → Memᴰ y (heap_push x zs))
        → Memᴰ y (z ∷ zs)
        → Memᴰ y (if b then z ∷ heap_push x zs else x ∷ z ∷ zs)
    go true later (Memᴰ.head e) = Memᴰ.head e
    go true later (Memᴰ.tail m') = Memᴰ.tail (later m')
    go false later m' = Memᴰ.tail m'

-- The item is in the queue, and valid.
abbrev pub IsQueued : ScheduleQueue → ScheduledItem → Type 0
IsQueued q x = Memᴰ x q.heap × (is_valid q x ≡ true)

-- No valid item is lost and no generation changes.
abbrev pub Extends : ScheduleQueue → ScheduleQueue → Type 0
Extends q q' =
    ((y : ScheduledItem) → IsQueued q y → IsQueued q' y)
    × ((id : TaskId) → current_generation q' id ≡ current_generation q id)

pub extend_twice : (q r t : ScheduleQueue) → Extends q r → Extends r t → Extends q t
extend_twice q r t e f = ((λ y m. f.0 y (e.0 y m)), (λ id. f.1 id ∙ e.1 id))

is_valid-push : (x y : ScheduledItem) (q : ScheduleQueue) → is_valid (push x q) y ≡ is_valid q y
unfolding is_valid
is_valid-push x y q = ap (λ g. g == y.generation) (current_generation-push x q y.task_id)

pub push_keeps : (x y : ScheduledItem) (q : ScheduleQueue) → Memᴰ y q.heap → Memᴰ y (push x q).heap
unfolding push
push_keeps x y q m = go (x.generation == current_generation q x.task_id)
  where
    go :
        (b : Bool)
        → Memᴰ y
            (if b
              then record (with_entry x.task_id q) { heap = heap_push x q.heap }
              else with_entry x.task_id q).heap
    go true = heap_push_keeps x y q.heap m
    go false = m

push_here :
    (x : ScheduledItem) (q : ScheduleQueue)
    → (x.generation == current_generation q x.task_id) ≡ true
    → Memᴰ x (push x q).heap
unfolding push
push_here x q e = go (x.generation == current_generation q x.task_id) e
  where
    go :
        (b : Bool)
        → b ≡ true
        → Memᴰ x
            (if b
              then record (with_entry x.task_id q) { heap = heap_push x q.heap }
              else with_entry x.task_id q).heap
    go true t = heap_push_here x q.heap
    go false t = cc

pub push-Extends : (x : ScheduledItem) (q : ScheduleQueue) → Extends q (push x q)
push-Extends x q = (
  (λ y m. (push_keeps x y q m.0, is_valid-push x y q ∙ m.1)),
  (λ id. current_generation-push x q id),
)

pub push-IsQueued :
    (x : ScheduledItem) (q : ScheduleQueue)
    → x.generation ≡ current_generation q x.task_id
    → IsQueued (push x q) x
push-IsQueued x q e =
    (push_here x q (ground arith), is_valid-push x x q ∙ unfold is_valid in ground arith)

pub stays : (q : ScheduleQueue) → Extends q q
stays q = ((λ y m. m), (λ id. refl))
