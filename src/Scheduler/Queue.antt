-- ===== src/Scheduler/Queue.antt =====
-- crates/scheduler/src/queue.rs. The `BinaryHeap` of the standard library is the list of its items,
-- the greatest by `Ord` first, which is the order in which `pop` yields them; `iter` and `into_iter`
-- go through it in this order. A generation is a `u64` and wraps.
pub mod Order
pub mod Pop
pub mod Tracking
pub mod Overview
pub mod Contents
mod Examples
use easy_job.Prelude.{
  ℕ, ◌+◌, ◌%◌, ◌^◌, compare, Ordering, Bool, true, false, ◌==◌, ltb, if◌then◌else◌, Option, none,
  some, List, [], ◌∷◌, length, not,
}
use easy_job.Prelude.Map
use easy_job.Prelude.Map.{Map}
use easy_job.Domain.Trigger.{TaskId, TriggerId, DateTime}

pub record ScheduledItem : Type 0 where
  pub task_id : TaskId
  pub trigger_id : TriggerId
  pub next_fire_at : DateTime
  pub generation : ℕ

abbrev pub then_with : Ordering → Ordering → Ordering
then_with Ordering.eq o = o
then_with Ordering.lt o = Ordering.lt
then_with Ordering.gt o = Ordering.gt

-- `Ord::cmp`, reversed in the time so that the earliest item is the greatest.
unfoldable pub cmp : ScheduledItem → ScheduledItem → Ordering
cmp x other =
    then_with
      (then_with
        (then_with (compare other.next_fire_at x.next_fire_at) (compare x.task_id other.task_id))
        (compare x.trigger_id other.trigger_id))
      (compare x.generation other.generation)

abbrev pub is_less : Ordering → Bool
is_less Ordering.lt = true
is_less Ordering.eq = false
is_less Ordering.gt = false

unfoldable pub heap_push : ScheduledItem → List ScheduledItem → List ScheduledItem
heap_push x [] = x ∷ []
heap_push x (y ∷ ys) = if is_less (cmp x y) then y ∷ heap_push x ys else x ∷ y ∷ ys

pub record ScheduleQueue : Type 0 where
  pub heap : List ScheduledItem
  pub generations : Map ℕ

unfoldable pub new : ScheduleQueue
new = record { heap = []; generations = [] }

abbrev pub or_one : Option ℕ → ℕ
or_one none = 1
or_one (some g) = g

unfoldable pub current_generation : ScheduleQueue → TaskId → ℕ
current_generation q id = or_one (Map.get id q.generations)

unfoldable pub is_valid : ScheduleQueue → ScheduledItem → Bool
is_valid q item = current_generation q item.task_id == item.generation

-- `entry(id).or_insert(1)`
abbrev pub with_entry : TaskId → ScheduleQueue → ScheduleQueue
with_entry id q = record q { generations = Map.insert id (current_generation q id) q.generations }

unfoldable pub push : ScheduledItem → ScheduleQueue → ScheduleQueue
push item q =
    let q' = with_entry item.task_id q in
    if item.generation == current_generation q item.task_id
    then record q' { heap = heap_push item q.heap }
    else q'

-- The `while let` of `pop`.
unfoldable pub pop_valid :
    ScheduleQueue → List ScheduledItem → Option ScheduledItem × List ScheduledItem
pop_valid q [] = (none, [])
pop_valid q (item ∷ rest) =
    let later = pop_valid q rest in if is_valid q item then (some item, rest) else later

unfoldable pub pop : ScheduleQueue → Option ScheduledItem × ScheduleQueue
pop q = let (item, rest) = pop_valid q q.heap in (item, record q { heap = rest })

abbrev pub first : List ScheduledItem → Option ScheduledItem
first [] = none
first (item ∷ rest) = some item

unfoldable pub peek : ScheduleQueue → Option ScheduledItem
peek q = first q.heap

-- The `while let` of `peek_valid`.
unfoldable pub drop_stale : ScheduleQueue → List ScheduledItem → List ScheduledItem
drop_stale q [] = []
drop_stale q (top ∷ rest) =
    let later = drop_stale q rest in if is_valid q top then top ∷ rest else later

unfoldable pub peek_valid : ScheduleQueue → Option ScheduledItem × ScheduleQueue
peek_valid q = let q' = record q { heap = drop_stale q q.heap } in (peek q', q')

abbrev pub next_generation : ℕ → ℕ
next_generation g = (g + 1) % 2 ^ 64

unfoldable pub bump_generation : TaskId → ScheduleQueue → ℕ × ScheduleQueue
bump_generation id q =
    let g = next_generation (current_generation q id) in
    (g, record q { generations = Map.insert id g q.generations })

unfoldable pub clear : ScheduleQueue → ScheduleQueue
clear q = record q { heap = [] }

unfoldable pub len : ScheduleQueue → ℕ
len q = length q.heap

unfoldable pub is_empty : ScheduleQueue → Bool
is_empty q = len q == 0

-- A map from a task's and a trigger's id to a time, as a `HashMap` of pairs.
abbrev pub FireTimes : Type 0
FireTimes = List (TaskId × TriggerId × DateTime)

abbrev pub same_key : TaskId → TriggerId → TaskId → TriggerId → Bool
same_key a b c d = if a == c then b == d else false

unfoldable pub next_fire : TaskId → TriggerId → FireTimes → Option DateTime
next_fire a b [] = none
next_fire a b ((c, d, at) ∷ m) = if same_key a b c d then some at else next_fire a b m

-- The `match result.get_mut(&key)` of the loop body.
unfoldable pub keep_earliest : ScheduledItem → FireTimes → FireTimes
keep_earliest x [] = (x.task_id, x.trigger_id, x.next_fire_at) ∷ []
keep_earliest x ((c, d, at) ∷ m) =
    if same_key x.task_id x.trigger_id c d
    then (c, d, (if ltb x.next_fire_at at then x.next_fire_at else at)) ∷ m
    else (c, d, at) ∷ keep_earliest x m

-- The `for` loop.
unfoldable pub collect_times : ScheduleQueue → List ScheduledItem → FireTimes → FireTimes
collect_times q [] result = result
collect_times q (x ∷ xs) result =
    collect_times q xs (if is_valid q x then keep_earliest x result else result)

unfoldable pub next_fire_by_trigger : ScheduleQueue → FireTimes
next_fire_by_trigger q = collect_times q q.heap []

-- The `for` loop of `take_task_items`: what is taken, and what is kept.
unfoldable pub split_task : TaskId → List ScheduledItem → List ScheduledItem × List ScheduledItem
split_task id [] = ([], [])
split_task id (x ∷ xs) =
    let (taken, kept) = split_task id xs in
    if x.task_id == id then (x ∷ taken, kept) else (taken, heap_push x kept)

unfoldable pub take_task_items : TaskId → ScheduleQueue → List ScheduledItem × ScheduleQueue
take_task_items id q = let (taken, kept) = split_task id q.heap in (taken, record q { heap = kept })
