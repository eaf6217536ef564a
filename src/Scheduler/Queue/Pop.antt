-- ===== src/Scheduler/Queue/Pop.antt =====
-- What `pop`, `peek_valid`, `push` and `bump_generation` promise.
use easy_job.Prelude.{
  ◌≤◌, ◌≡◌, refl, ap, ◌==◌, true, false, if◌then◌else◌, List, [], ◌∷◌, ◌++◌, Option, none, some,
  All, All-map, arith, Bool-cases, inl, inr,
}
use easy_job.Prelude.Map.{get-insert}
use easy_job.Domain.Trigger.{TaskId}
use easy_job.Scheduler.Queue.{
  ScheduledItem, ScheduleQueue, is_valid, first, peek, push, pop_valid, pop, drop_stale, peek_valid,
  bump_generation, current_generation,
}
use easy_job.Scheduler.Queue.Order.{IsOrdered}

abbrev PopsFrom :
    ScheduleQueue → List ScheduledItem → Option ScheduledItem × List ScheduledItem → Type 0
PopsFrom q xs (none, rest) = All (λ y. is_valid q y ≡ false) xs × (rest ≡ [])
PopsFrom q xs (some item, rest) =
    (stale : List ScheduledItem) × (xs ≡ stale ++ item ∷ rest)
    × All (λ y. is_valid q y ≡ false) stale
    × (is_valid q item ≡ true)
    × All (λ y. is_valid q y ≡ true → item.next_fire_at ≤ y.next_fire_at) xs

skip_stale :
    (q : ScheduleQueue) (x : ScheduledItem) (xs : List ScheduledItem)
    (r : Option ScheduledItem × List ScheduledItem)
    → is_valid q x ≡ false
    → PopsFrom q xs r
    → PopsFrom q (x ∷ xs) r
skip_stale q x xs (none, rest) e h = ((e, h.0), h.1)
skip_stale q x xs (some item, rest) e (stale, split, before, valid, least) =
    (x ∷ stale, ap (◌∷◌ x) split, (e, before), valid, ((λ v. cc), least))

pop_valid-PopsFrom :
    (q : ScheduleQueue) (xs : List ScheduledItem) → IsOrdered xs → PopsFrom q xs (pop_valid q xs)
unfolding pop_valid
pop_valid-PopsFrom q [] o = (tt, refl)
pop_valid-PopsFrom q (x ∷ xs) o = elim (Bool-cases (is_valid q x)) [
  | inl e ↦ rw e ([], refl, tt, e, ((λ v. omega arith), All-map _ _ xs (λ y h v. h) o.0))
  | inr e ↦ rw e (skip_stale q x xs (pop_valid q xs) e (pop_valid-PopsFrom q xs o.1))
]

-- The result of `pop`: an item and the queue after it.
abbrev pub Pops : ScheduleQueue → Option ScheduledItem × ScheduleQueue → Type 0
Pops q (item, q') = PopsFrom q q.heap (item, q'.heap) × (q'.generations ≡ q.generations)

-- On an ordered heap `pop` returns nothing exactly when every item is stale, and has then emptied
-- the heap. Otherwise it returns a valid item that fires no later than any valid item, and has
-- removed that item and the stale ones ahead of it and nothing else. The generations are kept.
pub pop-Pops : (q : ScheduleQueue) → IsOrdered q.heap → Pops q (pop q)
unfolding pop
pop-Pops q o = (pop_valid-PopsFrom q q.heap o, refl)

pop_valid-drop_stale :
    (q : ScheduleQueue) (xs : List ScheduledItem) → pop_valid q (drop_stale q xs) ≡ pop_valid q xs
unfolding pop_valid drop_stale
pop_valid-drop_stale q [] = refl
pop_valid-drop_stale q (x ∷ xs) = ground (arith, pop_valid-drop_stale q xs)

pop_valid-first :
    (q : ScheduleQueue) (xs : List ScheduledItem) → first (drop_stale q xs) ≡ (pop_valid q xs).0
unfolding pop_valid drop_stale
pop_valid-first q [] = refl
pop_valid-first q (x ∷ xs) = ground (arith, pop_valid-first q xs)

-- Whether an item is valid depends on the generations alone.
pop_valid-heap :
    (q : ScheduleQueue) (h xs : List ScheduledItem)
    → pop_valid (record q { heap = h }) xs ≡ pop_valid q xs
unfolding pop_valid is_valid current_generation
pop_valid-heap q h [] = refl
pop_valid-heap q h (x ∷ xs) = ground (arith, pop_valid-heap q h xs)

-- After `peek_valid` the queue pops as it did before, and what it showed is the item that `pop`
-- returns: looking at the next deadline changes nothing that can be observed by popping.
pub pop-peek_valid :
    (q : ScheduleQueue) → ((peek_valid q).0 ≡ (pop q).0) × (pop (peek_valid q).1 ≡ pop q)
unfolding pop peek_valid peek
pop-peek_valid q =
    let kept = drop_stale q q.heap in
    (pop_valid-first q q.heap, rw (pop_valid-heap q kept kept, pop_valid-drop_stale q q.heap) refl)

pub current_generation-push :
    (x : ScheduledItem) (q : ScheduleQueue) (id : TaskId)
    → current_generation (push x q) id ≡ current_generation q id
unfolding push current_generation
current_generation-push x q id =
    ground (arith, get-insert x.task_id id (current_generation q x.task_id) q.generations)

pub current_generation-bump :
    (id j : TaskId) (q : ScheduleQueue)
    → current_generation (bump_generation id q).1 j
      ≡ (if id == j then (bump_generation id q).0 else current_generation q j)
unfolding bump_generation
current_generation-bump id j q =
    unfold current_generation in
    ground (arith, get-insert id j (bump_generation id q).0 q.generations)
