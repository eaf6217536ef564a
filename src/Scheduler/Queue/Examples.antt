-- ===== src/Scheduler/Queue/Examples.antt =====
-- Tests of the queue, and its theorems at a concrete one.
use easy_job.Prelude.{ℕ, ◌≡◌, refl, arith, some, [], ◌∷◌}
use easy_job.Prelude.Map
use easy_job.Scheduler.Queue.{
  ScheduledItem, ScheduleQueue, push, pop, pop_valid, peek_valid, bump_generation, next_fire,
  next_fire_by_trigger, is_valid, cmp, heap_push, current_generation, collect_times, keep_earliest,
}
use easy_job.Scheduler.Queue.Order.{IsOrdered}
use easy_job.Scheduler.Queue.Pop.{Pops, pop-Pops, pop-peek_valid}
use easy_job.Scheduler.Queue.Overview.{IsLeast, times_of, next_fire_by_trigger-IsLeast}

abbrev item : ℕ → ℕ → ℕ → ℕ → ScheduledItem
item task_id trigger_id at gen = record {
  task_id = task_id;
  trigger_id = trigger_id;
  next_fire_at = at;
  generation = gen;
}

-- Task 1 fires at 30 and 10, task 2 at 20; task 3's item is stale.
abbrev three_tasks : ScheduleQueue
three_tasks = record {
  heap = item 3 30 5 1 ∷ item 1 11 10 1 ∷ item 2 20 20 1 ∷ item 1 10 30 1 ∷ [];
  generations = (3, 2) ∷ (1, 1) ∷ [];
}

three_tasks-IsOrdered : IsOrdered three_tasks.heap
three_tasks-IsOrdered = (
  (omega arith, (omega arith, (omega arith, tt))),
  ((omega arith, (omega arith, tt)), ((omega arith, tt), (tt, tt))),
)

pop_test : (pop three_tasks).0 ≡ some (item 1 11 10 1)
unfolding pop pop_valid is_valid current_generation Map.get
pop_test = refl

push_test :
    (push (item 7 70 15 1) three_tasks).heap
    ≡ item 3 30 5 1 ∷ item 1 11 10 1 ∷ item 7 70 15 1 ∷ item 2 20 20 1 ∷ item 1 10 30 1 ∷ []
unfolding push heap_push cmp current_generation Map.get
push_test = refl

push_stale_test : (push (item 3 31 15 1) three_tasks).heap ≡ three_tasks.heap
unfolding push current_generation Map.get
push_stale_test = refl

bump_test : current_generation (bump_generation 2 three_tasks).1 2 ≡ 2
unfolding bump_generation current_generation Map.get Map.insert
bump_test = refl

next_fire_test : next_fire 1 11 (next_fire_by_trigger three_tasks) ≡ some 10
unfolding next_fire next_fire_by_trigger collect_times keep_earliest is_valid current_generation
    Map.get
next_fire_test = refl

pop-Pops_example : Pops three_tasks (pop three_tasks)
pop-Pops_example = pop-Pops three_tasks three_tasks-IsOrdered

pop-peek_valid_example :
    ((peek_valid three_tasks).0 ≡ (pop three_tasks).0)
    × (pop (peek_valid three_tasks).1 ≡ pop three_tasks)
pop-peek_valid_example = pop-peek_valid three_tasks

next_fire_by_trigger-IsLeast_example :
    IsLeast
      (next_fire 1 11 (next_fire_by_trigger three_tasks))
      (times_of three_tasks 1 11 three_tasks.heap)
next_fire_by_trigger-IsLeast_example = next_fire_by_trigger-IsLeast three_tasks 1 11
