-- ===== src/Scheduler/Reroll/Examples.antt =====
-- A reroll at a concrete queue.
use mathlib.Core.List.{Memᴰ}
use easy_job.Prelude.{ℕ, ◌≡◌, ◌≢◌, refl, some, none, [], ◌∷◌, true}
use easy_job.Prelude.Map
use easy_job.Prelude.Outcome.{returns}
use easy_job.Domain.Trigger.{Trigger, interval}
use easy_job.Scheduler.Queue.{
  ScheduledItem, ScheduleQueue, push, heap_push, cmp, bump_generation, current_generation,
  take_task_items, split_task, is_valid,
}
use easy_job.Scheduler.Queue.Contents.{IsQueued}
use easy_job.Scheduler.Reroll.{
  Evaluate, Rerolling, renew, reroll_item, reroll_items, finish_reroll, reroll_queue,
}
use easy_job.Scheduler.Reroll.Others.{reroll_queue-IsQueued}

abbrev item : ℕ → ℕ → ℕ → ℕ → ScheduledItem
item task_id trigger_id at gen = record {
  task_id = task_id;
  trigger_id = trigger_id;
  next_fire_at = at;
  generation = gen;
}

abbrev target : Trigger
target = record {
  id = 70;
  task_id = 7;
  enabled = true;
  kind = interval 10 none;
  created_at = 0;
  updated_at = 0;
}

abbrev before : ScheduleQueue
before = record { heap = item 7 71 10 1 ∷ item 8 80 20 1 ∷ item 7 70 30 1 ∷ []; generations = [] }

abbrev after : Rerolling
after = record {
  queue = record {
    heap = item 7 71 10 2 ∷ item 8 80 20 1 ∷ item 7 70 25 2 ∷ [];
    generations = (7, 2) ∷ [];
  };
  target_rerolled = true;
  new_next = some 25;
}

abbrev always : Evaluate
always i kind = returns (some 25)

reroll_test : reroll_queue always (returns none) 7 target before ≡ returns after
unfolding reroll_queue reroll_items reroll_item finish_reroll take_task_items split_task push
    heap_push cmp bump_generation current_generation Map.get Map.insert
reroll_test = refl

other-IsQueued : IsQueued before (item 7 71 10 1)
unfolding is_valid current_generation Map.get
other-IsQueued = (Memᴰ.head refl, refl)

reroll_queue-IsQueued_example :
    ((item 7 71 10 1).task_id ≡ 7
      → (item 7 71 10 1).trigger_id ≢ target.id
      → IsQueued after.queue (renew (item 7 71 10 1) (current_generation after.queue 7)))
    × ((item 7 71 10 1).task_id ≢ 7 → IsQueued after.queue (item 7 71 10 1))
reroll_queue-IsQueued_example =
    reroll_queue-IsQueued always (returns none) 7 target before after (item 7 71 10 1) reroll_test
      other-IsQueued
