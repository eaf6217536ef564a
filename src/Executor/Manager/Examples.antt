-- ===== src/Executor/Manager/Examples.antt =====
-- Tests of the manager, and its theorems at concrete counts.
use easy_job.Prelude.{◌+◌, ◌≡◌, ◌↔◌, ◌&&◌, ◌==◌, refl, arith, true, false, if◌then◌else◌, [], ◌∷◌}
use easy_job.Prelude.Map
use easy_job.Domain.Policy.{skip_if_running, queue_one}
use easy_job.Executor.Manager.{Counts, running_count, try_acquire_slot, total_running_count}
use easy_job.Executor.Manager.Slots.{Admits, try_acquire_slot_lem}
use easy_job.Executor.Manager.Limits.{run, acquires, releases, IsWithin, run-IsWithin}

-- Task 1 runs once and task 2 twice.
abbrev busy : Counts
busy = (1, 1) ∷ (2, 2) ∷ []

refused_test : try_acquire_slot 1 skip_if_running busy ≡ (busy, false)
unfolding try_acquire_slot running_count Map.get Map.insert
refused_test = refl

total_test : total_running_count busy ≡ 3
unfolding total_running_count
total_test = refl

try_acquire_slot_lem_example :
    ((try_acquire_slot 1 queue_one busy).1 ≡ true ↔ Admits queue_one (running_count 1 busy))
    × (running_count 1 (try_acquire_slot 1 queue_one busy).0 ≡ (
        if 1 == 1 && (try_acquire_slot 1 queue_one busy).1
        then running_count 1 busy + 1
        else running_count 1 busy))
try_acquire_slot_lem_example =
    try_acquire_slot_lem 1 1 queue_one busy (unfold running_count Map.get in omega arith)

run-IsWithin_example :
    IsWithin skip_if_running
      (running_count 4 (run (λ _. skip_if_running) (acquires 4 ∷ acquires 4 ∷ releases 5 ∷ []) []))
run-IsWithin_example =
    run-IsWithin (λ _. skip_if_running) (acquires 4 ∷ acquires 4 ∷ releases 5 ∷ []) 4

-- The second execution under `queue_one` is not held back; the third is refused.
second_starts :
    ((try_acquire_slot 1 queue_one busy).1 ≡ true)
    × ((try_acquire_slot 1 queue_one (try_acquire_slot 1 queue_one busy).0).1 ≡ false)
unfolding try_acquire_slot running_count Map.get Map.insert
second_starts = (refl, refl)
