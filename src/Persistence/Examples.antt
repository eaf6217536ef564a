-- ===== src/Persistence/Examples.antt =====
-- Tests of the repositories, and the theorems at concrete databases. A text of JSON is the value that
-- was written.
use mathlib.Core.List.{Memᴰ}
use easy_job.Prelude.{
  ℕ, ◌≡◌, ◌+◌, ◌-◌, ◌^◌, ◌==◌, ◌&&◌, if◌then◌else◌, refl, true, false, none, some, List, [], ◌∷◌,
  length, All, arith,
}
use easy_job.Prelude.Map
use easy_job.Prelude.Result.{ok, err}
use easy_job.Domain.Policy.{default_settings}
use easy_job.Domain.Execution.{Execution, ExecutionStatus, running, succeeded}
use easy_job.Persistence.Sample.{Text, codec, codec-IsFaithful, step_of, build, backup}
use easy_job.Persistence.Tables.{
  Database, RunRow, empty_database, has_key, insert_row, delete_rows, select_rows,
  foreign_key_failed,
}
use easy_job.Persistence.Tasks.{
  find_by_id, save, delete, row_of, transact, insert_each, action_row, upsert_task, task_row,
  update_row, next_version, panicked, read_task, trigger_row, order_by, insert_ordered,
  cascade_runs,
}
use easy_job.Persistence.Settings.{
  get_system_settings, save_system_settings, save_system_settings-get,
}
use easy_job.Persistence.Tasks.RoundTrip.{stored, if_any}
use easy_job.Persistence.Tasks.Refinement.{
  Change, absent, saving, deleting, Store, perform_all, accepted, replay, Represents,
  perform_all-Represents,
}
use easy_job.Persistence.Tasks.Success.{save-succeeds}
use easy_job.Persistence.Runs.{
  run_row, newer, map_row_to_execution, find_latest_run_per_task, create_run, purge_expired_runs,
  is_expired, recover_dangling_executions, find_run_by_id, map_option, update_run, collect_latest,
  as_u64,
}
use easy_job.Persistence.Runs.Records.{
  Created, create_run-Created, with_outcome_of, find_run_by_id-update_run,
}
use easy_job.Prelude.Int.{pos, as_i64}
use easy_job.Persistence.Runs.Latest.{find_latest_run_per_task-latest}
use easy_job.Persistence.Runs.Cleanup.{
  interrupt, purge_expired_runs-exact, recover_dangling_executions-closes,
}
use easy_job.Persistence.Integrity.{
  Integrity, Statements, saved, deleted, purged, done, next, Statements-Integrity,
}

abbrev with_build : Database Text
with_build = (save codec build empty_database).1

build_is_found_in_sequence :
    find_by_id codec 1 with_build
    ≡ ok (some (record build { actions = step_of 22 1 ∷ step_of 21 2 ∷ [] }))
unfolding find_by_id save transact insert_each insert_row delete_rows action_row upsert_task
    task_row read_task select_rows trigger_row order_by insert_ordered
build_is_found_in_sequence = refl

-- Saving a task again gives it the next version.
save-succeeds_example :
    (db' : Database Text) × (save codec build with_build ≡ (ok tt, db'))
    × (find_by_id codec 1 db' ≡ if_any (stored build (row_of 1 with_build.tasks)))
unfolding save transact insert_each insert_row delete_rows action_row upsert_task task_row
    trigger_row
save-succeeds_example =
    save-succeeds codec build with_build codec-IsFaithful (refl, refl, tt)
      (refl, refl, (refl, refl, tt))

abbrev changes : List Change
changes = saving build ∷ saving backup ∷ saving build ∷ deleting 2 ∷ []

abbrev nothing : Store
nothing id = absent

perform_all-Represents_example :
    Represents codec
      (perform_all codec changes empty_database)
      (replay (accepted codec changes empty_database) nothing)
unfolding find_by_id
perform_all-Represents_example =
    perform_all-Represents codec changes empty_database nothing codec-IsFaithful
      λ id. record { found = refl; lost = tt }

-- The version after the greatest one cannot be read.
last_version_is_lost :
    find_by_id codec 2 (
      perform_all codec
        (saving (record backup { version = pos (2 ^ 63 - 1) }) ∷ saving backup ∷ [])
        empty_database)
    ≡ err panicked
unfolding find_by_id save transact insert_each insert_row delete_rows action_row upsert_task
    task_row read_task select_rows trigger_row order_by insert_ordered update_row next_version
last_version_is_lost = refl

-- The triggers of a copy under another id are taken.
copy_is_refused :
    accepted codec (saving build ∷ saving (record build { id = 3 }) ∷ []) empty_database
    ≡ saving build ∷ []
unfolding save transact insert_each insert_row delete_rows action_row upsert_task task_row
    trigger_row
copy_is_refused = refl

abbrev run : ℕ → ℕ → ExecutionStatus → Execution
run id started_at status = record {
  id = id;
  task_id = 1;
  trigger_id = none;
  status = status;
  scheduled_at = none;
  started_at = started_at;
  finished_at = none;
  duration_ms = some 3;
  exit_code = none;
  error_message = none;
}

abbrev with_runs : Database Text
with_runs = record with_build {
  task_runs =
      run_row (run 31 100 succeeded)
      ∷ run_row (run 32 300 succeeded)
      ∷ run_row (run 33 200 running)
      ∷ [];
}

create_run-Created_example :
    Created (run 34 400 running) with_runs (create_run (run 34 400 running) with_runs)
create_run-Created_example = create_run-Created (run 34 400 running) with_runs (omega arith)

run_of_no_task_is_refused :
    create_run (record (run 34 400 running) { task_id = 9 }) with_runs ≡ err foreign_key_failed
unfolding create_run run_row save transact insert_each insert_row delete_rows action_row upsert_task
    task_row trigger_row
run_of_no_task_is_refused = refl

find_run_by_id-update_run_example :
    find_run_by_id 33 (update_run (run 33 0 succeeded) with_runs) ≡ (
      if 33 == 33
      then map_option (with_outcome_of (run 33 0 succeeded)) (find_run_by_id 33 with_runs)
      else find_run_by_id 33 with_runs)
find_run_by_id-update_run_example =
    find_run_by_id-update_run (run 33 0 succeeded) 33 with_runs (omega arith)

find_latest_run_per_task-latest_example :
    (best : RunRow) × Memᴰ best with_runs.task_runs
    × (best.task_id ≡ 1)
    × All (λ s. ((s.task_id == best.task_id) && newer s best) ≡ false) with_runs.task_runs
    × (Map.get 1 (find_latest_run_per_task (1 ∷ []) with_runs) ≡ some (map_row_to_execution best))
unfolding run_row
find_latest_run_per_task-latest_example =
    find_latest_run_per_task-latest (1 ∷ []) with_runs (run_row (run 31 100 succeeded))
      (Memᴰ.head refl) refl

latest_is_the_one_that_started_last :
    Map.get 1 (find_latest_run_per_task (1 ∷ []) with_runs) ≡ some (run 32 300 succeeded)
unfolding find_latest_run_per_task collect_latest map_row_to_execution run_row newer Map.get
    Map.insert as_u64 as_i64
latest_is_the_one_that_started_last = refl

purge_expired_runs-exact_example :
    ((purge_expired_runs 1 250 with_runs).0
        + length (purge_expired_runs 1 250 with_runs).1.task_runs
      ≡ length with_runs.task_runs)
    × All (λ r. is_expired 1 250 r ≡ false) (purge_expired_runs 1 250 with_runs).1.task_runs
    × All
        (λ o. has_key (λ r. r.id) o.run_id (purge_expired_runs 1 250 with_runs).1.task_runs ≡ true)
        (purge_expired_runs 1 250 with_runs).1.run_outputs
purge_expired_runs-exact_example = purge_expired_runs-exact 1 250 with_runs

running_run_is_kept :
    (purge_expired_runs 1 250 with_runs).1.task_runs
    ≡ run_row (run 32 300 succeeded) ∷ run_row (run 33 200 running) ∷ []
unfolding purge_expired_runs cascade_runs is_expired run_row
running_run_is_kept = refl

recover_dangling_executions-closes_example :
    (find_run_by_id 33 (recover_dangling_executions with_runs).1
      ≡ map_option interrupt (find_run_by_id 33 with_runs))
    × ((recover_dangling_executions (recover_dangling_executions with_runs).1).0 ≡ 0)
recover_dangling_executions-closes_example = recover_dangling_executions-closes 33 with_runs

save_system_settings-get_example :
    get_system_settings codec (save_system_settings codec default_settings with_runs)
    ≡ ok default_settings
save_system_settings-get_example =
    save_system_settings-get codec default_settings with_runs codec-IsFaithful

-- A task is saved, purged of its runs and deleted.
abbrev history : Statements codec empty_database (delete 1 (purge_expired_runs 1 250 with_build).1)
history =
    next (saved build empty_database) (
      next (purged 1 250 with_build)
        (next (deleted 1 (purge_expired_runs 1 250 with_build).1) done))

Statements-Integrity_example : Integrity (delete 1 (purge_expired_runs 1 250 with_build).1)
Statements-Integrity_example =
    Statements-Integrity codec empty_database _ history
      (record { triggers = tt; actions = tt; task_runs = tt; run_outputs = tt })
