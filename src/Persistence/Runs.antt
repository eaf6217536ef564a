-- ===== src/Persistence/Runs.antt =====
-- crates/persistence/src/execution_repo.rs and recovery.rs: the repository of runs and their
-- outputs. A statement fails where a constraint of the tables forbids it.
pub mod Records
pub mod Latest
pub mod Cleanup
use Prim.Native.String.{String}
use easy_job.Prelude.{
  ℕ, ◌+◌, ◌-◌, ◌^◌, ◌==◌, ltb, leb, Bool, true, false, not, ◌&&◌, ◌||◌, if◌then◌else◌, Option, none,
  some, List, [], ◌∷◌, ◌++◌, any, find, keep_if, map, length,
}
use easy_job.Prelude.Map
use easy_job.Prelude.Map.{Map}
use easy_job.Prelude.Int.{ℤ, pos, negsuc, as_i64}
use easy_job.Prelude.Result.{Result, ok, err, ◌>>=◌}
use easy_job.Domain.Trigger.{TaskId, DateTime}
use easy_job.Domain.Execution.{
  ExecutionId, ExecutionStatus, queued, running, succeeded, failed, timed_out, cancelled, skipped,
  interrupted, Execution,
}
use easy_job.Common.Error.{Error}
use easy_job.Persistence.Tables.{
  RunRow, OutputRow, Database, insert_row, select_rows, has_key, foreign_key_failed,
}
use easy_job.Persistence.Tasks.{order_by, cascade_runs}

pub record ExecutionOutputRecord : Type 0 where
  pub stream : String
  pub content : String
  pub created_at : DateTime

abbrev pub map_option : {A B : Type 0} → (A → B) → Option A → Option B
map_option f none = none
map_option f (some a) = some (f a)

-- The cast `as u64` of an `i64`.
unfoldable pub as_u64 : ℤ → ℕ
as_u64 (pos n) = n
as_u64 (negsuc n) = 2 ^ 64 - 1 - n

abbrev pub is_running : ExecutionStatus → Bool
is_running running = true
is_running _ = false

unfoldable pub run_row : Execution → RunRow
run_row run = record {
  id = run.id;
  task_id = run.task_id;
  trigger_id = run.trigger_id;
  status = run.status;
  scheduled_at = run.scheduled_at;
  started_at = run.started_at;
  finished_at = run.finished_at;
  duration_ms = map_option as_i64 run.duration_ms;
  exit_code = run.exit_code;
  error_message = run.error_message;
}

unfoldable pub map_row_to_execution : RunRow → Execution
map_row_to_execution r = record {
  id = r.id;
  task_id = r.task_id;
  trigger_id = r.trigger_id;
  status = r.status;
  scheduled_at = r.scheduled_at;
  started_at = r.started_at;
  finished_at = r.finished_at;
  duration_ms = map_option as_u64 r.duration_ms;
  exit_code = r.exit_code;
  error_message = r.error_message;
}

-- SET of `update_run`
unfoldable pub updated : Execution → RunRow → RunRow
updated run row = record row {
  status = run.status;
  finished_at = run.finished_at;
  duration_ms = map_option as_i64 run.duration_ms;
  exit_code = run.exit_code;
  error_message = run.error_message;
}

unfoldable pub updating : Execution → RunRow → RunRow
updating run r = if r.id == run.id then updated run r else r

-- The order `started_at DESC, id DESC`.
unfoldable pub newer : RunRow → RunRow → Bool
newer r s = ltb s.started_at r.started_at || ((s.started_at == r.started_at) && ltb s.id r.id)

abbrev pub is_newest : List RunRow → RunRow → Bool
is_newest runs r = not (any (λ s. (s.task_id == r.task_id) && newer s r) runs)

-- WHERE of `purge_expired_runs`
unfoldable pub is_expired : TaskId → DateTime → RunRow → Bool
is_expired task_id before r =
    (r.task_id == task_id) && (ltb r.started_at before && not (is_running r.status))

-- The loop of `find_latest_run_per_task`.
unfoldable pub collect_latest : List RunRow → Map Execution → Map Execution
collect_latest [] latest = latest
collect_latest (row ∷ rows) latest =
    let exec = map_row_to_execution row in collect_latest rows (Map.insert exec.task_id exec latest)

abbrev pub take_rows : ℕ → List RunRow → List RunRow
take_rows limit [] = []
take_rows limit (row ∷ rows) =
    let rest = take_rows (limit - 1) rows in if limit == 0 then [] else row ∷ rest

abbrev pub is_one_of : List TaskId → RunRow → Bool
is_one_of task_ids r = any (λ id. r.task_id == id) task_ids

unfoldable pub recovered : RunRow → RunRow
recovered row =
    if is_running row.status
    then record row { status = interrupted; error_message = some "Agent restarted unexpectedly" }
    else row

abbrev pub output_row : ℕ → ExecutionId → String → String → DateTime → OutputRow
output_row id run_id stream content now = record {
  id = id;
  run_id = run_id;
  stream = stream;
  content = content;
  created_at = now;
}

module _ {Json : Type 0} where
  unfoldable pub create_run : Execution → Database Json → Result Error (Database Json)
  create_run run db = do
    rows ← insert_row (λ r. r.id) (run_row run) db.task_runs
    if has_key (λ t. t.id) run.task_id db.tasks
        then ok (record db { task_runs = rows })
        else err foreign_key_failed

  unfoldable pub update_run : Execution → Database Json → Database Json
  update_run run db = record db { task_runs = map (updating run) db.task_runs }

  unfoldable pub find_run_by_id : ExecutionId → Database Json → Option Execution
  find_run_by_id id db = map_option map_row_to_execution (find (λ r. r.id == id) db.task_runs)

  unfoldable pub find_recent_runs : ℕ → Database Json → List Execution
  find_recent_runs limit db =
      map map_row_to_execution
        (take_rows limit (order_by (λ r s. leb s.started_at r.started_at) db.task_runs))

  unfoldable pub append_output :
      ExecutionId → String → String → DateTime → Database Json → Result Error (Database Json)
  append_output run_id stream content now db =
      if has_key (λ r. r.id) run_id db.task_runs
      then ok (record db {
        run_outputs = db.run_outputs ++ output_row db.next_output run_id stream content now ∷ [];
        next_output = db.next_output + 1;
      })
      else err foreign_key_failed

  unfoldable pub get_outputs : ExecutionId → Database Json → List ExecutionOutputRecord
  get_outputs run_id db =
      map (λ o. record { stream = o.stream; content = o.content; created_at = o.created_at })
        (order_by (λ o p. leb o.id p.id) (select_rows (λ o. o.run_id) run_id db.run_outputs))

  -- The number of the runs that are gone, and what is left.
  unfoldable pub purge_expired_runs : TaskId → DateTime → Database Json → ℕ × Database Json
  purge_expired_runs task_id before db = (
    length (keep_if (is_expired task_id before) db.task_runs),
    cascade_runs (keep_if (λ r. not (is_expired task_id before r)) db.task_runs) db,
  )

  -- The windows are ordered by the start and the id, and their first rows are selected.
  unfoldable pub find_latest_run_per_task : List TaskId → Database Json → Map Execution
  find_latest_run_per_task [] db = []
  find_latest_run_per_task (id ∷ ids) db =
      let chosen = keep_if (is_one_of (id ∷ ids)) db.task_runs in
      collect_latest (keep_if (is_newest chosen) chosen) []

  unfoldable pub recover_dangling_executions : Database Json → ℕ × Database Json
  recover_dangling_executions db = (
    length (keep_if (λ r. is_running r.status) db.task_runs),
    record db { task_runs = map recovered db.task_runs },
  )
