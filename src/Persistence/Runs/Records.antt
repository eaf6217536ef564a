-- ===== src/Persistence/Runs/Records.antt =====
-- Creating, updating and finding runs.
use easy_job.Prelude.{
  ℕ, ◌≡◌, ◌∙◌, ◌<◌, ◌^◌, ◌==◌, ltb, Bool, true, false, if◌then◌else◌, Bool-cases, refl, ap, Option,
  none, some, List, [], ◌∷◌, ◌++◌, find, find_passes, map, All, arith, inl, inr,
}
use easy_job.Prelude.Int.{as_i64}
use easy_job.Prelude.Result.{Result, ok, err}
use easy_job.Domain.Execution.{ExecutionId, Execution}
use easy_job.Common.Error.{Error}
use easy_job.Persistence.Tables.{
  RunRow, Database, insert_row, has_key, foreign_key_failed, unique_failed,
}
use easy_job.Persistence.Runs.{
  as_u64, map_option, run_row, map_row_to_execution, updated, updating, create_run, update_run,
  find_run_by_id,
}

as_u64-as_i64 : (n : ℕ) → n < 2 ^ 64 → as_u64 (as_i64 n) ≡ n
unfolding as_u64 as_i64
as_u64-as_i64 n h = elim (Bool-cases (ltb n (2 ^ 63))) [
  | inl t ↦ rw t refl
  | inr f ↦ rw f (omega arith)
]

-- A duration is a `u64`.
abbrev pub IsU64 : Option ℕ → Type 0
IsU64 none = Unit
IsU64 (some n) = n < 2 ^ 64

durations : (d : Option ℕ) → IsU64 d → map_option as_u64 (map_option as_i64 d) ≡ d
durations none h = refl
durations (some n) h = ap (λ x. some x) (as_u64-as_i64 n h)

pub map_row_to_execution-run_row :
    (run : Execution) → IsU64 run.duration_ms → map_row_to_execution (run_row run) ≡ run
unfolding map_row_to_execution run_row
map_row_to_execution-run_row run h = simp (durations run.duration_ms h)

find-append :
    (id : ExecutionId) (rows : List RunRow) (row : RunRow)
    → has_key (λ r. r.id) row.id rows ≡ false
    → id ≡ row.id
    → find (λ r. r.id == id) (rows ++ row ∷ []) ≡ some row
find-append id [] row h e = ground arith
find-append id (r ∷ rows) row h e = ground (arith, find-append id rows row)

pub updating-id : (run : Execution) (r : RunRow) → (updating run r).id ≡ r.id
unfolding updating updated
updating-id run r = elim (Bool-cases (r.id == run.id)) [ inl t ↦ rw t refl | inr f ↦ rw f refl ]

find-updating :
    (run : Execution) (id : ExecutionId) (rows : List RunRow)
    → find (λ r. r.id == id) (map (updating run) rows)
      ≡ map_option (updating run) (find (λ r. r.id == id) rows)
find-updating run id [] = refl
find-updating run id (r ∷ rows) = elim (Bool-cases (r.id == id)) [
  | inl t ↦ simp (updating-id run r, t)
  | inr f ↦ simp (updating-id run r, f, find-updating run id rows)
]

-- The part of a run that `update_run` writes.
abbrev pub with_outcome_of : Execution → Execution → Execution
with_outcome_of run old = record old {
  status = run.status;
  finished_at = run.finished_at;
  duration_ms = run.duration_ms;
  exit_code = run.exit_code;
  error_message = run.error_message;
}

updated-outcome :
    (run : Execution) (r : RunRow)
    → IsU64 run.duration_ms
    → map_row_to_execution (updated run r) ≡ with_outcome_of run (map_row_to_execution r)
unfolding map_row_to_execution updated
updated-outcome run r h = simp (durations run.duration_ms h)

updating_found :
    (run : Execution) (id : ExecutionId) (o : Option RunRow)
    → IsU64 run.duration_ms
    → All (λ r. (r.id == id) ≡ true) (elim o [ none ↦ [] | some r ↦ r ∷ [] ])
    → map_option map_row_to_execution (map_option (updating run) o) ≡ (
        if id == run.id
        then map_option (with_outcome_of run) (map_option map_row_to_execution o)
        else map_option map_row_to_execution o)
unfolding updating
updating_found run id none u h = ground arith
updating_found run id (some r) u h = elim (Bool-cases (id == run.id)) [
  | inl t ↦
      let same : (r.id == run.id) ≡ true = (let e = h.0 in ground arith) in
      simp (t, same, updated-outcome run r u)
  | inr f ↦ let other : (r.id == run.id) ≡ false = (let e = h.0 in ground arith) in simp (f, other)
]

find-IsOf :
    (id : ExecutionId) (rows : List RunRow) (o : Option RunRow)
    → find (λ r. r.id == id) rows ≡ o
    → All (λ r. (r.id == id) ≡ true) (elim o [ none ↦ [] | some r ↦ r ∷ [] ])
find-IsOf id rows none e = tt
find-IsOf id rows (some r) e = (find_passes (λ r. r.id == id) rows r e, tt)

module _ {Json : Type 0} where
  -- What `create_run` answers, in each of its cases.
  pub create_run-eq :
      (run : Execution) (db : Database Json)
      → create_run run db ≡ (
          if has_key (λ r. r.id) run.id db.task_runs
          then err unique_failed
          else if has_key (λ t. t.id) run.task_id db.tasks
          then ok (record db { task_runs = db.task_runs ++ run_row run ∷ [] })
          else err foreign_key_failed)
  unfolding create_run insert_row run_row
  create_run-eq run db = elim (Bool-cases (has_key (λ r. r.id) run.id db.task_runs)) [
    | inl t ↦ rw t refl
    | inr f ↦ rw f refl
  ]

  -- The answers of `create_run`.
  pub data Created (run : Execution) (db : Database Json)
      : Result Error (Database Json) → Type 0 where
    id_taken : has_key (λ r. r.id) run.id db.task_runs ≡ true → Created run db (err unique_failed)
    task_unknown :
        has_key (λ r. r.id) run.id db.task_runs ≡ false
        → has_key (λ t. t.id) run.task_id db.tasks ≡ false
        → Created run db (err foreign_key_failed)
    created :
        (db' : Database Json)
        → has_key (λ r. r.id) run.id db.task_runs ≡ false
        → has_key (λ t. t.id) run.task_id db.tasks ≡ true
        → find_run_by_id run.id db' ≡ some run
        → db'.tasks ≡ db.tasks
        → Created run db (ok db')

  -- `create_run` refuses an id that is taken; an id that is free it refuses where the task is
  -- unknown; where the id is free and the task known it succeeds, leaves the tasks as they were, and
  -- the run is found as it was created. The duration is a `u64`.
  pub create_run-Created :
      (run : Execution) (db : Database Json)
      → IsU64 run.duration_ms
      → Created run db (create_run run db)
  unfolding find_run_by_id run_row
  create_run-Created run db u = rw (create_run-eq run db) (go _ refl _ refl)
    where
      go :
          (taken : Bool)
          → has_key (λ r. r.id) run.id db.task_runs ≡ taken
          → (known : Bool) → has_key (λ t. t.id) run.task_id db.tasks ≡ known
          → Created run db (
              if taken
              then err unique_failed
              else if known
              then ok (record db { task_runs = db.task_runs ++ run_row run ∷ [] })
              else err foreign_key_failed)
      go true e known f = id_taken e
      go false e false f = task_unknown e f
      go false e true f =
          created _ e f
            (ap (map_option map_row_to_execution)
                (find-append run.id db.task_runs (run_row run) e refl)
              ∙ ap (λ r. some r) (map_row_to_execution-run_row run u))
            refl

  -- `update_run` writes the outcome of the run under its id, and no other run.
  pub find_run_by_id-update_run :
      (run : Execution) (id : ExecutionId) (db : Database Json)
      → IsU64 run.duration_ms
      → find_run_by_id id (update_run run db) ≡ (
          if id == run.id
          then map_option (with_outcome_of run) (find_run_by_id id db)
          else find_run_by_id id db)
  unfolding find_run_by_id update_run
  find_run_by_id-update_run run id db u =
      ap (map_option map_row_to_execution) (find-updating run id db.task_runs)
      ∙ updating_found run id _ u (find-IsOf id db.task_runs _ refl)
