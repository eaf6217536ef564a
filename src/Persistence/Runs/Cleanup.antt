-- ===== src/Persistence/Runs/Cleanup.antt =====
-- The purge of expired runs, and the recovery at the start of the agent.
use easy_job.Prelude.{
  ◌≡◌, ◌+◌, ◌∙◌, ◌==◌, not, not-true, Bool, true, false, if◌then◌else◌, Bool-cases, refl, ap, List,
  [], ◌∷◌, keep_if, keep_if_passes, map, length, find, Option, none, some, All, All-map, arith, inl,
  inr,
}
use easy_job.Domain.Trigger.{TaskId, DateTime}
use easy_job.Domain.Execution.{ExecutionId, interrupted, Execution}
use easy_job.Persistence.Tables.{RunRow, Database, has_key}
use easy_job.Persistence.Tasks.{cascade_runs}
use easy_job.Persistence.Runs.{
  is_expired, is_running, map_option, map_row_to_execution, purge_expired_runs, find_run_by_id,
  recovered, recover_dangling_executions,
}

keep_if-length :
    (p : RunRow → Bool) (runs : List RunRow)
    → length (keep_if p runs) + length (keep_if (λ r. not (p r)) runs) ≡ length runs
keep_if-length p [] = refl
keep_if-length p (r ∷ runs) = ground (arith, keep_if-length p runs)

module _ {Json : Type 0} where
  -- The purge removes only runs of the task that have expired, counts those that are gone, and
  -- leaves no expired run.
  pub purge_expired_runs-exact :
      (task_id : TaskId) (before : DateTime) (db : Database Json)
      → ((purge_expired_runs task_id before db).0
            + length (purge_expired_runs task_id before db).1.task_runs
          ≡ length db.task_runs)
        × All
            (λ r. is_expired task_id before r ≡ false)
            (purge_expired_runs task_id before db).1.task_runs
        × All
            (λ o.
              has_key (λ r. r.id) o.run_id (purge_expired_runs task_id before db).1.task_runs
              ≡ true)
            (purge_expired_runs task_id before db).1.run_outputs
  unfolding purge_expired_runs cascade_runs
  purge_expired_runs-exact task_id before db = (
    keep_if-length (is_expired task_id before) db.task_runs,
    All-map (λ r. not (is_expired task_id before r) ≡ true)
        (λ r. is_expired task_id before r ≡ false) _ (λ r. not-true (is_expired task_id before r))
        (keep_if_passes (λ r. not (is_expired task_id before r)) db.task_runs),
    keep_if_passes _ db.run_outputs,
  )

pub recovered-id : (r : RunRow) → (recovered r).id ≡ r.id
unfolding recovered
recovered-id r = elim (Bool-cases (is_running r.status)) [ inl t ↦ rw t refl | inr f ↦ rw f refl ]

find-recovered :
    (id : ExecutionId) (runs : List RunRow)
    → find (λ r. r.id == id) (map recovered runs)
      ≡ map_option recovered (find (λ r. r.id == id) runs)
find-recovered id [] = refl
find-recovered id (r ∷ runs) = elim (Bool-cases (r.id == id)) [
  | inl t ↦ simp (recovered-id r, t)
  | inr f ↦ simp (recovered-id r, f, find-recovered id runs)
]

abbrev pub interrupt : Execution → Execution
interrupt run =
    if is_running run.status
    then record run { status = interrupted; error_message = some "Agent restarted unexpectedly" }
    else run

recovered-interrupt :
    (r : RunRow) → map_row_to_execution (recovered r) ≡ interrupt (map_row_to_execution r)
unfolding map_row_to_execution recovered
recovered-interrupt r = elim (Bool-cases (is_running r.status)) [
  | inl t ↦ rw t refl
  | inr f ↦ rw f refl
]

recovered_option :
    (o : Option RunRow)
    → map_option map_row_to_execution (map_option recovered o)
      ≡ map_option interrupt (map_option map_row_to_execution o)
recovered_option none = refl
recovered_option (some r) = ap (λ x. some x) (recovered-interrupt r)

recovered-idle : (r : RunRow) → is_running (recovered r).status ≡ false
unfolding recovered
recovered-idle r = elim (Bool-cases (is_running r.status)) [ inl t ↦ rw t refl | inr f ↦ rw f f ]

no_running : (runs : List RunRow) → keep_if (λ r. is_running r.status) (map recovered runs) ≡ []
no_running [] = refl
no_running (r ∷ runs) = rw (recovered-idle r) (no_running runs)

module _ {Json : Type 0} where
  -- Recovery closes each run that was still running as interrupted and leaves the others; after it no
  -- run is running.
  pub recover_dangling_executions-closes :
      (id : ExecutionId) (db : Database Json)
      → (find_run_by_id id (recover_dangling_executions db).1
          ≡ map_option interrupt (find_run_by_id id db))
        × ((recover_dangling_executions (recover_dangling_executions db).1).0 ≡ 0)
  unfolding find_run_by_id recover_dangling_executions
  recover_dangling_executions-closes id db = (
    ap (map_option map_row_to_execution) (find-recovered id db.task_runs) ∙ recovered_option _,
    ap length (no_running db.task_runs),
  )
