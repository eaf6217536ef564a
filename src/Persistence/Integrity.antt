-- ===== src/Persistence/Integrity.antt =====
-- The references between the tables, through every statement of the repositories.
use Prim.Native.String.{String}
use easy_job.Prelude.{
  ℕ, ◌+◌, ◌≡◌, ◌∙◌, ◌==◌, not, Bool, true, false, if◌then◌else◌, Bool-cases, refl, ap, sym, subst,
  [], ◌∷◌, ◌++◌, map, keep_if, keep_if_passes, All-append, All-keep_if, arith, inl, inr,
}
use easy_job.Prelude.Result.{Result, ok, err, ok_injective}
use easy_job.Domain.Trigger.{TaskId, DateTime}
use easy_job.Domain.Policy.{SystemSettings}
use easy_job.Domain.Task.{Task}
use easy_job.Domain.Execution.{ExecutionId, Execution}
use easy_job.Common.Error.{Error}
use easy_job.Persistence.Codec.{Codec}
use easy_job.Persistence.Tables.{RunRow, Database, has_key, unique_failed, foreign_key_failed}
use easy_job.Persistence.Tasks.{
  task_row, upsert_task, trigger_row, action_row, transact, save, commit, delete, cascade_runs,
}
use easy_job.Persistence.Tasks.Commit.{Saved, save-Saved}
use easy_job.Persistence.Runs.{
  run_row, updated, updating, recovered, create_run, update_run, append_output, output_row,
  purge_expired_runs, is_expired, is_running, recover_dangling_executions,
}
use easy_job.Persistence.Runs.Records.{create_run-eq, updating-id}
use easy_job.Persistence.Runs.Cleanup.{recovered-id}
use easy_job.Persistence.Settings.{save_system_settings}
use easy_job.Persistence.References.{
  Refers, Refers-delete, Refers-map, Refers-more, Refers-replace, has_key-append_left, has_key-map,
  has_key-upsert_task,
}

-- Triggers, actions and runs are of tasks that are there, and outputs of runs that are there.
pub record Integrity {Json : Type 0} (db : Database Json) : Type 0 where
  pub triggers : Refers (λ r. r.task_id) (λ t. t.id) db.triggers db.tasks
  pub actions : Refers (λ r. r.task_id) (λ t. t.id) db.actions db.tasks
  pub task_runs : Refers (λ r. r.task_id) (λ t. t.id) db.task_runs db.tasks
  pub run_outputs : Refers (λ o. o.run_id) (λ r. r.id) db.run_outputs db.task_runs

updating-task : (run : Execution) (r : RunRow) → (updating run r).task_id ≡ r.task_id
unfolding updating updated
updating-task run r = elim (Bool-cases (r.id == run.id)) [ inl t ↦ rw t refl | inr f ↦ rw f refl ]

recovered-task : (r : RunRow) → (recovered r).task_id ≡ r.task_id
unfolding recovered
recovered-task r = elim (Bool-cases (is_running r.status)) [ inl t ↦ rw t refl | inr f ↦ rw f refl ]

module _ {Json : Type 0} (c : Codec Json) where
  -- One statement or transaction of a repository.
  pub data Statement : Database Json → Database Json → Type 0 where
    saved : (task : Task) (db : Database Json) → Statement db (save c task db).1
    deleted : (id : TaskId) (db : Database Json) → Statement db (delete id db)
    run_created :
        (run : Execution) (db db' : Database Json) → create_run run db ≡ ok db' → Statement db db'
    run_updated : (run : Execution) (db : Database Json) → Statement db (update_run run db)
    output_appended :
        (run_id : ExecutionId) (stream content : String) (now : DateTime) (db db' : Database Json)
        → append_output run_id stream content now db ≡ ok db'
        → Statement db db'
    purged :
        (task_id : TaskId) (before : DateTime) (db : Database Json)
        → Statement db (purge_expired_runs task_id before db).1
    runs_recovered : (db : Database Json) → Statement db (recover_dangling_executions db).1
    settings_saved :
        (settings : SystemSettings) (db : Database Json)
        → Statement db (save_system_settings c settings db)

  pub data Statements : Database Json → Database Json → Type 0 where
    done : {db : Database Json} → Statements db db
    next :
        {db db' db'' : Database Json} → Statement db db' → Statements db' db'' → Statements db db''

  cascade-Integrity :
      (p : RunRow → Bool) (db : Database Json)
      → Integrity db
      → Integrity (cascade_runs (keep_if p db.task_runs) db)
  unfolding cascade_runs
  cascade-Integrity p db h = record {
    triggers = h.triggers;
    actions = h.actions;
    task_runs = All-keep_if (λ r. has_key (λ t. t.id) r.task_id db.tasks ≡ true) p _ h.task_runs;
    run_outputs = keep_if_passes _ db.run_outputs;
  }

  delete-Integrity : (id : TaskId) (db : Database Json) → Integrity db → Integrity (delete id db)
  unfolding delete cascade_runs
  delete-Integrity id db h = record {
    triggers = Refers-delete (λ r. r.task_id) (λ t. t.id) id db.triggers db.tasks h.triggers;
    actions = Refers-delete (λ r. r.task_id) (λ t. t.id) id db.actions db.tasks h.actions;
    task_runs = Refers-delete (λ r. r.task_id) (λ t. t.id) id db.task_runs db.tasks h.task_runs;
    run_outputs = keep_if_passes _ db.run_outputs;
  }

  Saved-Integrity :
      (task : Task) (db db' : Database Json) → Integrity db → Saved c task db db' → Integrity db'
  unfolding task_row trigger_row action_row
  Saved-Integrity task db db' h s =
      let more : (k : ℕ)
          → has_key (λ t. t.id) k db.tasks ≡ true
          → has_key (λ t. t.id) k (upsert_task c (task_row c task) db.tasks) ≡ true =
        λ k e. has_key-upsert_task c (task_row c task) k db.tasks ∙ ground arith in
      let known : has_key (λ t. t.id) task.id (upsert_task c (task_row c task) db.tasks) ≡ true =
        has_key-upsert_task c (task_row c task) task.id db.tasks ∙ ground arith in
      record {
        triggers = rw s.triggers (
            rw s.tasks (
              Refers-replace (λ r. r.task_id) (λ t. t.id) (trigger_row c task.id) task.id
                db.triggers task.triggers _ (λ t. refl) known
                (Refers-more (λ r. r.task_id) (λ t. t.id) db.triggers db.tasks _ more h.triggers)));
        actions = rw s.actions (
            rw s.tasks (
              Refers-replace (λ r. r.task_id) (λ t. t.id) (action_row c task.id) task.id db.actions
                task.actions _ (λ a. refl) known
                (Refers-more (λ r. r.task_id) (λ t. t.id) db.actions db.tasks _ more h.actions)));
        task_runs = rw s.task_runs (
            rw s.tasks
              (Refers-more (λ r. r.task_id) (λ t. t.id) db.task_runs db.tasks _ more h.task_runs));
        run_outputs = rw s.run_outputs (rw s.task_runs h.run_outputs);
      }

  save-Integrity :
      (task : Task) (db : Database Json)
      → Integrity db
      → (r : Result Error (Database Json)) → transact c task db ≡ r
      → Integrity (commit c r db).1
  unfolding save
  save-Integrity task db h (ok db') e =
      Saved-Integrity task db db' h (save-Saved c task db db' (ap (λ r. commit c r db) e))
  save-Integrity task db h (err x) e = h

  create_run-Integrity :
      (run : Execution) (db db' : Database Json)
      → Integrity db
      → create_run run db ≡ ok db'
      → Integrity db'
  unfolding run_row
  create_run-Integrity run db db' h e = go _ refl _ refl (sym (create_run-eq run db) ∙ e)
    where
      go :
          (taken : Bool)
          → has_key (λ r. r.id) run.id db.task_runs ≡ taken
          → (known : Bool) → has_key (λ t. t.id) run.task_id db.tasks ≡ known
          → (if taken
              then err unique_failed
              else if known
              then ok (record db { task_runs = db.task_runs ++ run_row run ∷ [] })
              else err foreign_key_failed)
            ≡ ok db'
          → Integrity db'
      go true p known q r = cc
      go false p false q r = cc
      go false p true q r = subst Integrity (ok_injective _ db' r) (record {
        triggers = h.triggers;
        actions = h.actions;
        task_runs =
            All-append (λ r. has_key (λ t. t.id) r.task_id db.tasks ≡ true) db.task_runs
              (run_row run ∷ []) h.task_runs (q, tt);
        run_outputs =
            Refers-more (λ o. o.run_id) (λ r. r.id) db.run_outputs db.task_runs _
              (λ k. has_key-append_left (λ r. r.id) k db.task_runs (run_row run ∷ []))
              h.run_outputs;
      })

  -- Runs that change but keep their id and their task.
  map_runs-Integrity :
      (f : RunRow → RunRow) (db : Database Json)
      → ((r : RunRow) → (f r).id ≡ r.id)
      → ((r : RunRow) → (f r).task_id ≡ r.task_id)
      → Integrity db
      → Integrity (record db { task_runs = map f db.task_runs })
  map_runs-Integrity f db ids tasks h = record {
    triggers = h.triggers;
    actions = h.actions;
    task_runs = Refers-map (λ r. r.task_id) (λ t. t.id) f db.task_runs db.tasks tasks h.task_runs;
    run_outputs =
        Refers-more (λ o. o.run_id) (λ r. r.id) db.run_outputs db.task_runs (map f db.task_runs)
          (λ k e. has_key-map (λ r. r.id) f k db.task_runs ids ∙ e) h.run_outputs;
  }

  append_output-Integrity :
      (run_id : ExecutionId) (stream content : String) (now : DateTime) (db db' : Database Json)
      → Integrity db
      → append_output run_id stream content now db ≡ ok db'
      → Integrity db'
  unfolding append_output
  append_output-Integrity run_id stream content now db db' h e = go _ refl e
    where
      go :
          (known : Bool)
          → has_key (λ r. r.id) run_id db.task_runs ≡ known
          → (if known
              then ok (record db {
                run_outputs =
                    db.run_outputs ++ output_row db.next_output run_id stream content now ∷ [];
                next_output = db.next_output + 1;
              })
              else err foreign_key_failed)
            ≡ ok db'
          → Integrity db'
      go false q r = cc
      go true q r = subst Integrity (ok_injective _ db' r) (record {
        triggers = h.triggers;
        actions = h.actions;
        task_runs = h.task_runs;
        run_outputs =
            All-append (λ o. has_key (λ r. r.id) o.run_id db.task_runs ≡ true) db.run_outputs _
              h.run_outputs (q, tt);
      })

  Statement-Integrity : (db db' : Database Json) → Statement db db' → Integrity db → Integrity db'
  unfolding save update_run purge_expired_runs recover_dangling_executions save_system_settings
  Statement-Integrity db _ (saved task _) h = save-Integrity task db h (transact c task db) refl
  Statement-Integrity db _ (deleted id _) h = delete-Integrity id db h
  Statement-Integrity db db' (run_created run _ _ e) h = create_run-Integrity run db db' h e
  Statement-Integrity db _ (run_updated run _) h =
      map_runs-Integrity (updating run) db (updating-id run) (updating-task run) h
  Statement-Integrity db db' (output_appended run_id stream content now _ _ e) h =
      append_output-Integrity run_id stream content now db db' h e
  Statement-Integrity db _ (purged task_id before _) h =
      cascade-Integrity (λ r. not (is_expired task_id before r)) db h
  Statement-Integrity db _ (runs_recovered _) h =
      map_runs-Integrity recovered db recovered-id recovered-task h
  Statement-Integrity db _ (settings_saved settings _) h = record {
    triggers = h.triggers;
    actions = h.actions;
    task_runs = h.task_runs;
    run_outputs = h.run_outputs;
  }

  -- No sequence of statements leaves a trigger, an action or a run without its task, or an output
  -- without its run.
  pub Statements-Integrity :
      (db db' : Database Json) → Statements db db' → Integrity db → Integrity db'
  Statements-Integrity db _ done h = h
  Statements-Integrity db db' (next {db' = between} step rest) h =
      Statements-Integrity between db' rest (Statement-Integrity db between step h)
