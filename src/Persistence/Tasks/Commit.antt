-- ===== src/Persistence/Tasks/Commit.antt =====
-- What a transaction of `save` that succeeds has done.
use easy_job.Prelude.{◌≡◌, ◌∙◌, refl, ap, sym, List, ◌++◌, map}
use easy_job.Prelude.Result.{Result, ok, err, ok_injective, ◌>>=◌}
use easy_job.Domain.Task.{Task}
use easy_job.Common.Error.{Error}
use easy_job.Persistence.Codec.{Codec}
use easy_job.Persistence.Tables.{TriggerRow, ActionRow, Database, delete_rows}
use easy_job.Persistence.Tasks.{
  task_row, upsert_task, trigger_row, action_row, insert_triggers, insert_actions, transact, save,
  commit,
}
use easy_job.Persistence.Tasks.Saving.{insert_each-adds}

module _ {Json : Type 0} (c : Codec Json) where
  -- What a transaction that succeeds has done.
  pub record Saved (task : Task) (db db' : Database Json) : Type 0 where
    pub tasks : db'.tasks ≡ upsert_task c (task_row c task) db.tasks
    pub triggers :
        db'.triggers
        ≡ delete_rows (λ r. r.task_id) task.id db.triggers
          ++ map (trigger_row c task.id) task.triggers
    pub actions :
        db'.actions
        ≡ delete_rows (λ r. r.task_id) task.id db.actions ++ map (action_row c task.id) task.actions
    pub task_runs : db'.task_runs ≡ db.task_runs
    pub run_outputs : db'.run_outputs ≡ db.run_outputs

  built-Saved :
      (task : Task) (db db' : Database Json) (triggers : Result Error (List (TriggerRow Json)))
      (actions : Result Error (List (ActionRow Json)))
      → insert_triggers c task.id task.triggers (delete_rows (λ r. r.task_id) task.id db.triggers)
        ≡ triggers
      → insert_actions c task.id task.actions (delete_rows (λ r. r.task_id) task.id db.actions)
        ≡ actions
      → (triggers >>= λ ts. actions >>= λ rows. ok (record db {
        tasks = upsert_task c (task_row c task) db.tasks;
        triggers = ts;
        actions = rows;
      }))
        ≡ ok db'
      → Saved task db db'
  built-Saved task db db' (ok ts) (ok rows) e f h =
      let same = ok_injective _ db' h in
      record {
        tasks = ap (λ d. d.tasks) (sym same);
        triggers =
            ap (λ d. d.triggers) (sym same)
            ∙ insert_each-adds (λ r. r.id) (trigger_row c task.id) task.triggers _ ts e;
        actions =
            ap (λ d. d.actions) (sym same)
            ∙ insert_each-adds (λ r. r.id) (action_row c task.id) task.actions _ rows f;
        task_runs = ap (λ d. d.task_runs) (sym same);
        run_outputs = ap (λ d. d.run_outputs) (sym same);
      }
  built-Saved task db db' (ok ts) (err x) e f h = cc
  built-Saved task db db' (err x) actions e f h = cc

  commit-eq-ok :
      (r : Result Error (Database Json)) (db db' : Database Json)
      → commit c r db ≡ (ok tt, db')
      → r ≡ ok db'
  commit-eq-ok (ok a) db db' h = cc
  commit-eq-ok (err e) db db' h = cc

  pub save-Saved :
      (task : Task) (db db' : Database Json) → save c task db ≡ (ok tt, db') → Saved task db db'
  unfolding save transact
  save-Saved task db db' h =
      built-Saved task db db' _ _ refl refl (commit-eq-ok (transact c task db) db db' h)
