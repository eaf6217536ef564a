-- ===== src/Persistence/Tasks/Frame.antt =====
-- What `save` and `delete` leave alone.
use easy_job.Prelude.{
  ◌≡◌, ◌≢◌, ◌∙◌, false, if◌then◌else◌, refl, ap, ◌==◌, keep_if, Option, none, some, List, [], ◌∷◌,
  ◌++◌, map, keep_if-append, keep_if_none, append_nil, All, arith,
}
use easy_job.Prelude.Result.{ok, ◌>>=◌}
use easy_job.Domain.Trigger.{TaskId}
use easy_job.Domain.Task.{Task}
use easy_job.Persistence.Codec.{Codec}
use easy_job.Persistence.Tables.{TaskRow, Database, delete_rows, select_rows}
use easy_job.Persistence.Tasks.{
  task_row, trigger_row, action_row, row_of, delete, cascade_runs, read_task, read_found,
  find_by_id,
}
use easy_job.Persistence.Tasks.Saving.{row_of-upsert_task_other, select_rows-delete_rows_other}
use easy_job.Persistence.Tasks.Commit.{Saved}

module _ {A B : Type 0} (key : B → TaskId) (f : A → B) where
  -- The rows of a task do not change with those of another.
  select_rows-of_other :
      (j k : TaskId) (old : List B) (xs : List A)
      → j ≢ k
      → ((a : A) → key (f a) ≡ k)
      → select_rows key j (delete_rows key k old ++ map f xs) ≡ select_rows key j old
  unfolding select_rows
  select_rows-of_other j k old xs n h =
      keep_if-append (λ b. key b == j) (delete_rows key k old) (map f xs)
      ∙ ap (λ l. keep_if (λ b. key b == j) (delete_rows key k old) ++ l)
          (keep_if_none (λ b. key b == j) (map f xs) (of_key xs))
      ∙ append_nil _
      ∙ select_rows-delete_rows_other key j k old n
    where
      of_key : (ys : List A) → All (λ b. (key b == j) ≡ false) (map f ys)
      of_key [] = tt
      of_key (y ∷ ys) = (let e = h y in ground arith, of_key ys)

module _ {Json : Type 0} (c : Codec Json) where
  -- What `find_by_id` reads of a database.
  pub record Agree (id : TaskId) (db db' : Database Json) : Type 0 where
    pub row : row_of id db'.tasks ≡ row_of id db.tasks
    pub triggers :
        select_rows (λ r. r.task_id) id db'.triggers ≡ select_rows (λ r. r.task_id) id db.triggers
    pub actions :
        select_rows (λ r. r.task_id) id db'.actions ≡ select_rows (λ r. r.task_id) id db.actions

  read_task-Agree :
      (row : TaskRow Json) (id : TaskId) (db db' : Database Json)
      → Agree id db db'
      → read_task c row id db' ≡ read_task c row id db
  unfolding read_task
  read_task-Agree row id db db' h = rw h.triggers (rw h.actions refl)

  read_found-Agree :
      (found : Option (TaskRow Json)) (id : TaskId) (db db' : Database Json)
      → Agree id db db'
      → read_found c found id db' ≡ read_found c found id db
  read_found-Agree none id db db' h = refl
  read_found-Agree (some row) id db db' h =
      ap (λ r. r >>= λ task. ok (some task)) (read_task-Agree row id db db' h)

  pub find_by_id-Agree :
      (id : TaskId) (db db' : Database Json)
      → Agree id db db'
      → find_by_id c id db' ≡ find_by_id c id db
  unfolding find_by_id
  find_by_id-Agree id db db' h =
      ap (λ o. read_found c o id db') h.row ∙ read_found-Agree (row_of id db.tasks) id db db' h

  pub Saved-Agree :
      (task : Task) (id : TaskId) (db db' : Database Json)
      → id ≢ task.id
      → Saved c task db db'
      → Agree id db db'
  unfolding task_row trigger_row action_row
  Saved-Agree task id db db' n s = record {
    row = ap (row_of id) s.tasks ∙ row_of-upsert_task_other c id (task_row c task) db.tasks n;
    triggers =
        ap (select_rows (λ r. r.task_id) id) s.triggers
        ∙ select_rows-of_other (λ r. r.task_id) (trigger_row c task.id) id task.id db.triggers
            task.triggers n (λ t. refl);
    actions =
        ap (select_rows (λ r. r.task_id) id) s.actions
        ∙ select_rows-of_other (λ r. r.task_id) (action_row c task.id) id task.id db.actions
            task.actions n (λ a. refl);
  }

  row_of-delete_rows :
      (j k : TaskId) (rows : List (TaskRow Json))
      → row_of j (delete_rows (λ r. r.id) k rows) ≡ (if k == j then none else row_of j rows)
  unfolding delete_rows
  row_of-delete_rows j k [] = ground arith
  row_of-delete_rows j k (row ∷ rows) = ground (arith, row_of-delete_rows j k rows)

  pub delete-Agree : (id j : TaskId) (db : Database Json) → j ≢ id → Agree j db (delete id db)
  unfolding delete cascade_runs
  delete-Agree id j db n = record {
    row = ground (arith, row_of-delete_rows j id db.tasks);
    triggers = select_rows-delete_rows_other (λ r. r.task_id) j id db.triggers n;
    actions = select_rows-delete_rows_other (λ r. r.task_id) j id db.actions n;
  }

  pub find_by_id-delete :
      (id : TaskId) (db : Database Json) → find_by_id c id (delete id db) ≡ ok none
  unfolding find_by_id delete cascade_runs
  find_by_id-delete id db =
      let gone : row_of id (delete_rows (λ r. r.id) id db.tasks) ≡ none =
        ground (arith, row_of-delete_rows id id db.tasks) in
      ap (λ o. read_found c o id (delete id db)) gone
