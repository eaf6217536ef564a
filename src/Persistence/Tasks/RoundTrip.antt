-- ===== src/Persistence/Tasks/RoundTrip.antt =====
-- `save` followed by `find_by_id`.
use easy_job.Prelude.{
  ◌≡◌, ◌∙◌, leb, Bool, true, Bool-cases, refl, ap, ◌==◌, keep_if, Option, none, some, List, [], ◌∷◌,
  ◌++◌, map, keep_if-append, keep_if_all, All, arith, inl, inr,
}
use easy_job.Prelude.Int.{ℤ}
use easy_job.Prelude.Result.{Result, ok, ◌>>=◌, traverse, traverse-map}
use easy_job.Common.Error.{Error}
use easy_job.Domain.Trigger.{TaskId, Trigger}
use easy_job.Domain.Task.{Action, Task}
use easy_job.Persistence.Codec.{Codec, IsFaithful}
use easy_job.Persistence.Tables.{TaskRow, Database, delete_rows, select_rows}
use easy_job.Persistence.Tasks.{
  insert_ordered, order_by, task_row, update_row, trigger_row, action_row, row_of, save, read_task,
  read_found, find_by_id, parsed, next_version, read_version,
}
use easy_job.Persistence.Tasks.Commit.{save-Saved}
use easy_job.Persistence.Tasks.Saving.{merged, row_of-upsert_task, select_rows-delete_rows_same}

module _ {A B : Type 0} (f : A → B) (before : B → B → Bool) where
  insert_ordered-map :
      (x : A) (xs : List A)
      → insert_ordered before (f x) (map f xs)
        ≡ map f (insert_ordered (λ a b. before (f a) (f b)) x xs)
  unfolding insert_ordered
  insert_ordered-map x [] = refl
  insert_ordered-map x (y ∷ ys) = elim (Bool-cases (before (f x) (f y))) [
    | inl t ↦ rw t refl
    | inr e ↦ rw e (ap (λ l. f y ∷ l) (insert_ordered-map x ys))
  ]

  pub order_by-map :
      (xs : List A) → order_by before (map f xs) ≡ map f (order_by (λ a b. before (f a) (f b)) xs)
  unfolding order_by
  order_by-map [] = refl
  order_by-map (x ∷ xs) =
      ap (insert_ordered before (f x)) (order_by-map xs)
      ∙ insert_ordered-map x (order_by (λ a b. before (f a) (f b)) xs)

-- The rows that replace those of a task are the rows of the task.
select_rows-of_task :
    {A B : Type 0} (key : B → TaskId) (f : A → B) (k : TaskId) (old : List B) (xs : List A)
    → ((a : A) → key (f a) ≡ k)
    → select_rows key k (delete_rows key k old ++ map f xs) ≡ map f xs
unfolding select_rows
select_rows-of_task key f k old xs h =
    keep_if-append (λ b. key b == k) (delete_rows key k old) (map f xs)
    ∙ ap (λ l. l ++ keep_if (λ b. key b == k) (map f xs)) (select_rows-delete_rows_same key k old)
    ∙ keep_if_all (λ b. key b == k) (map f xs) (of_key xs)
  where
    of_key : (ys : List _) → All (λ b. (key b == k) ≡ true) (map f ys)
    of_key [] = tt
    of_key (y ∷ ys) = (let e = h y in ground arith, of_key ys)

-- The actions of a task in the order in which they are to run.
abbrev pub in_sequence : List Action → List Action
in_sequence actions = order_by (λ a b. leb a.sequence b.sequence) actions

-- What the repository holds after a task was saved over the row that was there.
abbrev pub stored : {Json : Type 0} → Task → Option (TaskRow Json) → Result Error Task
stored task none = ok (record task { actions = in_sequence task.actions })
stored task (some row) = read_version (next_version row.version) >>= λ (version : ℤ).
    ok (record task {
      actions = in_sequence task.actions;
      version = version;
      created_at = row.created_at;
    })

abbrev pub if_any : Result Error Task → Result Error (Option Task)
if_any r = r >>= λ (task : Task). ok (some task)

module _ {Json : Type 0} (c : Codec Json) where
  sorted_actions :
      (id : TaskId) (actions : List Action)
      → order_by (λ r s. leb r.sequence s.sequence) (map (action_row c id) actions)
        ≡ map (action_row c id) (in_sequence actions)
  unfolding action_row
  sorted_actions id actions =
      order_by-map (action_row c id) (λ r s. leb r.sequence s.sequence) actions

  read_triggers :
      IsFaithful c
      → (id : TaskId) (triggers : List Trigger)
      → traverse (λ r. parsed (c.read_trigger r.config_json)) (map (trigger_row c id) triggers)
        ≡ ok triggers
  unfolding trigger_row
  read_triggers f id triggers =
      traverse-map _ (trigger_row c id) (λ t. ap parsed (f.trigger t)) triggers

  read_actions :
      IsFaithful c
      → (id : TaskId) (actions : List Action)
      → traverse (λ r. parsed (c.read_action r.config_json)) (map (action_row c id) actions)
        ≡ ok actions
  unfolding action_row
  read_actions f id actions = traverse-map _ (action_row c id) (λ a. ap parsed (f.action a)) actions

  read_task-rows :
      (row : TaskRow Json) (task : Task) (db : Database Json)
      → IsFaithful c
      → select_rows (λ r. r.task_id) task.id db.triggers ≡ map (trigger_row c task.id) task.triggers
      → select_rows (λ r. r.task_id) task.id db.actions ≡ map (action_row c task.id) task.actions
      → row.execution_policy_json ≡ c.write_policy task.execution_policy
      → row.environment_json ≡ c.write_environment task.environment
      → read_task c row task.id db ≡ (
          read_version row.version >>= λ (version : ℤ). ok (record task {
            name = row.name;
            description = row.description;
            enabled = row.enabled;
            actions = in_sequence task.actions;
            working_directory = row.working_directory;
            version = version;
            created_at = row.created_at;
            updated_at = row.updated_at;
          }))
  unfolding read_task
  read_task-rows row task db f et ea ep ee = rw et (
      rw (read_triggers f task.id task.triggers) (
        rw ea (
          rw (sorted_actions task.id task.actions) (
            rw (read_actions f task.id (in_sequence task.actions)) (
              rw ep (
                rw (f.policy task.execution_policy)
                  (rw ee (rw (f.environment task.environment) refl))))))))

  read_stored :
      (task : Task) (old : Option (TaskRow Json)) (db : Database Json)
      → IsFaithful c
      → select_rows (λ r. r.task_id) task.id db.triggers ≡ map (trigger_row c task.id) task.triggers
      → select_rows (λ r. r.task_id) task.id db.actions ≡ map (action_row c task.id) task.actions
      → read_found c (some (merged c (task_row c task) old)) task.id db ≡ if_any (stored task old)
  unfolding task_row update_row
  read_stored task none db f et ea =
      rw (read_task-rows (task_row c task) task db f et ea refl refl) refl
  read_stored task (some row) db f et ea =
      rw (read_task-rows (update_row c (task_row c task) row) task db f et ea refl refl) refl

  -- What was saved is what is found: the actions in their sequence, and for a task that was there
  -- before its first creation time and the next version, which cannot be read beyond `i64`.
  pub save-find_by_id :
      (task : Task) (db db' : Database Json)
      → IsFaithful c
      → save c task db ≡ (ok tt, db')
      → find_by_id c task.id db' ≡ if_any (stored task (row_of task.id db.tasks))
  unfolding find_by_id task_row trigger_row action_row
  save-find_by_id task db db' f h =
      let s = save-Saved c task db db' h in
      let row = row_of-upsert_task c (task_row c task) db.tasks in
      ap (λ o. read_found c o task.id db') (ap (row_of task.id) s.tasks ∙ row)
      ∙ read_stored task (row_of task.id db.tasks) db' f
          (ap (select_rows (λ r. r.task_id) task.id) s.triggers
            ∙ select_rows-of_task (λ r. r.task_id) (trigger_row c task.id) task.id db.triggers
                task.triggers (λ t. refl))
          (ap (select_rows (λ r. r.task_id) task.id) s.actions
            ∙ select_rows-of_task (λ r. r.task_id) (action_row c task.id) task.id db.actions
                task.actions (λ a. refl))
