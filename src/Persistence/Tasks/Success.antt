-- ===== src/Persistence/Tasks/Success.antt =====
-- When `save` succeeds.
use easy_job.Prelude.{
  ℕ, ◌≡◌, ◌∙◌, ◌==◌, false, refl, ap, List, [], ◌∷◌, ◌++◌, map, any, append_assoc, append_nil,
  arith,
}
use easy_job.Prelude.Result.{ok}
use easy_job.Domain.Task.{Task}
use easy_job.Persistence.Codec.{Codec, IsFaithful}
use easy_job.Persistence.Tables.{Database, insert_row, has_key, delete_rows}
use easy_job.Persistence.Tasks.{
  insert_each, trigger_row, action_row, transact, save, commit, find_by_id, row_of, task_row,
  upsert_task,
}
use easy_job.Persistence.Tasks.RoundTrip.{stored, if_any, save-find_by_id}

-- The keys are new to the table, and different from one another.
abbrev pub AreNew : {B : Type 0} → (B → ℕ) → List ℕ → List B → Type 0
AreNew key [] rows = Unit
AreNew key (k ∷ ks) rows =
    (has_key key k rows ≡ false) × (any (λ j. k == j) ks ≡ false) × AreNew key ks rows

module _ {A B : Type 0} (key : B → ℕ) (row : A → B) where
  has_key-append :
      (k : ℕ) (rows : List B) (b : B)
      → has_key key k rows ≡ false
      → (key b == k) ≡ false
      → has_key key k (rows ++ b ∷ []) ≡ false
  has_key-append k [] b h n = ground arith
  has_key-append k (r ∷ rows) b h n = ground (arith, has_key-append k rows b)

  AreNew-append :
      (ks : List ℕ) (rows : List B) (b : B)
      → any (λ j. key b == j) ks ≡ false
      → AreNew key ks rows
      → AreNew key ks (rows ++ b ∷ [])
  AreNew-append [] rows b n h = tt
  AreNew-append (k ∷ ks) rows b n (fresh, apart, later) = (
    has_key-append k rows b fresh (ground arith),
    apart,
    AreNew-append ks rows b (ground arith) later,
  )

  insert_each-AreNew :
      (xs : List A) (rows : List B)
      → AreNew key (map (λ x. key (row x)) xs) rows
      → insert_each key row xs rows ≡ ok (rows ++ map row xs)
  unfolding insert_each insert_row
  insert_each-AreNew [] rows h = rw (append_nil rows) refl
  insert_each-AreNew (x ∷ xs) rows (fresh, apart, later) = rw fresh (
      insert_each-AreNew xs (rows ++ row x ∷ [])
        (AreNew-append (map (λ y. key (row y)) xs) rows (row x) apart later)
      ∙ ap (λ l. ok l) (append_assoc rows (row x ∷ []) (map row xs)))

module _ {Json : Type 0} (c : Codec Json) where
  saved_database : Task → Database Json → Database Json
  saved_database task db = record db {
    tasks = upsert_task c (task_row c task) db.tasks;
    triggers =
        delete_rows (λ r. r.task_id) task.id db.triggers
        ++ map (trigger_row c task.id) task.triggers;
    actions =
        delete_rows (λ r. r.task_id) task.id db.actions ++ map (action_row c task.id) task.actions;
  }

  -- A task whose triggers bear ids that differ from one another and that no other task's trigger has,
  -- and whose actions do likewise, is saved. It is then found as it was saved, with its actions in
  -- sequence; if it was there before, with its first creation time and the next version. Where that
  -- version is beyond `i64` the read panics.
  pub save-succeeds :
      (task : Task) (db : Database Json)
      → IsFaithful c
      → AreNew
          (λ r. r.id)
          (map (λ t. t.id) task.triggers)
          (delete_rows (λ r. r.task_id) task.id db.triggers)
      → AreNew
          (λ r. r.id)
          (map (λ a. a.id) task.actions)
          (delete_rows (λ r. r.task_id) task.id db.actions)
      → (db' : Database Json) × (save c task db ≡ (ok tt, db'))
        × (find_by_id c task.id db' ≡ if_any (stored task (row_of task.id db.tasks)))
  unfolding save transact trigger_row action_row saved_database
  save-succeeds task db f ht ha =
      let triggers =
        insert_each-AreNew (λ r. r.id) (trigger_row c task.id) task.triggers
          (delete_rows (λ r. r.task_id) task.id db.triggers) ht in
      let actions =
        insert_each-AreNew (λ r. r.id) (action_row c task.id) task.actions
          (delete_rows (λ r. r.task_id) task.id db.actions) ha in
      let done : transact c task db ≡ ok (saved_database task db) = simp (triggers, actions) refl in
      let saved = ap (λ r. commit c r db) done in
      (saved_database task db, saved, save-find_by_id c task db (saved_database task db) f saved)
