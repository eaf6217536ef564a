-- ===== src/Persistence/Tasks/Saving.antt =====
-- What the statements of `save` do to each table, and the order of the actions.
use easy_job.Prelude.{
  ◌≡◌, ◌≢◌, ◌∙◌, ℕ, ◌==◌, Bool-cases, true, false, not, refl, ap, Option, none, some, List, [], ◌∷◌,
  ◌++◌, map, keep_if, keep_if_none, keep_if_passes, keep_if-keep_if, All-map, append_assoc,
  append_nil, arith, inl, inr,
}
use easy_job.Prelude.Result.{ok, >>=-eq-ok}
use easy_job.Domain.Trigger.{TaskId}
use easy_job.Persistence.Codec.{Codec}
use easy_job.Persistence.Tables.{TaskRow, insert_row, delete_rows, select_rows}
use easy_job.Persistence.Tasks.{update_row, upsert_task, insert_each, row_of}

module _ {A : Type 0} (key : A → ℕ) where
  pub insert_row-adds :
      (a : A) (rows rows' : List A) → insert_row key a rows ≡ ok rows' → rows' ≡ rows ++ a ∷ []
  unfolding insert_row
  insert_row-adds a rows rows' h = ground arith

  pub select_rows-delete_rows_same :
      (k : ℕ) (rows : List A) → select_rows key k (delete_rows key k rows) ≡ []
  unfolding select_rows delete_rows
  select_rows-delete_rows_same k rows =
      keep_if_none (λ a. key a == k) (keep_if (λ a. not (key a == k)) rows)
        (All-map (λ a. not (key a == k) ≡ true) (λ a. (key a == k) ≡ false) _ (λ a h. ground arith)
          (keep_if_passes (λ a. not (key a == k)) rows))

  pub select_rows-delete_rows_other :
      (j k : ℕ) (rows : List A)
      → j ≢ k
      → select_rows key j (delete_rows key k rows) ≡ select_rows key j rows
  unfolding select_rows delete_rows
  select_rows-delete_rows_other j k rows n =
      keep_if-keep_if (λ a. key a == j) (λ a. not (key a == k)) rows λ a e. ground arith

module _ {A B : Type 0} (key : B → ℕ) (row : A → B) where
  pub insert_each-adds :
      (xs : List A) (rows rows' : List B)
      → insert_each key row xs rows ≡ ok rows'
      → rows' ≡ rows ++ map row xs
  unfolding insert_each
  insert_each-adds [] rows rows' h = rw (append_nil rows) cc
  insert_each-adds (x ∷ xs) rows rows' h =
      let (rows₁, r, e) = >>=-eq-ok _ _ h in
      insert_each-adds xs rows₁ rows' r
      ∙ ap (λ l. l ++ map row xs) (insert_row-adds key _ rows rows₁ e)
      ∙ append_assoc rows _ _

module _ {Json : Type 0} (c : Codec Json) where
  pub row_of-upsert_task_other :
      (j : TaskId) (new : TaskRow Json) (rows : List (TaskRow Json))
      → j ≢ new.id
      → row_of j (upsert_task c new rows) ≡ row_of j rows
  unfolding upsert_task update_row
  row_of-upsert_task_other j new [] n = ground arith
  row_of-upsert_task_other j new (row ∷ rows) n =
      ground (arith, row_of-upsert_task_other j new rows n)

  abbrev pub merged : TaskRow Json → Option (TaskRow Json) → TaskRow Json
  merged new none = new
  merged new (some row) = update_row c new row

  pub row_of-upsert_task :
      (new : TaskRow Json) (rows : List (TaskRow Json))
      → row_of new.id (upsert_task c new rows) ≡ some (merged new (row_of new.id rows))
  unfolding upsert_task update_row
  row_of-upsert_task new [] = ground arith
  row_of-upsert_task new (row ∷ rows) = elim (Bool-cases (row.id == new.id)) [
    | inl t ↦ rw t (rw t refl)
    | inr f ↦ rw f (rw f (row_of-upsert_task new rows))
  ]
