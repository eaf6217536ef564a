-- ===== src/Persistence/Tasks/Listing.antt =====
-- The tasks that `find_all_enabled` lists.
use mathlib.Core.List.{Memᴰ}
use mathlib.Core.List.Memᴰ
use easy_job.Prelude.{
  ◌≡◌, ◌∙◌, ◌⊎◌, ◌↔◌, refl, ap, sym, subst, Option, none, some, List, [], ◌∷◌, keep_if, inl, inr,
}
use easy_job.Prelude.Result.{Result, ok, >>=-eq-ok, ok_injective}
use easy_job.Domain.Task.{Task}
use easy_job.Common.Error.{Error}
use easy_job.Persistence.Codec.{Codec}
use easy_job.Persistence.Tables.{TaskRow, Database}
use easy_job.Persistence.Tasks.{find_by_id, find_rows, find_all_enabled}

abbrev listed : Option Task → List Task → List Task
listed o tasks = elim o [ none ↦ tasks | some task ↦ task ∷ tasks ]

listed-Memᴰ :
    (o : Option Task) (tasks : List Task) (task : Task)
    → Memᴰ task (listed o tasks)
    → (o ≡ some task) ⊎ Memᴰ task tasks
listed-Memᴰ none tasks task m = inr m
listed-Memᴰ (some t) tasks task (Memᴰ.head e) = inl (ap (λ u. some u) (sym e))
listed-Memᴰ (some t) tasks task (Memᴰ.tail m) = inr m

listed_later :
    (o : Option Task) (tasks : List Task) (task : Task)
    → Memᴰ task tasks
    → Memᴰ task (listed o tasks)
listed_later none tasks task m = m
listed_later (some t) tasks task m = Memᴰ.tail m

listed_first :
    (o : Option Task) (tasks : List Task) (task : Task) → o ≡ some task → Memᴰ task (listed o tasks)
listed_first o tasks task e = subst (λ p. Memᴰ task (listed p tasks)) (sym e) (Memᴰ.head refl)

module _ {Json : Type 0} (c : Codec Json) where
  -- The task is read from a row of the list.
  pub record IsRead (task : Task) (rows : List (TaskRow Json)) (db : Database Json) : Type 0 where
    pub row : TaskRow Json
    pub of_table : Memᴰ row rows
    pub found : find_by_id c row.id db ≡ ok (some task)

  later-IsRead :
      (r : TaskRow Json) (rows : List (TaskRow Json)) (db : Database Json) (task : Task)
      → IsRead task rows db
      → IsRead task (r ∷ rows) db
  later-IsRead r rows db task h = record {
    row = h.row;
    of_table = Memᴰ.tail h.of_table;
    found = h.found;
  }

  find_rows-split :
      (row : TaskRow Json) (rows : List (TaskRow Json)) (db : Database Json) (tasks : List Task)
      → find_rows c (row ∷ rows) db ≡ ok tasks
      → (o : Option Task) × (rest : List Task) × (find_by_id c row.id db ≡ ok o)
        × (find_rows c rows db ≡ ok rest)
        × (listed o rest ≡ tasks)
  unfolding find_rows
  find_rows-split row rows db tasks e =
      let (o, e', found) = >>=-eq-ok _ (find_by_id c row.id db) e in
      let (rest, built, later) = >>=-eq-ok _ (find_rows c rows db) e' in
      (o, rest, found, later, ok_injective _ tasks built)

  find_rows-IsRead :
      (rows : List (TaskRow Json)) (db : Database Json) (tasks : List Task) (task : Task)
      → find_rows c rows db ≡ ok tasks
      → Memᴰ task tasks
      → IsRead task rows db
  unfolding find_rows
  find_rows-IsRead [] db tasks task e m =
      absurd (Memᴰ.not-nil (subst (Memᴰ task) (sym (ok_injective [] tasks e)) m))
  find_rows-IsRead (row ∷ rows) db tasks task e m =
      let (o, rest, found, later, same) = find_rows-split row rows db tasks e in
      elim (listed-Memᴰ o rest task (subst (Memᴰ task) (sym same) m)) [
        | inl here ↦ record {
          row = row;
          of_table = Memᴰ.head refl;
          found = found ∙ ap (λ p. ok p) here;
        }
        | inr there ↦ later-IsRead row rows db task (find_rows-IsRead rows db rest task later there)
      ]

  read-find_rows :
      (rows : List (TaskRow Json)) (db : Database Json) (tasks : List Task) (task : Task)
      (row : TaskRow Json)
      → find_rows c rows db ≡ ok tasks
      → Memᴰ row rows
      → find_by_id c row.id db ≡ ok (some task)
      → Memᴰ task tasks
  read-find_rows [] db tasks task row e m f = absurd (Memᴰ.not-nil m)
  read-find_rows (r ∷ rows) db tasks task row e m f =
      let (o, rest, found, later, same) = find_rows-split r rows db tasks e in
      elim (Memᴰ.cases_cons m) [
        | inl here ↦
            let both : ◌≡◌ {A = Result Error (Option Task)} (ok o) (ok (some task)) =
              sym found ∙ ap (λ (x : TaskRow Json). find_by_id c x.id db) (sym here) ∙ f in
            subst (Memᴰ task) same (listed_first o rest task (ok_injective o (some task) both))
        | inr there ↦
            subst (Memᴰ task) same
              (listed_later o rest task (read-find_rows rows db rest task row later there f))
      ]

  -- The tasks that are listed are those that the rows with the mark `enabled` are read as.
  pub find_all_enabled-IsRead :
      (db : Database Json) (tasks : List Task) (task : Task)
      → find_all_enabled c db ≡ ok tasks
      → Memᴰ task tasks ↔ IsRead task (keep_if (λ r. r.enabled) db.tasks) db
  unfolding find_all_enabled
  find_all_enabled-IsRead db tasks task e =
      let rows = keep_if (λ r. r.enabled) db.tasks in
      (
        find_rows-IsRead rows db tasks task e,
        λ h. read-find_rows rows db tasks task h.row e h.of_table h.found,
      )
