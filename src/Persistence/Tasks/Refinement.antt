-- ===== src/Persistence/Tasks/Refinement.antt =====
-- The repository of tasks as a store of tasks under their ids.
use easy_job.Prelude.{
  ◌≡◌, ◌∙◌, ◌==◌, sym, Bool, true, false, if◌then◌else◌, Bool-cases, refl, ap, subst, Option, none,
  some, List, [], ◌∷◌, arith, inl, inr,
}
use easy_job.Prelude.Int.{ℤ}
use easy_job.Prelude.Result.{Result, ok, err, Holds, >>=-Holds, ◌>>=◌}
use easy_job.Domain.Trigger.{TaskId, DateTime}
use easy_job.Domain.Task.{Task}
use easy_job.Common.Error.{Error}
use easy_job.Persistence.Codec.{Codec, IsFaithful}
use easy_job.Persistence.Tables.{TaskRow, Database, Version, integer, real}
use easy_job.Persistence.Tasks.{
  transact, save, commit, delete, read_task, read_found, task_of, find_by_id, row_of, next_version,
  panicked, read_version, task_row, update_row,
}
use easy_job.Persistence.Tasks.RoundTrip.{in_sequence, stored, if_any, save-find_by_id}
use easy_job.Persistence.Tasks.Saving.{merged, row_of-upsert_task}
use easy_job.Persistence.Tasks.Commit.{save-Saved}
use easy_job.Persistence.Tasks.Frame.{
  Agree, find_by_id-Agree, Saved-Agree, delete-Agree, find_by_id-delete,
}

-- What the repository has under an id: nothing, a task, or one whose version is beyond `i64`.
pub data Entry : Type 0 where
  absent : Entry
  held : Task → Entry
  unreadable : Entry

abbrev pub Store : Type 0
Store = TaskId → Entry

-- What is found of an entry.
abbrev pub expected : Entry → Result Error (Option Task)
expected absent = ok none
expected (held task) = ok (some task)
expected unreadable = err panicked

abbrev pub versioned : Version → Task → DateTime → Entry
versioned (integer v) task created_at =
    held (record task { actions = in_sequence task.actions; version = v; created_at = created_at })
versioned real task created_at = unreadable

-- A task that is saved takes the creation time of its predecessor and the next version.
abbrev pub renewed : Task → Entry → Entry
renewed task absent = held (record task { actions = in_sequence task.actions })
renewed task (held old) = versioned (next_version (integer old.version)) task old.created_at
renewed task unreadable = unreadable

pub data Change : Type 0 where
  saving : Task → Change
  deleting : TaskId → Change

abbrev pub apply : Change → Store → Store
apply (saving task) s id = if id == task.id then renewed task (s task.id) else s id
apply (deleting gone) s id = if id == gone then absent else s id

abbrev pub replay : List Change → Store → Store
replay [] s = s
replay (change ∷ changes) s = replay changes (apply change s)

module _ {Json : Type 0} (c : Codec Json) where
  abbrev pub perform : Change → Database Json → Database Json
  perform (saving task) db = (save c task db).1
  perform (deleting id) db = delete id db

  abbrev pub perform_all : List Change → Database Json → Database Json
  perform_all [] db = db
  perform_all (change ∷ changes) db = perform_all changes (perform change db)

  abbrev pub is_ok : Result Error (Database Json) → Bool
  is_ok (ok _) = true
  is_ok (err _) = false

  abbrev pub succeeds : Change → Database Json → Bool
  succeeds (saving task) db = is_ok (transact c task db)
  succeeds (deleting id) db = true

  -- The changes that the database accepts, in their order.
  abbrev pub accepted : List Change → Database Json → List Change
  accepted [] db = []
  accepted (change ∷ changes) db =
      let later = accepted changes (perform change db) in
      if succeeds change db then change ∷ later else later

  -- An entry that cannot be read is a row with a version beyond `i64`.
  abbrev pub IsLost : Entry → Option (TaskRow Json) → Type 0
  IsLost unreadable none = ⊥
  IsLost unreadable (some row) = row.version ≡ real
  IsLost _ row = Unit

  pub record Reads (id : TaskId) (db : Database Json) (entry : Entry) : Type 0 where
    pub found : find_by_id c id db ≡ expected entry
    pub lost : IsLost entry (row_of id db.tasks)

  abbrev pub Represents : Database Json → Store → Type 0
  Represents db s = (id : TaskId) → Reads id db (s id)

  abbrev IsOf : TaskRow Json → Task → Type 0
  IsOf row t = (row.version ≡ integer t.version) × (t.created_at ≡ row.created_at)

  version-Holds :
      (v : Version) (at : DateTime) (task : ℤ → Task)
      → ((x : ℤ) → ((task x).version ≡ x) × ((task x).created_at ≡ at))
      → Holds
          (λ (t : Task). (v ≡ integer t.version) × (t.created_at ≡ at))
          (read_version v >>= λ x. ok (task x))
  version-Holds (integer x) at task h = (ap (λ y. integer y) (sym ((h x).0)), (h x).1)
  version-Holds real at task h = tt

  assembled-Holds :
      {R A B C D : Type 0} (P : R → Type 0) (m₁ : Result Error A) (m₂ : Result Error B)
      (m₃ : Result Error C) (m₄ : Result Error D) (k : A → B → C → D → Result Error R)
      → ((a : A) (b : B) (x : C) (d : D) → Holds P (k a b x d))
      → Holds P (m₁ >>= λ a. m₂ >>= λ b. m₃ >>= λ x. m₄ >>= λ d. k a b x d)
  assembled-Holds P m₁ m₂ m₃ m₄ k h =
      >>=-Holds P m₁ _
        λ a. >>=-Holds P m₂ _ λ b. >>=-Holds P m₃ _ λ x. >>=-Holds P m₄ _ λ d. h a b x d

  read_task-Holds :
      (row : TaskRow Json) (id : TaskId) (db : Database Json)
      → Holds (IsOf row) (read_task c row id db)
  unfolding read_task
  read_task-Holds row id db =
      assembled-Holds (IsOf row) _ _ _ _
        (λ triggers actions policy environment. read_version row.version >>= λ version.
          ok (task_of row id triggers actions policy environment version))
        λ triggers actions policy environment.
          version-Holds row.version row.created_at
            (task_of row id triggers actions policy environment) λ x. (refl, refl)

  found_one :
      (row : TaskRow Json) (r : Result Error Task) (old : Task)
      → Holds (IsOf row) r
      → if_any r ≡ ok (some old)
      → IsOf row old
  found_one row (ok t) old h e = let same : t ≡ old = cc in subst (IsOf row) same h
  found_one row (err x) old h e = cc

  not_none : (r : Result Error Task) → if_any r ≡ ok none → ⊥
  not_none (ok t) e = cc
  not_none (err x) e = cc

  versioned-expected :
      (v : Version) (task : Task) (at : DateTime)
      → if_any (
          read_version v >>= λ (version : ℤ).
          ok (record task {
            actions = in_sequence task.actions;
            version = version;
            created_at = at;
          }))
        ≡ expected (versioned v task at)
  versioned-expected (integer x) task at = refl
  versioned-expected real task at = refl

  versioned-IsLost :
      (v : Version) (task : Task) (at : DateTime) (row : TaskRow Json)
      → row.version ≡ v
      → IsLost (versioned v task at) (some row)
  versioned-IsLost (integer x) task at row e = tt
  versioned-IsLost real task at row e = e

  stored-renewed :
      (task : Task) (row : Option (TaskRow Json)) (db : Database Json) (entry : Entry)
      → read_found c row task.id db ≡ expected entry
      → IsLost entry row
      → (if_any (stored task row) ≡ expected (renewed task entry))
        × IsLost (renewed task entry) (some (merged c (task_row c task) row))
  unfolding update_row next_version
  stored-renewed task none db absent e h = (refl, tt)
  stored-renewed task none db (held t) e h = cc
  stored-renewed task none db unreadable e h = absurd h
  stored-renewed task (some row) db absent e h = absurd (not_none (read_task c row task.id db) e)
  stored-renewed task (some row) db (held t) e h =
      let (same, at) =
        found_one row (read_task c row task.id db) t (read_task-Holds row task.id db) e in
      let v = next_version (integer t.version) in
      (
        rw same (rw⁻¹ at (versioned-expected v task t.created_at)),
        versioned-IsLost v task t.created_at _ (ap next_version same),
      )
  stored-renewed task (some row) db unreadable e h = (rw h refl, ap next_version h)

  saved-Reads :
      (task : Task) (db db' : Database Json) (s : Store)
      → IsFaithful c
      → save c task db ≡ (ok tt, db')
      → Represents db s
      → Reads task.id db' (renewed task (s task.id))
  unfolding find_by_id task_row
  saved-Reads task db db' s f e h =
      let old = h task.id in
      let (same, lost) =
        stored-renewed task (row_of task.id db.tasks) db (s task.id) old.found old.lost in
      let row = row_of-upsert_task c (task_row c task) db.tasks in
      record {
        found = save-find_by_id c task db db' f e ∙ same;
        lost =
            subst (IsLost (renewed task (s task.id)))
              (sym (ap (row_of task.id) (save-Saved c task db db' e).tasks ∙ row)) lost;
      }

  same-Reads :
      (id : TaskId) (db db' : Database Json) (entry : Entry)
      → Agree c id db db'
      → Reads id db entry
      → Reads id db' entry
  same-Reads id db db' entry a h = record {
    found = find_by_id-Agree c id db db' a ∙ h.found;
    lost = subst (IsLost entry) (sym a.row) h.lost;
  }

  save-Represents :
      (task : Task) (db : Database Json) (s : Store)
      → IsFaithful c
      → (r : Result Error (Database Json)) → transact c task db ≡ r
      → Represents db s
      → Represents (commit c r db).1 (if is_ok r then apply (saving task) s else s)
  unfolding save
  save-Represents task db s f (ok db') e h id = elim (Bool-cases (id == task.id)) [
    | inl t ↦
        let same : id ≡ task.id = ground arith in
        rw t (
          subst (λ j. Reads j db' (renewed task (s task.id))) (sym same)
            (saved-Reads task db db' s f (ap (λ r. commit c r db) e) h))
    | inr n ↦ rw n (
        same-Reads id db db' (s id)
          (Saved-Agree c task id db db' (ground arith)
            (save-Saved c task db db' (ap (λ r. commit c r db) e)))
          (h id))
  ]
  save-Represents task db s f (err x) e h id = h id

  delete-Represents :
      (gone : TaskId) (db : Database Json) (s : Store)
      → Represents db s
      → Represents (delete gone db) (apply (deleting gone) s)
  delete-Represents gone db s h id = elim (Bool-cases (id == gone)) [
    | inl t ↦
        let same : id ≡ gone = ground arith in
        rw t (record {
          found = ap (λ j. find_by_id c j (delete gone db)) same ∙ find_by_id-delete c gone db;
          lost = tt;
        })
    | inr n ↦
        rw n (
          same-Reads id db (delete gone db) (s id) (delete-Agree c gone id db (ground arith))
            (h id))
  ]

  apply-Represents :
      (change : Change) (db : Database Json) (s : Store)
      → IsFaithful c
      → Represents db s
      → Represents (perform change db) (if succeeds change db then apply change s else s)
  unfolding save
  apply-Represents (saving task) db s f h = save-Represents task db s f (transact c task db) refl h
  apply-Represents (deleting gone) db s f h = delete-Represents gone db s h

  -- Through any changes the repository finds under each id what the accepted changes have put there.
  pub perform_all-Represents :
      (changes : List Change) (db : Database Json) (s : Store)
      → IsFaithful c
      → Represents db s
      → Represents (perform_all changes db) (replay (accepted changes db) s)
  perform_all-Represents [] db s f h = h
  perform_all-Represents (change ∷ changes) db s f h =
      let chosen : (b : Bool)
          → succeeds change db ≡ b
          → Represents (perform change db) (if b then apply change s else s) =
        λ b e.
          subst (λ v. Represents (perform change db) (if v then apply change s else s)) e
            (apply-Represents change db s f h) in
      elim (Bool-cases (succeeds change db)) [
        | inl t ↦
            rw t (
              perform_all-Represents changes (perform change db) (apply change s) f (chosen true t))
        | inr e ↦ rw e (perform_all-Represents changes (perform change db) s f (chosen false e))
      ]
