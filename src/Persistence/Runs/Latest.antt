-- ===== src/Persistence/Runs/Latest.antt =====
-- `find_latest_run_per_task` yields for each task the latest of its runs.
use mathlib.Core.List.{Memᴰ}
use easy_job.Prelude.{
  ◌≡◌, ◌⊎◌, ◌∙◌, ◌==◌, ◌&&◌, not, not-true, Bool, true, false, if◌then◌else◌, Bool-cases, refl, ap,
  some, List, [], ◌∷◌, any, keep_if, keep_if_passes, keep_if-Memᴰ, Memᴰ-keep_if, Memᴰ-any, any_none,
  All, All-map, All-zip, All-keep_if, All-Memᴰ, All-of_keep_if, arith, inl, inr,
}
use easy_job.Prelude.Map
use easy_job.Prelude.Map.{Map, get-insert}
use easy_job.Domain.Trigger.{TaskId}
use easy_job.Domain.Execution.{Execution}
use easy_job.Persistence.Tables.{RunRow, Database}
use easy_job.Persistence.Runs.{
  newer, is_newest, is_one_of, collect_latest, map_row_to_execution, find_latest_run_per_task,
}

-- `newer` among the runs of one task.
abbrev beats : RunRow → RunRow → Bool
beats s r = (s.task_id == r.task_id) && newer s r

beats_irrefl : (r : RunRow) → beats r r ≡ false
unfolding newer
beats_irrefl r = ground arith

-- What does not beat the loser does not beat the winner.
beats_trans : (a b c : RunRow) → beats b c ≡ true → beats a c ≡ false → beats a b ≡ false
unfolding newer
beats_trans a b c h k = ground arith

-- Of a run and others, one of its task that none of them beats.
champion : RunRow → List RunRow → RunRow
champion r [] = r
champion r (s ∷ runs) = let c = champion r runs in if beats s c then s else c

champion-task : (r : RunRow) (runs : List RunRow) → (champion r runs).task_id ≡ r.task_id
unfolding champion newer
champion-task r [] = refl
champion-task r (s ∷ runs) = elim (Bool-cases (beats s (champion r runs))) [
  | inl t ↦
      let same : s.task_id ≡ (champion r runs).task_id = ground arith in
      simp t (same ∙ champion-task r runs)
  | inr f ↦ simp f (champion-task r runs)
]

unbeaten_step : (a s c : RunRow) → beats a c ≡ false → beats a (if beats s c then s else c) ≡ false
unbeaten_step a s c h = elim (Bool-cases (beats s c)) [
  | inl t ↦ simp t (beats_trans a s c t h)
  | inr f ↦ simp f h
]

unbeaten_self : (s c : RunRow) → beats s (if beats s c then s else c) ≡ false
unbeaten_self s c = elim (Bool-cases (beats s c)) [
  | inl t ↦ simp t (beats_irrefl s)
  | inr f ↦ rw f f
]

champion-unbeaten :
    (r : RunRow) (runs : List RunRow) → All (λ s. beats s (champion r runs) ≡ false) (r ∷ runs)
unfolding champion
champion-unbeaten r [] = (beats_irrefl r, tt)
champion-unbeaten r (s ∷ runs) =
    let earlier = champion-unbeaten r runs in
    (
      unbeaten_step r s (champion r runs) earlier.0,
      (
        unbeaten_self s (champion r runs),
        All-map (λ a. beats a (champion r runs) ≡ false)
            (λ a. beats a (if beats s (champion r runs) then s else champion r runs) ≡ false) runs
            (λ a. unbeaten_step a s (champion r runs)) earlier.1,
      ),
    )

champion-All :
    (P : RunRow → Type 0) (r : RunRow) (runs : List RunRow) → P r → All P runs → P (champion r runs)
unfolding champion
champion-All P r [] h hs = h
champion-All P r (s ∷ runs) h hs = elim (Bool-cases (beats s (champion r runs))) [
  | inl t ↦ simp t hs.0
  | inr f ↦ simp f (champion-All P r runs h hs.1)
]

-- The map holds for a task one of its rows, if there is one.
collect_latest-All :
    (P : RunRow → Type 0) (t : TaskId) (rows : List RunRow) (m : Map Execution)
    → All P rows
    → ((best : RunRow) × P best
        × (best.task_id ≡ t)
        × (Map.get t m ≡ some (map_row_to_execution best)))
      ⊎ (any (λ r. r.task_id == t) rows ≡ true)
    → (best : RunRow) × P best
      × (best.task_id ≡ t)
      × (Map.get t (collect_latest rows m) ≡ some (map_row_to_execution best))
unfolding collect_latest map_row_to_execution
collect_latest-All P t [] m h (inl found) = found
collect_latest-All P t [] m h (inr e) = cc
collect_latest-All P t (r ∷ rows) m h g =
    collect_latest-All P t rows (Map.insert r.task_id (map_row_to_execution r) m) h.1
      (elim (Bool-cases (r.task_id == t)) [
        | inl e ↦
            inl
              (r, h.0, ground arith, get-insert r.task_id t (map_row_to_execution r) m ∙ rw e refl)
        | inr e ↦ elim g [
          | inl found ↦ inl (
            found.0,
            found.1,
            found.2,
            get-insert r.task_id t (map_row_to_execution r) m ∙ rw e found.3,
          )
          | inr later ↦ inr (let l = later in ground arith)
        ]
      ])

module _ (chosen : List RunRow) where
  newest-All :
      All (λ r. (is_newest chosen r ≡ true) × Memᴰ r chosen) (keep_if (is_newest chosen) chosen)
  newest-All =
      All-zip (λ r. is_newest chosen r ≡ true) (λ r. Memᴰ r chosen) _
        (keep_if_passes (is_newest chosen) chosen)
        (All-keep_if (λ r. Memᴰ r chosen) (is_newest chosen) chosen (All-Memᴰ chosen))

  champion-is_newest :
      (r : RunRow) → Memᴰ r chosen → Memᴰ (champion r chosen) (keep_if (is_newest chosen) chosen)
  champion-is_newest r m =
      Memᴰ-keep_if (is_newest chosen) chosen (champion r chosen)
        (champion-All (λ s. Memᴰ s chosen) r chosen m (All-Memᴰ chosen))
        (let none_beats =
            any_none (λ s. beats s (champion r chosen)) chosen (champion-unbeaten r chosen).1 in
          ap not none_beats)

  -- Each run among those chosen has its task in the map, with a run that none of them beats.
  latest_of_chosen :
      (row : RunRow)
      → Memᴰ row chosen
      → (best : RunRow) × ((is_newest chosen best ≡ true) × Memᴰ best chosen)
        × (best.task_id ≡ row.task_id)
        × (Map.get row.task_id (collect_latest (keep_if (is_newest chosen) chosen) [])
            ≡ some (map_row_to_execution best))
  latest_of_chosen row m =
      collect_latest-All (λ r. (is_newest chosen r ≡ true) × Memᴰ r chosen) row.task_id
        (keep_if (is_newest chosen) chosen) [] newest-All
        (inr (
          Memᴰ-any (λ r. r.task_id == row.task_id) (keep_if (is_newest chosen) chosen)
            (champion row chosen) (champion-is_newest row m)
            (let e = champion-task row chosen in ground arith)))

unbeaten-All :
    (best : RunRow) (chosen : List RunRow)
    → any (λ s. beats s best) chosen ≡ false
    → All (λ s. beats s best ≡ false) chosen
unfolding newer
unbeaten-All best [] h = tt
unbeaten-All best (s ∷ chosen) h = (ground arith, unbeaten-All best chosen (ground arith))

-- A run of no task that was asked for is not of the task of one that was.
other_task :
    (s best : RunRow) (task_ids : List TaskId)
    → is_one_of task_ids s ≡ false
    → is_one_of task_ids best ≡ true
    → beats s best ≡ false
other_task s best task_ids n h = elim (Bool-cases (s.task_id == best.task_id)) [
  | inl t ↦
      let same : s.task_id ≡ best.task_id = ground arith in
      absurd (let e = ap (λ t. any (λ id. t == id) task_ids) same in cc)
  | inr f ↦ rw f refl
]

module _ {Json : Type 0} where
  -- A task that is asked for and has a run is given the latest of all its runs, by the start and then
  -- the id.
  pub find_latest_run_per_task-latest :
      (task_ids : List TaskId) (db : Database Json) (row : RunRow)
      → Memᴰ row db.task_runs
      → is_one_of task_ids row ≡ true
      → (best : RunRow) × Memᴰ best db.task_runs
        × (best.task_id ≡ row.task_id)
        × All (λ s. ((s.task_id == best.task_id) && newer s best) ≡ false) db.task_runs
        × (Map.get row.task_id (find_latest_run_per_task task_ids db)
            ≡ some (map_row_to_execution best))
  unfolding find_latest_run_per_task
  find_latest_run_per_task-latest [] db row m h = cc
  find_latest_run_per_task-latest (id ∷ ids) db row m h =
      let chosen = keep_if (is_one_of (id ∷ ids)) db.task_runs in
      let (best, (newest, member), task, found) =
        latest_of_chosen chosen row (Memᴰ-keep_if (is_one_of (id ∷ ids)) db.task_runs row m h) in
      (
        best,
        keep_if-Memᴰ (is_one_of (id ∷ ids)) db.task_runs best member,
        task,
        All-of_keep_if (λ s. beats s best ≡ false) (is_one_of (id ∷ ids)) db.task_runs
            (λ s n.
              other_task s best (id ∷ ids) n (ap (λ t. any (λ i. t == i) (id ∷ ids)) task ∙ h))
            (unbeaten-All best chosen (not-true (any (λ s. beats s best) chosen) newest)),
        found,
      )
