-- ===== src/Agent/Executions/Active.antt =====
-- `active_executions` holds only executions that are still at work.
use easy_job.Prelude.{
  ◌≡◌, ◌≢◌, ◌⊎◌, ◌∙◌, refl, subst, Bool, false, ◌==◌, none, List, [], ◌∷◌, ◌++◌, arith, Bool-cases,
  inl, inr,
}
use easy_job.Prelude.Map
use easy_job.Prelude.Map.{Map, get, get-insert, get-remove}
use easy_job.Domain.Execution.{ExecutionId}
use easy_job.Agent.Executions.{Phase, working, finished, Run}

abbrev pub WorksOn : ExecutionId → Phase → Type 0
WorksOn id (working exec _) = exec.id ≡ id
WorksOn id (finished exec) = exec.id ≡ id
WorksOn id _ = ⊥

-- One of the runs is at work on the execution.
abbrev pub IsWorkedOn : ExecutionId → List Run → Type 0
IsWorkedOn id [] = ⊥
IsWorkedOn id (r ∷ runs) = WorksOn id r.phase ⊎ IsWorkedOn id runs

abbrev pub AllWorkedOn : Map Bool → List Run → Type 0
AllWorkedOn active runs = (id : ExecutionId) → get id active ≢ none → IsWorkedOn id runs

worked-weaken :
    (id : ExecutionId) (before : List Run) (r : Run) (after : List Run)
    → IsWorkedOn id (before ++ after)
    → IsWorkedOn id (before ++ r ∷ after)
worked-weaken id [] r after w = inr w
worked-weaken id (x ∷ before) r after (inl w) = inl w
worked-weaken id (x ∷ before) r after (inr w) = inr (worked-weaken id before r after w)

worked-here :
    (id : ExecutionId) (before : List Run) (r : Run) (after : List Run)
    → WorksOn id r.phase
    → IsWorkedOn id (before ++ r ∷ after)
worked-here id [] r after w = inl w
worked-here id (x ∷ before) r after w = inr (worked-here id before r after w)

-- A run that leaves takes only its own execution along.
worked-split :
    (id : ExecutionId) (before : List Run) (r : Run) (after : List Run)
    → IsWorkedOn id (before ++ r ∷ after)
    → WorksOn id r.phase ⊎ IsWorkedOn id (before ++ after)
worked-split id [] r after w = w
worked-split id (x ∷ before) r after (inl w) = inr (inl w)
worked-split id (x ∷ before) r after (inr w) = elim (worked-split id before r after w) [
  | inl h ↦ inl h
  | inr h ↦ inr (inr h)
]

pub inserted :
    (id j : ExecutionId) (b : Bool) (active : Map Bool)
    → get j (Map.insert id b active) ≢ none
    → (id ≡ j) ⊎ (get j active ≢ none)
inserted id j b active h = elim (Bool-cases (id == j)) [
  | inl e ↦ inl (ground arith)
  | inr e ↦ inr λ absent. h (get-insert id j b active ∙ rw e absent)
]

pub removed :
    (id j : ExecutionId) (active : Map Bool)
    → get j (Map.remove id active) ≢ none
    → (id ≢ j) × (get j active ≢ none)
removed id j active h = elim (Bool-cases (id == j)) [
  | inl e ↦ absurd (h (get-remove id j active ∙ rw e refl))
  | inr e ↦ (ground arith, λ absent. h (get-remove id j active ∙ rw e absent))
]

pub registered :
    (id : ExecutionId) (active : Map Bool) (before : List Run) (r : Run) (after : List Run)
    → WorksOn id r.phase
    → ((j : ExecutionId) → get j active ≢ none → IsWorkedOn j (before ++ r ∷ after))
    → AllWorkedOn (Map.insert id false active) (before ++ r ∷ after)
registered id active before r after here others j h = elim (inserted id j false active h) [
  | inl same ↦
      subst (λ k. IsWorkedOn k (before ++ r ∷ after)) same (worked-here id before r after here)
  | inr old ↦ others j old
]

-- A run that was not at work yet, or keeps its execution, may be replaced.
pub replaced :
    (active : Map Bool) (before : List Run) (r next : Run) (after : List Run)
    → ((id : ExecutionId) → WorksOn id r.phase → WorksOn id next.phase)
    → AllWorkedOn active (before ++ r ∷ after)
    → AllWorkedOn active (before ++ next ∷ after)
replaced active before r next after moves v id h = elim (worked-split id before r after (v id h)) [
  | inl w ↦ worked-here id before next after (moves id w)
  | inr w ↦ worked-weaken id before next after w
]

pub dropped :
    (active : Map Bool) (before : List Run) (r : Run) (after : List Run)
    → ((id : ExecutionId) → WorksOn id r.phase → get id active ≡ none)
    → AllWorkedOn active (before ++ r ∷ after)
    → AllWorkedOn active (before ++ after)
dropped active before r after gone v id h = elim (worked-split id before r after (v id h)) [
  | inl w ↦ absurd (h (gone id w))
  | inr w ↦ w
]

-- A run that is no longer at work stays behind.
pub stopped :
    (active : Map Bool) (before : List Run) (r next : Run) (after : List Run)
    → ((id : ExecutionId) → WorksOn id r.phase → get id active ≡ none)
    → AllWorkedOn active (before ++ r ∷ after)
    → AllWorkedOn active (before ++ next ∷ after)
stopped active before r next after gone v id h =
    worked-weaken id before next after (dropped active before r after gone v id h)
