-- ===== src/Agent/Handler/Words.antt =====
-- The last word of a list of commands on a task, and that commands about different tasks may pass one
-- another.
use easy_job.Prelude.{
  ◌≡◌, ◌∙◌, ap, refl, Bool, true, false, Bool-cases, inl, inr, All, Option, none, some, List, [],
  ◌∷◌, ◌++◌, if◌then◌else◌,
}
use easy_job.Prelude.Tests as Tests
use easy_job.Domain.Trigger.{TaskId, TriggerId, Trigger}
use easy_job.Persistence.Interface.{plan}
use easy_job.Agent.Handler.{SchedulerCommand, reroll_trigger, remove_task, add_task}

abbrev concerns : TaskId → SchedulerCommand → Bool
concerns id (add_task task) = Tests.◌==◌ task.id id
concerns id (remove_task gone) = Tests.◌==◌ gone id
concerns id (reroll_trigger _ _) = false

abbrev word : SchedulerCommand → Option (Bool × List Trigger)
word (add_task task) = some (plan task)
word (remove_task _) = none
word (reroll_trigger _ _) = none

-- The last word of the commands on a task: whether it is enabled, and its triggers.
abbrev pub told : TaskId → List SchedulerCommand → Option (Bool × List Trigger)
told id [] = none
told id (c ∷ commands) = if concerns id c then word c else told id commands

-- The two commands are not about the same task.
abbrev pub Apart : SchedulerCommand → SchedulerCommand → Type 0
Apart c d = (id : TaskId) → concerns id c ≡ true → concerns id d ≡ false

-- No two of the commands are about the same task.
abbrev pub IsSingle : List SchedulerCommand → Type 0
IsSingle [] = Unit
IsSingle (c ∷ commands) = All (Apart c) commands × IsSingle commands

All-drop :
    (P : SchedulerCommand → Type 0) (before : List SchedulerCommand) (c : SchedulerCommand)
    (after : List SchedulerCommand)
    → All P (before ++ c ∷ after)
    → All P (before ++ after)
All-drop P [] c after h = h.1
All-drop P (d ∷ before) c after h = (h.0, All-drop P before c after h.1)

pub IsSingle-drop :
    (before : List SchedulerCommand) (c : SchedulerCommand) (after : List SchedulerCommand)
    → IsSingle (before ++ c ∷ after)
    → All (Apart c) after × IsSingle (before ++ after)
IsSingle-drop [] c after h = h
IsSingle-drop (d ∷ before) c after (apart, h) =
    let (fresh, later) = IsSingle-drop before c after h in
    (fresh, (All-drop (Apart d) before c after apart, later))

told-cong :
    (id : TaskId) (c : SchedulerCommand) (xs ys : List SchedulerCommand)
    → told id xs ≡ told id ys
    → told id (c ∷ xs) ≡ told id (c ∷ ys)
told-cong id c xs ys e = ap (λ w. if concerns id c then word c else w) e

told-swap :
    (id : TaskId) (c d : SchedulerCommand) (xs : List SchedulerCommand)
    → Apart c d
    → told id (c ∷ d ∷ xs) ≡ told id (d ∷ c ∷ xs)
told-swap id c d xs apart = elim (Bool-cases (concerns id c)) [
  | inl t ↦ rw t (rw (apart id t) refl)
  | inr f ↦ rw f refl
]

told-past :
    (id : TaskId) (c : SchedulerCommand) (after sent : List SchedulerCommand)
    → All (Apart c) after
    → told id (c ∷ (after ++ sent)) ≡ told id (after ++ c ∷ sent)
told-past id c [] sent h = refl
told-past id c (d ∷ after) sent h =
    told-swap id c d (after ++ sent) h.0
    ∙ told-cong id d (c ∷ (after ++ sent)) (after ++ c ∷ sent) (told-past id c after sent h.1)

pub told-announced :
    (id : TaskId) (before : List SchedulerCommand) (c : SchedulerCommand)
    (after sent : List SchedulerCommand)
    → All (Apart c) after
    → told id ((before ++ c ∷ after) ++ sent) ≡ told id ((before ++ after) ++ c ∷ sent)
told-announced id [] c after sent h = told-past id c after sent h
told-announced id (d ∷ before) c after sent h =
    told-cong id d ((before ++ c ∷ after) ++ sent) ((before ++ after) ++ c ∷ sent)
      (told-announced id before c after sent h)

pub told-reroll :
    (id : TaskId) (waiting : List SchedulerCommand) (task_id : TaskId) (trigger_id : TriggerId)
    (sent : List SchedulerCommand)
    → told id (waiting ++ reroll_trigger task_id trigger_id ∷ sent) ≡ told id (waiting ++ sent)
told-reroll id [] task_id trigger_id sent = refl
told-reroll id (d ∷ waiting) task_id trigger_id sent =
    told-cong id d (waiting ++ reroll_trigger task_id trigger_id ∷ sent) (waiting ++ sent)
      (told-reroll id waiting task_id trigger_id sent)
