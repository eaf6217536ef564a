-- ===== src/Agent/Executions/Holding.antt =====
-- Permits and slots against the runs: what each step does to both.
use easy_job.Prelude.{
  ℕ, ◌+◌, ◌-◌, ◌^◌, ◌<◌, ◌≤◌, ◌≡◌, ap, subst, ◌==◌, if◌then◌else◌, Option, none, some, List, [],
  ◌∷◌, ◌++◌, length, length-append, arith, Bool-cases, inl, inr,
}
use easy_job.Domain.Trigger.{TaskId}
use easy_job.Domain.Task.{Task}
use easy_job.Executor.Manager.{running_count, try_acquire_slot}
use easy_job.Executor.Manager.Slots.{try_acquire_slot_lem, running_count-release}
use easy_job.Agent.Semaphore.{Semaphore, IsSemaphore}
use easy_job.Agent.Executions.{
  Phase, Origin, permitted, waiting, recorded, working, finished, closing, leaving, Run, Shared,
  World, permit_taken, acquire_slot, give_back, leave,
}
use easy_job.Agent.Executions.Steps.{moved}

-- A run has a slot from the answer that grants it until it is given back.
abbrev pub slots_of : Phase → ℕ
slots_of permitted = 0
slots_of leaving = 0
slots_of _ = 1

-- The slots that the runs of the task have.
abbrev pub running_for : TaskId → List Run → ℕ
running_for id [] = 0
running_for id (r ∷ runs) = (if r.task.id == id then slots_of r.phase else 0) + running_for id runs

module _ {S : Type 0} (sem : Semaphore S) where
  -- As many permits are out as there are runs, and each task's count is the number of slots that its
  -- own runs have.
  pub record IsBalanced (limit : ℕ) (w : World S) : Type 0 where
    pub permits : sem.available w.shared.semaphore + length w.runs ≡ limit
    pub slots : (id : TaskId) → running_count id w.shared.counts ≡ running_for id w.runs

  running_for-append :
      (id : TaskId) (xs ys : List Run)
      → running_for id (xs ++ ys) ≡ running_for id xs + running_for id ys
  running_for-append id [] ys = omega arith
  running_for-append id (x ∷ xs) ys = ground (arith, running_for-append id xs ys)

  slots_of-one : (p : Phase) → slots_of p ≤ 1
  slots_of-one permitted = omega arith
  slots_of-one waiting = omega arith
  slots_of-one (recorded _) = omega arith
  slots_of-one (working _ _) = omega arith
  slots_of-one (finished _) = omega arith
  slots_of-one closing = omega arith
  slots_of-one leaving = omega arith

  running_for-length : (id : TaskId) (runs : List Run) → running_for id runs ≤ length runs
  running_for-length id [] = omega arith
  running_for-length id (r ∷ runs) =
      ground (arith, slots_of-one r.phase, running_for-length id runs)

  abbrev pub Even : ℕ → Shared S → List Run → Type 0
  Even limit s runs = IsBalanced limit (record { shared = s; runs = runs })

  pub at_runs :
      {runs : List Run} (limit : ℕ) (w : World S)
      → w.runs ≡ runs
      → IsBalanced limit w
      → Even limit w.shared runs
  at_runs limit w e v = subst (Even limit w.shared) e v

  -- A step that uses neither counts nor permits.
  pub swap-Even :
      (limit : ℕ) (run next : Run) (before after : List Run) (s t : Shared S)
      → next.task ≡ run.task
      → slots_of next.phase ≡ slots_of run.phase
      → t.counts ≡ s.counts
      → t.semaphore ≡ s.semaphore
      → Even limit s (before ++ run ∷ after)
      → Even limit t (before ++ next ∷ after)
  swap-Even limit run next before after s t same held c m v = record {
    permits = rw m (
        omega (
          arith,
          v.permits,
          length-append before (run ∷ after),
          length-append before (next ∷ after),
        ));
    slots = λ j. rw c (
        ground (
          arith,
          ap (λ (t : Task). t.id) same,
          held,
          v.slots j,
          running_for-append j before (run ∷ after),
          running_for-append j before (next ∷ after),
        ));
  }

  module _ (laws : IsSemaphore sem) (limit : ℕ) where
    pub permit_taken-Even :
        (task : Task) (origin : Origin) (o : Option S) (w : World S)
        → sem.try_acquire w.shared.semaphore ≡ o
        → IsBalanced limit w
        → IsBalanced limit (permit_taken sem task origin o w)
    permit_taken-Even task origin none w e v = v
    permit_taken-Even task origin (some held) w e v = record {
      permits = omega (arith, v.permits, laws.acquired w.shared.semaphore held e);
      slots = λ j. ground (arith, v.slots j);
    }

    pub give_back-Even :
        (run : Run) (before after : List Run) (s : Shared S)
        → slots_of run.phase ≡ 1
        → Even limit s (before ++ run ∷ after)
        → IsBalanced limit (moved (give_back sem run s) before after)
    unfolding give_back
    give_back-Even run before after s held v =
        let next = record run { phase = leaving } in
        record {
          permits = omega (
            arith,
            v.permits,
            length-append before (run ∷ after),
            length-append before (next ∷ after),
          );
          slots = λ j. ground (
            arith,
            held,
            v.slots j,
            v.slots run.task.id,
            running_count-release run.task.id j s.counts,
            running_for-append j before (run ∷ after),
            running_for-append j before (next ∷ after),
            running_for-append run.task.id before (run ∷ after),
          );
        }

    pub leave-Even :
        (run : Run) (before after : List Run) (s : Shared S)
        → slots_of run.phase ≡ 0
        → Even limit s (before ++ run ∷ after)
        → IsBalanced limit (moved (leave sem run s) before after)
    unfolding leave
    leave-Even run before after s free v = record {
      permits = omega (
        arith,
        v.permits,
        laws.released s.semaphore,
        length-append before (run ∷ after),
        length-append before after,
      );
      slots = λ j. ground (
        arith,
        free,
        v.slots j,
        running_for-append j before (run ∷ after),
        running_for-append j before after,
      );
    }

    module _ (small : limit < 2 ^ 64 - 1) where
      pub acquire_slot-Even :
          (run : Run) (before after : List Run) (s : Shared S)
          → slots_of run.phase ≡ 0
          → Even limit s (before ++ run ∷ after)
          → IsBalanced limit (moved (acquire_slot sem run s) before after)
      unfolding acquire_slot
      acquire_slot-Even run before after s free v =
          let policy = run.task.execution_policy.concurrency_policy in
          let room : running_count run.task.id s.counts < 2 ^ 64 - 1 = omega (
            arith,
            v.slots run.task.id,
            v.permits,
            running_for-length run.task.id (before ++ run ∷ after),
          ) in
          let granted = record run { phase = waiting } in
          let refused = record run { phase = leaving } in
          elim (Bool-cases (try_acquire_slot run.task.id policy s.counts).1) [
            | inl yes_ ↦ rw yes_ (record {
              permits = omega (
                arith,
                v.permits,
                length-append before (run ∷ after),
                length-append before (granted ∷ after),
              );
              slots = λ j. ground (
                arith,
                free,
                v.slots j,
                running_for-append j before (run ∷ after),
                running_for-append j before (granted ∷ after),
                (try_acquire_slot_lem run.task.id j policy s.counts room).1,
              );
            })
            | inr no_ ↦ rw no_ (record {
              permits = omega (
                arith,
                v.permits,
                length-append before (run ∷ after),
                length-append before (refused ∷ after),
              );
              slots = λ j. ground (
                arith,
                free,
                v.slots j,
                running_for-append j before (run ∷ after),
                running_for-append j before (refused ∷ after),
                (try_acquire_slot_lem run.task.id j policy s.counts room).1,
              );
            })
          ]
