-- ===== src/Scheduler/Loop/Safety.antt =====
-- What the loop's events say of the tasks, over every run.
use easy_job.Prelude.{
  ℕ, ◌+◌, ◌-◌, ◌^◌, ◌<◌, ◌≡◌, ◌∙◌, refl, none, List, [], ◌∷◌, All, arith, length,
}
use easy_job.Prelude.Map
use easy_job.Prelude.Map.{get-remove}
use easy_job.Prelude.Outcome.{returns, Ensures, ensured, >>=-Ensures}
use easy_job.Domain.Trigger.{TaskId}
use easy_job.Scheduler.Loop.{
  LoopState, TriggerEvent, Input, remove, start, arm, turn, run, remove_task,
}
use easy_job.Scheduler.Queue.{peek_valid}
use easy_job.Scheduler.Loop.Coverage.{Inv}
use easy_job.Scheduler.Loop.Arms.{Fired, remove_task-Inv}
use easy_job.Scheduler.Queue.Tracking.{peek_valid-Tracks}
use easy_job.Scheduler.Loop.Runs.{Adds, RunAfter, run-After, run-Inv, turn-After}

-- After any run from the start, of fewer than `2 ^ 64 - 2` inputs, every event of the next turn that
-- names a trigger is for an enabled trigger of an enabled task that is registered at that time.
pub turn-Fired :
    (now instant : ℕ) (inputs : List Input) (s t : LoopState) (events fired : List TriggerEvent)
    (input : Input)
    → length inputs < 2 ^ 64 - 2
    → run inputs (start now instant) ≡ returns (s, events)
    → turn input s ≡ returns (t, fired)
    → All (Fired s.registered_tasks) fired
turn-Fired now instant inputs s t events fired input h e e' =
    (ensured _ _ _
      (turn-After (1 + length inputs) (omega arith) input s
        (run-Inv now instant inputs s events (omega arith) e))
      e').1

abbrev pub IsSilent : TaskId → TriggerEvent → Type 0
IsSilent id event = event.task_id ≡ id → event.trigger_id ≡ none

removed_once :
    (n : ℕ) (id : TaskId) (s : LoopState)
    → n < 2 ^ 64 - 1
    → Inv n s
    → Ensures
        (λ (r : LoopState × List TriggerEvent).
          Inv (n + 1) r.0 × (Map.get id r.0.registered_tasks ≡ none) × (r.1 ≡ []))
        (turn (remove id) s)
unfolding turn arm remove_task
removed_once n id s h v = (
  remove_task-Inv n id (record s { queue = (peek_valid s.queue).1 }) h
      (record {
        tracks = peek_valid-Tracks s.queue v.tracks;
        distinct = v.distinct;
        keyed = v.keyed;
      }),
  get-remove id id s.registered_tasks ∙ ground arith,
  refl,
)

removed-Silent :
    (n : ℕ) (id : TaskId) (s : LoopState) (inputs : List Input)
    → n + 1 + length inputs < 2 ^ 64
    → Inv n s
    → All (λ input. ¬ Adds id input) inputs
    → Ensures
        (λ (r : LoopState × List TriggerEvent). All (IsSilent id) r.1)
        (run (remove id ∷ inputs) s)
unfolding run
removed-Silent n id s inputs h v others =
    >>=-Ensures (λ r. Inv (n + 1) r.0 × (Map.get id r.0.registered_tasks ≡ none) × (r.1 ≡ []))
      (λ (r : LoopState × List TriggerEvent). All (IsSilent id) r.1) (turn (remove id) s) _
      (removed_once n id s (omega arith) v)
      λ r a.
        >>=-Ensures (RunAfter (n + 1) inputs r.0 id)
          (λ (r : LoopState × List TriggerEvent). All (IsSilent id) r.1) (run inputs r.0) _
          (run-After inputs (n + 1) r.0 id (omega arith) a.0) λ r' b. rw a.2 (b.1 others a.1)

-- Once a task has been removed, after any run from the start, no deadline fires it in the rest of the
-- run, as long as no later input adds it and the whole run has fewer than `2 ^ 64 - 2` inputs: every
-- event with the task's id was asked for by hand.
pub removed_task-IsSilent :
    (now instant : ℕ) (earlier later : List Input) (id : TaskId) (s t : LoopState)
    (events events' : List TriggerEvent)
    → length earlier + length later < 2 ^ 64 - 2
    → run earlier (start now instant) ≡ returns (s, events)
    → All (λ input. ¬ Adds id input) later
    → run (remove id ∷ later) s ≡ returns (t, events')
    → All (IsSilent id) events'
removed_task-IsSilent now instant earlier later id s t events events' h e others e' =
    ensured _ _ _
      (removed-Silent (1 + length earlier) id s later (omega arith)
        (run-Inv now instant earlier s events (omega arith) e) others)
      e'
