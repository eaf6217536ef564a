-- ===== src/Executor/Manager.antt =====
-- crates/executor/src/manager.rs: the running executions of each task. The state is the map behind the
-- mutex; its counts are `usize` of 64 bits and wrap. The global semaphore is only handed out here.
pub mod Slots
pub mod Limits
mod Examples
use easy_job.Prelude.{
  ℕ, zero, suc, ◌+◌, ◌-◌, ◌%◌, ◌^◌, Bool, true, false, ltb, leb, ◌==◌, if◌then◌else◌, Option, none,
  some, List, [], ◌∷◌,
}
use easy_job.Prelude.Map
use easy_job.Prelude.Map.{Map}
use easy_job.Domain.Trigger.{TaskId}
use easy_job.Domain.Policy.{ConcurrencyPolicy, allow_parallel, skip_if_running, queue_one}

abbrev pub Counts : Type 0
Counts = Map ℕ

pub record ExecutionRequest : Type 0 where
  pub task_id : TaskId
  pub policy : ConcurrencyPolicy

abbrev pub or_zero : Option ℕ → ℕ
or_zero none = 0
or_zero (some n) = n

unfoldable pub running_count : TaskId → Counts → ℕ
running_count id counts = or_zero (Map.get id counts)

abbrev pub increment : ℕ → ℕ
increment n = (n + 1) % 2 ^ 64

-- The `match` on the policy: the new count and the result.
abbrev pub admit : ConcurrencyPolicy → ℕ → ℕ × Bool
admit allow_parallel count = (increment count, true)
admit skip_if_running count = if ltb 0 count then (count, false) else (increment count, true)
admit queue_one count = if leb 2 count then (count, false) else (increment count, true)

-- `entry(id).or_insert(0)`, then the policy on the entry.
unfoldable pub try_acquire_slot : TaskId → ConcurrencyPolicy → Counts → Counts × Bool
try_acquire_slot id policy counts =
    let (count, admitted) = admit policy (running_count id counts) in
    (Map.insert id count counts, admitted)

unfoldable pub try_acquire_request : ExecutionRequest → Counts → Counts × Bool
try_acquire_request request = try_acquire_slot request.task_id request.policy

abbrev pub decrement : ℕ → ℕ
decrement count = if ltb 0 count then count - 1 else count

unfoldable pub release_slot : TaskId → Counts → Counts
release_slot id counts = elim (Map.get id counts) [
  | none ↦ counts
  | some count ↦
      if decrement count == 0 then Map.remove id counts else Map.insert id (decrement count) counts
]

abbrev pub sum : List ℕ → ℕ
sum [] = 0
sum (n ∷ ns) = n + sum ns

unfoldable pub total_running_count : Counts → ℕ
total_running_count counts = sum (Map.values counts) % 2 ^ 64
