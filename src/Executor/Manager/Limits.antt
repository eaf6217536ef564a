-- ===== src/Executor/Manager/Limits.antt =====
-- The limits that the policies set, over every sequence of grants and releases.
use easy_job.Prelude.{
  ℕ, ◌-◌, ◌≤◌, ◌≡◌, ◌==◌, if◌then◌else◌, List, [], ◌∷◌, arith, Bool-cases, inl, inr,
}
use easy_job.Prelude.Map.{get}
use easy_job.Domain.Trigger.{TaskId}
use easy_job.Domain.Policy.{ConcurrencyPolicy, allow_parallel, skip_if_running, queue_one}
use easy_job.Executor.Manager.{Counts, running_count, admit, try_acquire_slot, release_slot}
use easy_job.Executor.Manager.Slots.{running_count-try_acquire, running_count-release}

-- A call on the manager; the mutex lets one through at a time.
pub data Call : Type 0 where
  acquires releases : TaskId → Call

-- The calls in their order, each task with its own policy.
abbrev pub run : (TaskId → ConcurrencyPolicy) → List Call → Counts → Counts
run policy_of [] counts = counts
run policy_of (acquires id ∷ calls) counts =
    run policy_of calls (try_acquire_slot id (policy_of id) counts).0
run policy_of (releases id ∷ calls) counts = run policy_of calls (release_slot id counts)

abbrev pub IsWithin : ConcurrencyPolicy → ℕ → Type 0
IsWithin allow_parallel n = Unit {0}
IsWithin skip_if_running n = n ≤ 1
IsWithin queue_one n = n ≤ 2

admit-IsWithin :
    (policy : ConcurrencyPolicy) (n : ℕ) → IsWithin policy n → IsWithin policy (admit policy n).0
admit-IsWithin allow_parallel n h = tt
admit-IsWithin skip_if_running n h = ground arith
admit-IsWithin queue_one n h = ground arith

pred-IsWithin : (policy : ConcurrencyPolicy) (n : ℕ) → IsWithin policy n → IsWithin policy (n - 1)
pred-IsWithin allow_parallel n h = tt
pred-IsWithin skip_if_running n h = omega arith
pred-IsWithin queue_one n h = omega arith

module _ (policy_of : TaskId → ConcurrencyPolicy) where
  abbrev Inv : Counts → Type 0
  Inv counts = (id : TaskId) → IsWithin (policy_of id) (running_count id counts)

  changed-Inv :
      (id j n old : ℕ)
      → IsWithin (policy_of id) n
      → IsWithin (policy_of j) old
      → IsWithin (policy_of j) (if id == j then n else old)
  changed-Inv id j n old h k = elim (Bool-cases (id == j)) [
    | inl e ↦ rw e (let same : id ≡ j = ground arith in rw same at h)
    | inr e ↦ rw e k
  ]

  run-Inv : (calls : List Call) (counts : Counts) → Inv counts → Inv (run policy_of calls counts)
  run-Inv [] counts v = v
  run-Inv (acquires id ∷ calls) counts v =
      run-Inv calls (try_acquire_slot id (policy_of id) counts).0 λ j.
        rw (running_count-try_acquire id j (policy_of id) counts)
          (changed-Inv id j _ _ (admit-IsWithin (policy_of id) _ (v id)) (v j))
  run-Inv (releases id ∷ calls) counts v = run-Inv calls (release_slot id counts) λ j.
      rw (running_count-release id j counts)
        (changed-Inv id j _ _ (pred-IsWithin (policy_of id) _ (v id)) (v j))

-- From an empty manager no sequence of grants and releases, of any tasks in any order, takes a
-- task past its policy: at most one execution under `skip_if_running`, at most two under `queue_one`.
-- Releases without a grant do no harm.
pub run-IsWithin :
    (policy_of : TaskId → ConcurrencyPolicy) (calls : List Call) (id : TaskId)
    → IsWithin (policy_of id) (running_count id (run policy_of calls []))
run-IsWithin policy_of calls id = run-Inv policy_of calls [] (λ j. empty j (policy_of j)) id
  where
    empty : (j : TaskId) (policy : ConcurrencyPolicy) → IsWithin policy (running_count j [])
    empty j allow_parallel = tt
    empty j skip_if_running = unfold running_count get in omega arith
    empty j queue_one = unfold running_count get in omega arith
