-- ===== src/Executor/Manager/Slots.antt =====
-- What one call does to the counts.
use easy_job.Prelude.{
  ℕ, ◌+◌, ◌-◌, ◌^◌, ◌<◌, ◌≡◌, ◌↔◌, ◌∙◌, ◌&&◌, refl, true, ◌==◌, if◌then◌else◌, Option, none, some,
  arith,
}
use easy_job.Prelude.Map.{get, get, insert, remove, get-insert, get-remove}
use easy_job.Domain.Trigger.{TaskId}
use easy_job.Domain.Policy.{ConcurrencyPolicy, allow_parallel, skip_if_running, queue_one}
use easy_job.Executor.Manager.{
  Counts, running_count, admit, try_acquire_slot, release_slot, decrement, or_zero,
}

-- A policy's limit on the executions that run when another asks for a slot.
abbrev pub Admits : ConcurrencyPolicy → ℕ → Type 0
Admits allow_parallel count = Unit {0}
Admits skip_if_running count = count ≡ 0
Admits queue_one count = count < 2

pub running_count-try_acquire :
    (id j : TaskId) (policy : ConcurrencyPolicy) (counts : Counts)
    → running_count j (try_acquire_slot id policy counts).0
      ≡ (if id == j then (admit policy (running_count id counts)).0 else running_count j counts)
unfolding try_acquire_slot running_count
running_count-try_acquire id j policy counts =
    ground (arith, get-insert id j (admit policy (running_count id counts)).0 counts)

release_cases :
    (id j : TaskId) (counts : Counts) (o : Option ℕ)
    → get id counts ≡ o
    → running_count j (elim o [
      | none ↦ counts
      | some count ↦
          if decrement count == 0 then remove id counts else insert id (decrement count) counts
    ])
      ≡ (if id == j then or_zero o - 1 else running_count j counts)
unfolding running_count
release_cases id j counts none e = ground arith
release_cases id j counts (some c) e =
    ground (arith, get-remove id j counts, get-insert id j (decrement c) counts)

pub running_count-release :
    (id j : TaskId) (counts : Counts)
    → running_count j (release_slot id counts)
      ≡ (if id == j then running_count id counts - 1 else running_count j counts)
unfolding release_slot
running_count-release id j counts =
    release_cases id j counts (get id counts) refl ∙ unfold running_count in refl

admit_lem :
    (policy : ConcurrencyPolicy) (n : ℕ)
    → n < 2 ^ 64 - 1
    → ((admit policy n).1 ≡ true ↔ Admits policy n)
      × ((admit policy n).0 ≡ (if (admit policy n).1 then n + 1 else n))
admit_lem allow_parallel n h = (((λ _. tt), (λ _. refl)), ground arith)
admit_lem skip_if_running n h = ground arith
admit_lem queue_one n h = ground arith

pub granted-try_acquire :
    (id : TaskId) (policy : ConcurrencyPolicy) (counts : Counts)
    → (try_acquire_slot id policy counts).1 ≡ (admit policy (running_count id counts)).1
unfolding try_acquire_slot
granted-try_acquire id policy counts = refl

-- A slot is granted exactly where the task's policy admits one more execution: always, if none runs,
-- or if fewer than two run. A granted slot raises the task's count by one, a refused one leaves
-- it, and the counts of all other tasks stay. The count is below the range of `usize`.
pub try_acquire_slot_lem :
    (id j : TaskId) (policy : ConcurrencyPolicy) (counts : Counts)
    → running_count id counts < 2 ^ 64 - 1
    → ((try_acquire_slot id policy counts).1 ≡ true ↔ Admits policy (running_count id counts))
      × (running_count j (try_acquire_slot id policy counts).0 ≡ (
          if id == j && (try_acquire_slot id policy counts).1
          then running_count id counts + 1
          else running_count j counts))
try_acquire_slot_lem id j policy counts h =
    let (exactly, count) = admit_lem policy (running_count id counts) h in
    rw (granted-try_acquire id policy counts)
      (exactly, ground (arith, count, running_count-try_acquire id j policy counts))

-- Giving a slot back takes back what the grant did, for every task's count.
release-try_acquire :
    (id j : TaskId) (policy : ConcurrencyPolicy) (counts : Counts)
    → running_count id counts < 2 ^ 64 - 1
    → (try_acquire_slot id policy counts).1 ≡ true
    → running_count j (release_slot id (try_acquire_slot id policy counts).0)
      ≡ running_count j counts
release-try_acquire id j policy counts h granted = ground (
  arith,
  (try_acquire_slot_lem id id policy counts h).1,
  (try_acquire_slot_lem id j policy counts h).1,
  running_count-release id j (try_acquire_slot id policy counts).0,
)
