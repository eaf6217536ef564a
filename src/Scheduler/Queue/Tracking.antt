-- ===== src/Scheduler/Queue/Tracking.antt =====
-- An invariant of the queue that its clients keep: what each valid item stands for.
use easy_job.Prelude.{
  ℕ, ◌+◌, ◌-◌, ◌^◌, ◌≤◌, ◌<◌, ◌≡◌, ◌≢◌, ◌==◌, true, if◌then◌else◌, List, [], some, All, All-map,
  All-zip, arith, Bool-cases, inl, inr,
}
use easy_job.Prelude.Map
use easy_job.Domain.Trigger.{TaskId}
use easy_job.Scheduler.Queue.{
  ScheduledItem, ScheduleQueue, is_valid, current_generation, new, push, pop_valid, pop, drop_stale,
  peek_valid, bump_generation, split_task, take_task_items, clear,
}
use easy_job.Scheduler.Queue.Order.{
  IsOrdered, All-push, All-pop_valid, All-drop_stale, All-split_task, All-popped,
  operations-IsOrdered, pop_valid-IsOrdered, drop_stale-IsOrdered, split_task-IsOrdered,
}
use easy_job.Scheduler.Queue.Pop.{current_generation-push, current_generation-bump}

-- No item is ahead of its task's generation, no generation passes `n`, and every valid item is `P`.
pub record Tracks (n : ℕ) (P : ScheduledItem → Type 0) (q : ScheduleQueue) : Type 0 where
  pub ordered : IsOrdered q.heap
  pub fresh : All (λ (x : ScheduledItem). x.generation ≤ current_generation q x.task_id) q.heap
  pub bounded : (id : TaskId) → current_generation q id ≤ n
  pub valid :
      All (λ (x : ScheduledItem). current_generation q x.task_id ≡ x.generation → P x) q.heap

moved :
    (P : ScheduledItem → Type 0) (id : TaskId) (q : ScheduleQueue) (y : ScheduledItem)
    → y.generation ≤ current_generation q y.task_id
    → (current_generation q y.task_id ≡ y.generation → P y)
    → (if id == y.task_id
        then current_generation q y.task_id + 1
        else current_generation q y.task_id)
      ≡ y.generation
    → (y.task_id ≢ id) × P y
moved P id q y f v e = elim (Bool-cases (id == y.task_id)) [
  | inl same ↦ absurd (ground arith)
  | inr other ↦ ((λ k. ground arith), v (ground arith))
]

bump-All {ℓ} :
    (P : ScheduledItem → Type ℓ) (id : TaskId) (q : ScheduleQueue)
    → All P q.heap
    → All P (bump_generation id q).1.heap
unfolding bump_generation
bump-All P id q h = h

bump-All-IsOrdered :
    (id : TaskId) (q : ScheduleQueue) → IsOrdered q.heap → IsOrdered (bump_generation id q).1.heap
unfolding bump_generation
bump-All-IsOrdered id q h = h

module _ {n : ℕ} {P : ScheduledItem → Type 0} where
  pub Tracks-mono :
      {m : ℕ} {Q : ScheduledItem → Type 0} {q : ScheduleQueue}
      → n ≤ m
      → ((x : ScheduledItem) → P x → Q x)
      → Tracks n P q
      → Tracks m Q q
  Tracks-mono {q = q} h f t = record {
    ordered = t.ordered;
    fresh = t.fresh;
    bounded = λ id. omega (arith, t.bounded id);
    valid = All-map _ _ q.heap (λ x v e. f x (v e)) t.valid;
  }

  pub push-Tracks :
      (x : ScheduledItem) (q : ScheduleQueue) → P x → Tracks n P q → Tracks n P (push x q)
  push-Tracks x q p t = record {
    ordered = (operations-IsOrdered q x 0 t.ordered).1;
    fresh =
        All-push _ x q (λ e. rw (current_generation-push x q x.task_id) (omega arith))
          (All-map _ _ q.heap (λ y h. rw (current_generation-push x q y.task_id) h) t.fresh);
    bounded = λ id. rw (current_generation-push x q id) (t.bounded id);
    valid =
        All-push _ x q (λ _ _. p)
          (All-map _ _ q.heap (λ y h e. h (rw (current_generation-push x q y.task_id) at e))
            t.valid);
  }

  bumped :
      (id j : TaskId) (q : ScheduleQueue)
      → n < 2 ^ 64 - 1
      → Tracks n P q
      → current_generation (bump_generation id q).1 j
        ≡ (if id == j then current_generation q j + 1 else current_generation q j)
  bumped id j q h t =
      unfold bump_generation in ground (arith, current_generation-bump id j q, t.bounded id)

  -- After a bump the valid items are those of the other tasks.
  pub bump-Tracks :
      (id : TaskId) (q : ScheduleQueue)
      → n < 2 ^ 64 - 1
      → Tracks n P q
      → Tracks (n + 1) (λ x. (x.task_id ≢ id) × P x) (bump_generation id q).1
  bump-Tracks id q h t = record {
    ordered = bump-All-IsOrdered id q t.ordered;
    fresh =
        bump-All _ id q
          (All-map _ _ q.heap (λ y f. rw (bumped id y.task_id q h t) (ground (arith, f))) t.fresh);
    bounded = λ j. rw (bumped id j q h t) (ground (arith, t.bounded j));
    valid = bump-All _ id q (
        All-map _ _ q.heap
          (λ y both e. moved P id q y both.0 both.1 (rw (bumped id y.task_id q h t) at e))
          (All-zip _ _ q.heap t.fresh t.valid));
  }

  -- A queue with another heap of the same items: what the operations that only take out leave.
  shrink-Tracks :
      (q : ScheduleQueue) (h : List ScheduledItem)
      → IsOrdered h
      → ((R : ScheduledItem → Type 0) → All R q.heap → All R h)
      → Tracks n P q
      → Tracks n P (record q { heap = h })
  shrink-Tracks q h o fewer t =
      unfold current_generation in
      record { ordered = o; fresh = fewer _ t.fresh; bounded = t.bounded; valid = fewer _ t.valid }

  pub pop-Tracks : (q : ScheduleQueue) → Tracks n P q → Tracks n P (pop q).1
  unfolding pop
  pop-Tracks q t =
      shrink-Tracks q (pop_valid q q.heap).1 (pop_valid-IsOrdered q q.heap t.ordered)
        (λ R. All-pop_valid R q q.heap) t

  pub peek_valid-Tracks : (q : ScheduleQueue) → Tracks n P q → Tracks n P (peek_valid q).1
  unfolding peek_valid
  peek_valid-Tracks q t =
      shrink-Tracks q (drop_stale q q.heap) (drop_stale-IsOrdered q q.heap t.ordered)
        (λ R. All-drop_stale R q q.heap) t

  pub clear-Tracks : (q : ScheduleQueue) → Tracks n P q → Tracks n P (clear q)
  unfolding clear
  clear-Tracks q t = shrink-Tracks q [] tt (λ R _. tt) t

  pub take-Tracks :
      (id : TaskId) (q : ScheduleQueue) → Tracks n P q → Tracks n P (take_task_items id q).1
  unfolding take_task_items
  take-Tracks id q t =
      shrink-Tracks q (split_task id q.heap).1 (split_task-IsOrdered id q.heap)
        (λ R h. (All-split_task R id q.heap h).1) t

  -- The items that `take_task_items` hands out, where they carry the task's generation.
  pub taken-Tracks :
      (id : TaskId) (q : ScheduleQueue)
      → Tracks n P q
      → All
          (λ (x : ScheduledItem). current_generation q x.task_id ≡ x.generation → P x)
          (take_task_items id q).0
  unfolding take_task_items
  taken-Tracks id q t = (All-split_task _ id q.heap t.valid).0

  pub popped-Tracks :
      (q : ScheduleQueue) (x : ScheduledItem) → Tracks n P q → (pop q).0 ≡ some x → P x
  unfolding pop is_valid
  popped-Tracks q x t e =
      let (p, v) = All-popped _ q q.heap x t.valid e in
      p (let same : (current_generation q x.task_id == x.generation) ≡ true = v in ground arith)

pub new-Tracks : (P : ScheduledItem → Type 0) → Tracks 1 P new
unfolding new current_generation Map.get
new-Tracks P = record { ordered = tt; fresh = tt; bounded = λ id. omega arith; valid = tt }
