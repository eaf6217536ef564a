-- ===== src/Agent/Semaphore.antt =====
-- What the agent takes from tokio's semaphore: a parameter of the model, with what its documentation
-- promises.
use easy_job.Prelude.{ℕ, suc, ◌≡◌, Option, none, some}

pub record Semaphore (S : Type 0) : Type 0 where
  pub available : S → ℕ
  -- `try_acquire_owned`, with the semaphore that has lent the permit
  pub try_acquire : S → Option S
  -- a permit is dropped
  pub release : S → S

pub record IsSemaphore {S : Type 0} (sem : Semaphore S) : Type 0 where
  pub acquired : (s t : S) → sem.try_acquire s ≡ some t → sem.available s ≡ suc (sem.available t)
  pub exhausted : (s : S) → sem.try_acquire s ≡ none → sem.available s ≡ 0
  pub released : (s : S) → sem.available (sem.release s) ≡ suc (sem.available s)
