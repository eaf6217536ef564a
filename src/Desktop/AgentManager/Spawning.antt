-- ===== src/Desktop/AgentManager/Spawning.antt =====
-- When the desktop starts an agent, and how often it sends a request.
use Prim.Native.String.{String}
use easy_job.Prelude.{
  ℕ, suc, zero, ◌≡◌, Bool, false, if-both, refl, Option, none, some, List, [], ◌∷◌,
}
use easy_job.Prelude.Result.{Result, ok, err}
use easy_job.Common.Error.{Error}
use easy_job.Desktop.AgentManager.{
  AgentManager, IpcClient, Answers, Reply, connect_first, use_client, retry, tried, spawn_and_retry,
  is_cooling, ensure_connected, disconnect, is_connection_error, call, call_on, call_again,
  answered, count_sent, shutdown_agent, restart_agent,
}

-- No agent has been started beyond the first `n`, and none may be.
abbrev pub IsIdle : ℕ → AgentManager → Type 0
IsIdle n m = (m.allow_spawn ≡ false) × (m.spawns ≡ n)

retry-IsIdle :
    (n tries : ℕ) (later : ℕ → Option IpcClient) (m : AgentManager)
    → IsIdle n m
    → IsIdle n (retry tries later m).0
unfolding retry
retry-IsIdle n zero later m h = h
retry-IsIdle n (suc tries) later m h = go (later tries) (retry-IsIdle n tries later m h)
  where
    go :
        (o : Option IpcClient)
        → IsIdle n (retry tries later m).0
        → IsIdle n (tried o (retry tries later m) m).0
    go none idle = idle
    go (some client) idle = h

spawn_and_retry-IsIdle :
    (n : ℕ) (a : Answers) (m : AgentManager) → IsIdle n m → IsIdle n (spawn_and_retry a m).0
unfolding spawn_and_retry
spawn_and_retry-IsIdle n a m h =
    if-both (λ (r : Reply IpcClient). IsIdle n r.0) (is_cooling m.last_spawn_attempt a.now) _ _
      (retry-IsIdle n 15 a.later m h) (simp h.0 (refl, h.1))

ensure_connected-IsIdle :
    (n : ℕ) (a : Answers) (m : AgentManager) → IsIdle n m → IsIdle n (ensure_connected a m).0
unfolding ensure_connected
ensure_connected-IsIdle n a m h = held m.client
  where
    first : (o : Option IpcClient) → IsIdle n (connect_first o a m).0
    first none = spawn_and_retry-IsIdle n a m h
    first (some client) = h

    held : (o : Option IpcClient) → IsIdle n (use_client o a m).0
    held none = first a.first
    held (some client) = h

module _ (contains : String → String → Bool) {Value : Type 0} where
  call_again-IsIdle :
      (n : ℕ) (r : Reply IpcClient) (second : Result Error Value)
      → IsIdle n r.0
      → IsIdle n (call_again contains r second).0
  call_again-IsIdle n (m, ok client) second h = h
  call_again-IsIdle n (m, err e) second h = h

  answered-IsIdle :
      (n : ℕ) (first second : Result Error Value) (again : Answers) (m : AgentManager)
      → IsIdle n m
      → IsIdle n (answered contains first second again m).0
  unfolding disconnect
  answered-IsIdle n (ok v) second again m h = h
  answered-IsIdle n (err e) second again m h =
      if-both (λ (r : Reply Value). IsIdle n r.0) (is_connection_error contains e) _ _
        (call_again-IsIdle n _ second (ensure_connected-IsIdle n again (disconnect m) h)) h

  call-IsIdle :
      (n : ℕ) (a : Answers) (first second : Result Error Value) (again : Answers) (m : AgentManager)
      → IsIdle n m
      → IsIdle n (call contains a first second again m).0
  unfolding call
  call-IsIdle n a first second again m h =
      go (ensure_connected a m) (ensure_connected-IsIdle n a m h)
    where
      go : (r : Reply IpcClient) → IsIdle n r.0 → IsIdle n (call_on contains r first second again).0
      go (m', ok client) idle = answered-IsIdle n first second again (count_sent m') idle
      go (m', err e) idle = idle

shutdown_agent-IsIdle :
    (n : ℕ) (connects : Option IpcClient) (m : AgentManager)
    → IsIdle n m
    → IsIdle n (shutdown_agent connects m)
unfolding shutdown_agent disconnect
shutdown_agent-IsIdle n connects m h = with_client m.client
  where
    without_client :
        (o : Option IpcClient) → IsIdle n (elim o [ some client ↦ count_sent m | none ↦ m ])
    without_client (some client) = h
    without_client none = h

    with_client :
        (o : Option IpcClient)
        → IsIdle n (elim o [
          | some client ↦ disconnect (count_sent m)
          | none ↦ elim connects [ some client ↦ count_sent m | none ↦ m ]
        ])
    with_client (some client) = h
    with_client none = without_client connects

restart_agent-IsIdle :
    (n : ℕ) (a : Answers) (started : Result String (Unit {0})) (again : Answers) (m : AgentManager)
    → IsIdle n m
    → IsIdle n (restart_agent a started again m).0
unfolding restart_agent
restart_agent-IsIdle n a started again m h = simp h.0 (refl, h.1)

-- An operation of the desktop, with what it meets.
pub data Operation (Value : Type 0) : Type 0 where
  connects : Answers → Operation Value
  calls : Answers → Result Error Value → Result Error Value → Answers → Operation Value
  disconnects : Operation Value
  shuts_down : Option IpcClient → Operation Value
  restarts : Answers → Result String (Unit {0}) → Answers → Operation Value

module _ (contains : String → String → Bool) {Value : Type 0} where
  abbrev pub perform : Operation Value → AgentManager → AgentManager
  perform (connects a) m = (ensure_connected a m).0
  perform (calls a first second again) m = (call contains a first second again m).0
  perform disconnects m = disconnect m
  perform (shuts_down o) m = shutdown_agent o m
  perform (restarts a started again) m = (restart_agent a started again m).0

  abbrev pub perform_all : List (Operation Value) → AgentManager → AgentManager
  perform_all [] m = m
  perform_all (op ∷ ops) m = perform_all ops (perform op m)

  perform-IsIdle :
      (n : ℕ) (op : Operation Value) (m : AgentManager) → IsIdle n m → IsIdle n (perform op m)
  unfolding disconnect
  perform-IsIdle n (connects a) m h = ensure_connected-IsIdle n a m h
  perform-IsIdle n (calls a first second again) m h =
      call-IsIdle contains n a first second again m h
  perform-IsIdle n disconnects m h = h
  perform-IsIdle n (shuts_down o) m h = shutdown_agent-IsIdle n o m h
  perform-IsIdle n (restarts a started again) m h = restart_agent-IsIdle n a started again m h

  -- A desktop that may not start an agent starts none, whatever it does and meets.
  pub perform_all-IsIdle :
      (n : ℕ) (ops : List (Operation Value)) (m : AgentManager)
      → IsIdle n m
      → IsIdle n (perform_all ops m)
  perform_all-IsIdle n [] m h = h
  perform_all-IsIdle n (op ∷ ops) m h =
      perform_all-IsIdle n ops (perform op m) (perform-IsIdle n op m h)
