-- ===== src/Desktop/AgentManager/Examples.antt =====
-- Tests of the agent manager, and its theorem at a concrete run.
use Prim.Native.String.{String}
use easy_job.Prelude.{ℕ, ◌≡◌, refl, Bool, true, false, none, some, List, [], ◌∷◌}
use easy_job.Prelude.Result.{ok, err}
use easy_job.Common.Error.{io, other}
use easy_job.Desktop.AgentManager.{
  AgentManager, Answers, new, ensure_connected, spawn_and_retry, is_cooling, retry,
  is_connection_error, call, restart_agent, disconnect,
}
use easy_job.Desktop.AgentManager.Spawning.{
  IsIdle, Operation, connects, calls, restarts, perform_all, perform_all-IsIdle,
}

abbrev contains : String → String → Bool
contains needle msg = true

abbrev unreachable : ℕ → Answers
unreachable now = record { first = none; now = now; started = ok tt; later = λ n. none }

abbrev reachable : ℕ → Answers
reachable now = record { first = some 7; now = now; started = ok tt; later = λ n. none }

abbrev only_connects : AgentManager
only_connects = record new { allow_spawn = false }

abbrev operations : List (Operation ℕ)
operations =
    connects (unreachable 0)
    ∷ calls (reachable 1) (err (io "broken pipe")) (ok 3) (unreachable 2)
    ∷ restarts (reachable 3) (ok tt) (reachable 4)
    ∷ []

perform_all-IsIdle_example : IsIdle 0 (perform_all contains operations only_connects)
unfolding new
perform_all-IsIdle_example = perform_all-IsIdle contains 0 operations only_connects (refl, refl)

second_start_waits :
    (ensure_connected (unreachable 4999999999) (ensure_connected (unreachable 0) new).0).0.spawns
    ≡ 1
unfolding ensure_connected spawn_and_retry is_cooling retry new
second_start_waits = refl

later_start_is_made :
    (ensure_connected (unreachable 5000000000) (ensure_connected (unreachable 0) new).0).0.spawns
    ≡ 2
unfolding ensure_connected spawn_and_retry is_cooling retry new
later_start_is_made = refl

-- A call that has timed out may have reached the agent; it is sent again.
timed_out_call_is_sent_twice :
    (call contains {Value = ℕ}
      (reachable 0)
      (err (other "IPC request timed out after 30s"))
      (ok 3)
      (reachable 1)
      new).0.sent
    ≡ 2
unfolding call ensure_connected is_connection_error disconnect new
timed_out_call_is_sent_twice = refl

-- The agent that a restart starts is not taken for one that the desktop has started.
restarted_agent_is_not_ours :
    (restart_agent (reachable 0) (ok tt) (reachable 1) new).0.spawned_by_us ≡ false
unfolding restart_agent ensure_connected disconnect new
restarted_agent_is_not_ours = refl
