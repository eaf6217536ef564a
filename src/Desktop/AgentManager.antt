-- ===== src/Desktop/AgentManager.antt =====
-- apps/desktop/src-tauri/src/agent_manager.rs: the connection of the desktop to the agent. What the
-- socket, the clock and the start of a process answer comes from outside. A connection is a number; a
-- point in time is in nanoseconds. The locks make `ensure_connected` one step.
pub mod Spawning
mod Examples
use Prim.Native.String.{String}
use easy_job.Prelude.{
  ℕ, suc, zero, ◌+◌, ◌-◌, ltb, Bool, true, false, not, ◌||◌, if◌then◌else◌, Option, none, some,
  List, [], ◌∷◌,
}
use easy_job.Prelude.Result.{Result, ok, err}
use easy_job.Common.Error.{
  Error, io, other, to_string, validation, not_found, process, scheduler, database, serialization,
}

abbrev pub IpcClient : Type 0
IpcClient = ℕ

-- `spawns` counts the agents that were asked to start, `sent` the requests that went out.
pub record AgentManager : Type 0 where
  pub client : Option IpcClient
  pub last_spawn_attempt : Option ℕ
  pub allow_spawn : Bool
  pub spawned_by_us : Bool
  pub spawns : ℕ
  pub sent : ℕ

unfoldable pub new : AgentManager
new = record {
  client = none;
  last_spawn_attempt = none;
  allow_spawn = true;
  spawned_by_us = false;
  spawns = 0;
  sent = 0;
}

-- What `ensure_connected` meets: the first connection if there is one, the time of the test of the
-- cooldown, the result of the start, and the connections of the tries after it.
pub record Answers : Type 0 where
  pub first : Option IpcClient
  pub now : ℕ
  pub started : Result String (Unit {0})
  pub later : ℕ → Option IpcClient

abbrev pub Reply : Type 0 → Type 0
Reply A = AgentManager × Result String A

unfoldable pub set_allow_spawn : Bool → AgentManager → AgentManager
set_allow_spawn allow m = record m { allow_spawn = allow }

unfoldable pub disconnect : AgentManager → AgentManager
disconnect m = record m { client = none }

abbrev pub connected : IpcClient → AgentManager → Reply IpcClient
connected client m = (record m { client = some client }, ok client)

-- Five seconds.
abbrev pub cooldown : ℕ
cooldown = 5000000000

unfoldable pub is_cooling : Option ℕ → ℕ → Bool
is_cooling none now = false
is_cooling (some t) now = ltb (now - t) cooldown

-- One try, and what follows where it fails.
abbrev pub tried : Option IpcClient → Reply IpcClient → AgentManager → Reply IpcClient
tried none rest m = rest
tried (some client) rest m = connected client m

-- The 15 tries.
unfoldable pub retry : ℕ → (ℕ → Option IpcClient) → AgentManager → Reply IpcClient
retry zero later m = (m, err "Failed to connect to easyjob-agent daemon")
retry (suc n) later m = let rest = retry n later m in tried (later n) rest m

-- A start of the agent's process, with what it means for `spawned_by_us`.
abbrev pub mark_spawned : Result String (Unit {0}) → AgentManager → AgentManager
mark_spawned (ok _) m = record m { spawned_by_us = true; spawns = m.spawns + 1 }
mark_spawned (err _) m = m

unfoldable pub spawn_and_retry : Answers → AgentManager → Reply IpcClient
spawn_and_retry a m =
    if is_cooling m.last_spawn_attempt a.now
    then retry 15 a.later m
    else (let m' : AgentManager = record m { last_spawn_attempt = some a.now } in
        if not m.allow_spawn
        then (m', err "系统服务未运行，请检查开机自启服务状态（桌面端不会另起 Agent）")
        else retry 15 a.later (mark_spawned a.started m'))

abbrev pub connect_first : Option IpcClient → Answers → AgentManager → Reply IpcClient
connect_first (some client) a m = connected client m
connect_first none a m = spawn_and_retry a m

abbrev pub use_client : Option IpcClient → Answers → AgentManager → Reply IpcClient
use_client (some client) a m = (m, ok client)
use_client none a m = connect_first a.first a m

unfoldable pub ensure_connected : Answers → AgentManager → Reply IpcClient
ensure_connected a m = use_client m.client a m

abbrev pub count_sent : AgentManager → AgentManager
count_sent m = record m { sent = m.sent + 1 }

-- `contains needle msg` looks for the needle in the text in lower case.
module _ (contains : String → String → Bool) where
  unfoldable pub is_connection_error : Error → Bool
  is_connection_error (io _) = true
  is_connection_error (other msg) =
      contains "failed to send ipc request" msg
      || contains "channel closed" msg
      || contains "connection" msg
      || contains "broken pipe" msg
      || contains "reset by peer" msg
      || contains "timed out" msg
  is_connection_error _ = false

  module _ {Value : Type 0} where
    abbrev pub texted : Result Error Value → Result String Value
    texted (ok v) = ok v
    texted (err e) = err (to_string e)

    -- The second try of `call`.
    abbrev pub call_again : Reply IpcClient → Result Error Value → Reply Value
    call_again (m, err e) second = (m, err e)
    call_again (m, ok client) second = (count_sent m, texted second)

    abbrev pub answered :
        Result Error Value → Result Error Value → Answers → AgentManager → Reply Value
    answered (ok v) second again m = (m, ok v)
    answered (err e) second again m =
        if is_connection_error e
        then call_again (ensure_connected again (disconnect m)) second
        else (m, err (to_string e))

    abbrev pub call_on :
        Reply IpcClient → Result Error Value → Result Error Value → Answers → Reply Value
    call_on (m, err e) first second again = (m, err e)
    call_on (m, ok client) first second again = answered first second again (count_sent m)

    -- `first` and `second` are the results of the calls over IPC.
    unfoldable pub call :
        Answers → Result Error Value → Result Error Value → Answers → AgentManager → Reply Value
    call a first second again m = call_on (ensure_connected a m) first second again

-- The requests to shut down are sent where there is a connection; their results are ignored.
unfoldable pub shutdown_agent : Option IpcClient → AgentManager → AgentManager
shutdown_agent connects m = elim m.client [
  | some client ↦ disconnect (count_sent m)
  | none ↦ elim connects [ some client ↦ count_sent m | none ↦ m ]
]

abbrev pub after_start : Reply IpcClient → Reply Bool
after_start (m, ok client) = (m, ok true)
after_start (m, err e) = (m, err e)

abbrev pub restarted : Result String (Unit {0}) → Answers → AgentManager → Reply Bool
restarted (err e) a m = (m, err e)
restarted (ok _) a m = after_start (ensure_connected a (record m { spawns = m.spawns + 1 }))

abbrev pub shut_down : Reply IpcClient → AgentManager
shut_down (m, ok client) = disconnect (count_sent m)
shut_down (m, err e) = disconnect m

-- `started` is the result of the start that `restart_agent` makes itself.
unfoldable pub restart_agent :
    Answers → Result String (Unit {0}) → Answers → AgentManager → Reply Bool
restart_agent a started again m =
    if not m.allow_spawn
    then (m, err "开机自启模式下请通过系统服务管理器重启 Agent")
    else restarted started again (shut_down (ensure_connected a m))
