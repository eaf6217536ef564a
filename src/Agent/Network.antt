-- ===== src/Agent/Network.antt =====
-- apps/agent/src/network.rs: network events, whether they match a trigger, and what filters them.
pub mod Probe
pub mod Watcher
pub mod Dispatch
pub mod Edges
pub mod Arbitration
mod Examples
use Prim.Native.String.{String}
use easy_job.Prelude.{
  ℕ, ◌-◌, Bool, true, false, ◌&&◌, not, ltb, ◌==◌, if◌then◌else◌, Option, none, some, List, [], ◌∷◌,
  any,
}
use easy_job.Prelude.Map
use easy_job.Prelude.Map.{Map}
use easy_job.Domain.Trigger.{
  TaskId, NetworkEventKind, connect, disconnect, online, TriggerKind, network, Trigger,
}
use easy_job.Prelude.Result.{Result, ok, err}
use easy_job.Common.Error.{Error}
use easy_job.Persistence.Interface.{TaskRepository}
use easy_job.Domain.Task.{Task}
use easy_job.Scheduler.Evaluator.Cron.{codes, same_text}

-- An event with the name of the network at that moment, where it is known.
pub data NetworkEvent : Type 0 where
  connected disconnected went_online : Option String → NetworkEvent

unfoldable pub kind : NetworkEvent → NetworkEventKind
kind (connected _) = connect
kind (disconnected _) = disconnect
kind (went_online _) = online

unfoldable pub ssid : NetworkEvent → Option String
ssid (connected name) = name
ssid (disconnected name) = name
ssid (went_online name) = name

abbrev pub kind_code : NetworkEventKind → ℕ
kind_code connect = 0
kind_code disconnect = 1
kind_code online = 2

abbrev pub same_kind : NetworkEventKind → NetworkEventKind → Bool
same_kind a b = kind_code a == kind_code b

unfoldable pub event_matches : NetworkEvent → List NetworkEventKind → Bool
event_matches ev events = any (same_kind (kind ev)) events

abbrev pub same_name : Option String → String → Bool
same_name none expected = false
same_name (some name) expected = same_text (codes name) (codes expected)

unfoldable pub name_matches : NetworkEvent → Option String → Bool
name_matches ev none = true
name_matches ev (some expected) = same_name (ssid ev) expected

-- The `match` on the kind of the trigger.
unfoldable pub kind_matches : NetworkEvent → TriggerKind → Bool
kind_matches ev (network events network_name) =
    event_matches ev events && name_matches ev network_name
kind_matches ev _ = false

unfoldable pub trigger_matches : NetworkEvent → Trigger → Bool
trigger_matches ev tr = tr.enabled && kind_matches ev tr.kind

-- The loop over the tasks: the ids for which `TriggerNow` is sent.
unfoldable pub dispatch_tasks : NetworkEvent → List Task → List TaskId
dispatch_tasks ev [] = []
dispatch_tasks ev (task ∷ tasks) =
    let rest = dispatch_tasks ev tasks in
    if any (trigger_matches ev) task.triggers then task.id ∷ rest else rest

abbrev pub dispatch_found : NetworkEvent → Result Error (List Task) → List TaskId
dispatch_found ev (err _) = []
dispatch_found ev (ok tasks) = dispatch_tasks ev tasks

unfoldable pub dispatch_network_event :
    {D : Type 0} → NetworkEvent → TaskRepository D → D → List TaskId
dispatch_network_event ev tasks d = dispatch_found ev (tasks.find_all_enabled d)

-- `EdgeDetector`: the last value that was seen for each key.
abbrev pub EdgeDetector : Type 0
EdgeDetector = Map Bool

abbrev pub differs : Option Bool → Bool → Bool
differs none value = false
differs (some true) value = not value
differs (some false) value = value

unfoldable pub changed : ℕ → Bool → EdgeDetector → EdgeDetector × Bool
changed key value seen = (Map.insert key value seen, differs (Map.get key seen) value)

-- `Debouncer`: the last event that was let through and when, in milliseconds of the monotonic clock.
abbrev pub Debouncer : Type 0
Debouncer = Option (NetworkEventKind × ℕ)

abbrev pub too_soon : NetworkEventKind → ℕ → Debouncer → Bool
too_soon k now none = false
too_soon k now (some (last, at)) = same_kind last k && ltb (now - at) 500

unfoldable pub allow : NetworkEventKind → ℕ → Debouncer → Debouncer × Bool
allow k now last = if too_soon k now last then (last, false) else (some (k, now), true)
