-- ===== src/Agent/Network/Watcher.antt =====
-- apps/agent/src/network.rs: the watchers of macOS and of Windows, as what one callback or one spawned
-- probe does to their state. What the system calls return is an argument.
use Prim.Native.String.{String}
use easy_job.Prelude.{
  ℕ, ◌+◌, ◌-◌, Bool, true, false, ltb, ◌==◌, ◌&&◌, not, if◌then◌else◌, Option, none, some, List, [],
  ◌∷◌, ◌++◌,
}
use easy_job.Agent.Network.{
  NetworkEvent, connected, disconnected, went_online, kind, EdgeDetector, changed, Debouncer, allow,
}

abbrev pub then_some : EdgeDetector × Bool → Bool → EdgeDetector × Option Bool
then_some (seen, true) value = (seen, some value)
then_some (seen, false) value = (seen, none)

-- The status 1 is satisfied, 2 is unsatisfied.
unfoldable pub status_to_connect_change : ℕ → EdgeDetector → EdgeDetector × Option Bool
status_to_connect_change status edge =
    if status == 1
    then then_some (changed 0 true edge) true
    else if status == 2
    then then_some (changed 0 false edge) false
    else (edge, none)

abbrev pub event_if : Bool → NetworkEvent → List NetworkEvent
event_if true event = event ∷ []
event_if false event = []

-- An event that the debouncer may hold back.
unfoldable pub emit : NetworkEvent → ℕ → Debouncer → Debouncer × List NetworkEvent
emit event now last =
    let (next, passes) = allow (kind event) now last in (next, event_if passes event)

pub record MacosWatcher : Type 0 where
  pub running : Bool
  pub edge : EdgeDetector
  pub debouncer : Debouncer
  -- `LAST_PROBE_MS`, in milliseconds since 1970
  pub last_probe_ms : ℕ

abbrev pub path_event : Bool → Option String → NetworkEvent
path_event true name = connected name
path_event false name = disconnected name

unfoldable pub report_path :
    Option Bool → ℕ → Option String → MacosWatcher → MacosWatcher × List NetworkEvent
report_path none now name s = (s, [])
report_path (some value) now name s =
    let (last, events) = emit (path_event value name) now s.debouncer in
    (record s { debouncer = last }, events)

-- The update handler, up to the probe that a `connected` event is followed by.
unfoldable pub path_callback :
    ℕ → ℕ → Option String → MacosWatcher → MacosWatcher × List NetworkEvent
path_callback status now name s =
    let (seen, change) = status_to_connect_change status s.edge in
    if s.running then report_path change now name (record s { edge = seen }) else (s, [])

-- Whether a probe is spawned: not within ten seconds of the last.
unfoldable pub spawn_online_probe : ℕ → Bool → MacosWatcher → MacosWatcher × Bool
spawn_online_probe now_ms has_handle s =
    if ltb (now_ms - s.last_probe_ms) 10_000
    then (s, false)
    else (record s { last_probe_ms = now_ms }, has_handle)

-- The end of a spawned probe.
unfoldable pub probe_done :
    Bool → ℕ → Option String → MacosWatcher → MacosWatcher × List NetworkEvent
probe_done false now name s = (s, [])
probe_done true now name s =
    let (last, events) = emit (went_online name) now s.debouncer in
    (record s { debouncer = last }, events)

-- `online_state` is none for -1; `arbitrate_seq` counts the edges.
pub record WindowsWatcher : Type 0 where
  pub edge : EdgeDetector
  pub debouncer : Debouncer
  pub online_state : Option Bool
  pub arbitrate_seq : ℕ

-- The `compare_exchange` of the baseline.
unfoldable pub set_baseline : Bool → WindowsWatcher → WindowsWatcher
set_baseline online s = elim s.online_state [
  | none ↦ record s { online_state = some online }
  | some _ ↦ s
]

unfoldable pub start_arbitration : WindowsWatcher → WindowsWatcher
start_arbitration s = record s { arbitrate_seq = s.arbitrate_seq + 1 }

-- The row, if there is one: the interface's LUID and whether it is connected.
unfoldable pub ip_callback : Option (ℕ × Bool) → Bool → WindowsWatcher → WindowsWatcher
ip_callback none deleted s = start_arbitration s
ip_callback (some (key, is_connected)) deleted s =
    let (seen, change) = changed key (not deleted && is_connected) s.edge in
    let s' = record s { edge = seen } in if change then start_arbitration s' else s'

unfoldable pub wlan_callback : Bool → Bool → WindowsWatcher → WindowsWatcher
wlan_callback is_acm relevant s = if is_acm && relevant then start_arbitration s else s

abbrev pub same_state : Option Bool → Bool → Bool
same_state none current = false
same_state (some true) current = current
same_state (some false) current = not current

unfoldable pub emit_reached :
    Bool → ℕ → ℕ → Option String → Option String → Debouncer → Debouncer × List NetworkEvent
emit_reached true now now' name name' last =
    let (mid, first) = emit (connected name) now last in
    let (end, second) = emit (went_online name') now' mid in (end, first ++ second)
emit_reached false now now' name name' last = emit (disconnected none) now last

-- The arbitration of the edge `seq`, once the machine's state is confirmed.
unfoldable pub arbitrate :
    ℕ
    → Bool
    → ℕ
    → ℕ
    → Option String
    → Option String
    → WindowsWatcher
    → WindowsWatcher × List NetworkEvent
arbitrate seq reachable now now' name name' s =
    let (last, events) = emit_reached reachable now now' name name' s.debouncer in
    if s.arbitrate_seq == seq
    then (if same_state s.online_state reachable
        then (s, [])
        else (record s { online_state = some reachable; debouncer = last }, events))
    else (s, [])
