-- ===== src/Agent/Network/Arbitration.antt =====
-- The machine's state on Windows, over every sequence of callbacks and arbitrations.
use Prim.Native.String.{String}
use easy_job.Prelude.{
  ℕ, ◌+◌, ◌≡◌, refl, sym, subst, Bool, true, false, not, ◌==◌, ◌&&◌, if◌then◌else◌, Option, none,
  some, List, [], ◌∷◌, ◌++◌,
}
use easy_job.Domain.Trigger.{connect, disconnect, online}
use easy_job.Agent.Network.{
  NetworkEvent, connected, disconnected, went_online, kind, Debouncer, allow, changed,
}
use easy_job.Agent.Network.Watcher.{
  WindowsWatcher, set_baseline, start_arbitration, ip_callback, wlan_callback, same_state, emit,
  emit_reached, arbitrate,
}
use easy_job.Agent.Network.Edges.{AlternatesFrom}

-- What happens to the watcher, in the order in which it happens.
pub data WindowsStep : Type 0 where
  baseline : Bool → WindowsStep
  interface_changed : Option (ℕ × Bool) → Bool → WindowsStep
  wlan_changed : Bool → Bool → WindowsStep
  arbitrated : ℕ → Bool → ℕ → ℕ → Option String → Option String → WindowsStep

unfoldable pub windows_step : WindowsStep → WindowsWatcher → WindowsWatcher × List NetworkEvent
windows_step (baseline reached) s = (set_baseline reached s, [])
windows_step (interface_changed row deleted) s = (ip_callback row deleted s, [])
windows_step (wlan_changed is_acm relevant) s = (wlan_callback is_acm relevant s, [])
windows_step (arbitrated seq reachable now now' name name') s =
    arbitrate seq reachable now now' name name' s

unfoldable pub windows_events : List WindowsStep → WindowsWatcher → List NetworkEvent
windows_events [] s = []
windows_events (step ∷ steps) s =
    let (next, events) = windows_step step s in events ++ windows_events steps next

-- The directions that the events tell, where `went_online` tells none.
unfoldable pub directions : List NetworkEvent → List Bool
directions [] = []
directions (connected _ ∷ events) = true ∷ directions events
directions (disconnected _ ∷ events) = false ∷ directions events
directions (went_online _ ∷ events) = directions events

-- The debouncer's last event fits the machine's state.
abbrev pub Fits : Option Bool → Debouncer → Type 0
Fits state none = Unit
Fits state (some (connect, _)) = state ≡ some true
Fits state (some (online, _)) = state ≡ some true
Fits state (some (disconnect, _)) = state ≡ some false

abbrev After : Option Bool → Debouncer × List NetworkEvent → List NetworkEvent → Type 0
After state (last, events) expected = Fits state last × (events ≡ expected)

known_same : (state : Option Bool) (b : Bool) → state ≡ some b → same_state state b ≡ false → ⊥
known_same none b e d = cc
known_same (some true) true e d = cc
known_same (some true) false e d = cc
known_same (some false) true e d = cc
known_same (some false) false e d = cc

-- An arbitration that changes the state loses none of its events.
reached-After :
    (state : Option Bool) (reachable : Bool) (now now' : ℕ) (name name' : Option String)
    (last : Debouncer)
    → Fits state last
    → same_state state reachable ≡ false
    → After
        (some reachable)
        (emit_reached reachable now now' name name' last)
        (if reachable then connected name ∷ went_online name' ∷ [] else disconnected none ∷ [])
unfolding emit_reached emit allow kind
reached-After state true now now' name name' none f d = (refl, refl)
reached-After state true now now' name name' (some (connect, at)) f d =
    absurd (known_same state true f d)
reached-After state true now now' name name' (some (online, at)) f d = (refl, refl)
reached-After state true now now' name name' (some (disconnect, at)) f d = (refl, refl)
reached-After state false now now' name name' none f d = (refl, refl)
reached-After state false now now' name name' (some (connect, at)) f d = (refl, refl)
reached-After state false now now' name name' (some (online, at)) f d = (refl, refl)
reached-After state false now now' name name' (some (disconnect, at)) f d =
    absurd (known_same state false f d)

-- What one step leaves: the debouncer fits the state, and what alternates from the new state alternates
-- from the old one with the step's events in front.
abbrev Goes : WindowsWatcher → WindowsWatcher × List NetworkEvent → Type 0
Goes s (next, events) =
    Fits next.online_state next.debouncer
    × ((rest : List NetworkEvent)
        → AlternatesFrom next.online_state (directions rest)
        → AlternatesFrom s.online_state (directions (events ++ rest)))

arbitrated-Goes :
    (s : WindowsWatcher) (reachable latest same : Bool) (name name' : Option String)
    (r : Debouncer × List NetworkEvent)
    → Fits s.online_state s.debouncer
    → same_state s.online_state reachable ≡ same
    → (same_state s.online_state reachable ≡ false
        → After
            (some reachable)
            r
            (if reachable then connected name ∷ went_online name' ∷ [] else disconnected none ∷ []))
    → Goes s (
        if latest
        then (if same
            then (s, [])
            else (record s { online_state = some reachable; debouncer = r.0 }, r.1))
        else (s, []))
unfolding directions
arbitrated-Goes s reachable false same name name' r f e h = (f, λ rest a. a)
arbitrated-Goes s reachable true true name name' r f e h = (f, λ rest a. a)
arbitrated-Goes s true true false name name' r f e h =
    ((h e).0, λ rest a. rw ((h e).1) ((λ k. known_same s.online_state true k e), a))
arbitrated-Goes s false true false name name' r f e h =
    ((h e).0, λ rest a. rw ((h e).1) ((λ k. known_same s.online_state false k e), a))

from_unknown : (b : Bool) (bs : List Bool) → AlternatesFrom (some b) bs → AlternatesFrom none bs
from_unknown b [] h = tt
from_unknown b (c ∷ bs) h = ((λ e. cc), h.1)

based-Fits : (b : Bool) (last : Debouncer) → Fits none last → Fits (some b) last
based-Fits b none f = tt
based-Fits b (some (connect, at)) f = cc
based-Fits b (some (online, at)) f = cc
based-Fits b (some (disconnect, at)) f = cc

baseline-Goes :
    (b : Bool) (s : WindowsWatcher) (o : Option Bool)
    → s.online_state ≡ o
    → Fits s.online_state s.debouncer
    → Goes s ((elim o [ none ↦ record s { online_state = some b } | some _ ↦ s ]), [])
baseline-Goes b s none e f = (
  based-Fits b s.debouncer (subst (λ k. Fits k s.debouncer) e f),
  λ rest a.
      subst (λ k. AlternatesFrom k (directions rest)) (sym e) (from_unknown b (directions rest) a),
)
baseline-Goes b s (some _) e f = (f, λ rest a. a)

quiet-Goes :
    (s next : WindowsWatcher)
    → next.online_state ≡ s.online_state
    → next.debouncer ≡ s.debouncer
    → Fits s.online_state s.debouncer
    → Goes s (next, [])
quiet-Goes s next e d f =
    (simp (e, d) f, λ rest a. subst (λ k. AlternatesFrom k (directions rest)) e a)

started-Goes :
    (s : WindowsWatcher) (b : Bool) (next : WindowsWatcher)
    → next.online_state ≡ s.online_state
    → next.debouncer ≡ s.debouncer
    → Fits s.online_state s.debouncer
    → Goes s ((if b then start_arbitration next else next), [])
unfolding start_arbitration
started-Goes s true next e d f =
    quiet-Goes s (record next { arbitrate_seq = next.arbitrate_seq + 1 }) e d f
started-Goes s false next e d f = quiet-Goes s next e d f

windows_step-Goes :
    (step : WindowsStep) (s : WindowsWatcher)
    → Fits s.online_state s.debouncer
    → Goes s (windows_step step s)
unfolding windows_step set_baseline ip_callback wlan_callback arbitrate
windows_step-Goes (baseline b) s f = baseline-Goes b s s.online_state refl f
windows_step-Goes (interface_changed none deleted) s f = started-Goes s true s refl refl f
windows_step-Goes (interface_changed (some (key, is_connected)) deleted) s f =
    started-Goes s (changed key (not deleted && is_connected) s.edge).1 _ refl refl f
windows_step-Goes (wlan_changed is_acm relevant) s f =
    started-Goes s (is_acm && relevant) s refl refl f
windows_step-Goes (arbitrated seq reachable now now' name name') s f =
    arbitrated-Goes s reachable (s.arbitrate_seq == seq) (same_state s.online_state reachable) name
      name' (emit_reached reachable now now' name name' s.debouncer) f refl
      λ d. reached-After s.online_state reachable now now' name name' s.debouncer f d

-- Whatever the interfaces and the wireless network report and whatever the arbitrations find, in any
-- order, the events for connecting and disconnecting alternate, and the first is not for the state
-- that was known. It starts with a debouncer that fits the state, as a new watcher's does.
pub windows_events-AlternatesFrom :
    (steps : List WindowsStep) (s : WindowsWatcher)
    → Fits s.online_state s.debouncer
    → AlternatesFrom s.online_state (directions (windows_events steps s))
unfolding windows_events
windows_events-AlternatesFrom [] s f = unfold directions in tt
windows_events-AlternatesFrom (step ∷ steps) s f =
    let (fits, goes) = windows_step-Goes step s f in
    goes (windows_events steps (windows_step step s).0)
      (windows_events-AlternatesFrom steps (windows_step step s).0 fits)
