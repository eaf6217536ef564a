-- ===== src/Agent/Network/Edges.antt =====
-- What the edge detector and the debouncer let through, over every sequence of calls.
use easy_job.Prelude.{
  ℕ, ◌+◌, ◌≤◌, ◌≡◌, ◌≢◌, refl, sym, subst, ◌∙◌, Bool, true, false, ◌==◌, if◌then◌else◌, Option,
  none, some, List, [], ◌∷◌, arith,
}
use easy_job.Prelude.Map
use easy_job.Prelude.Map.{get-insert}
use easy_job.Domain.Trigger.{NetworkEventKind}
use easy_job.Agent.Network.{EdgeDetector, differs, changed, Debouncer, allow, too_soon, same_kind}
use easy_job.Agent.Network.Watcher.{then_some, status_to_connect_change}

abbrev report : Option Bool → List Bool → List Bool
report none bs = bs
report (some b) bs = b ∷ bs

-- What the update handler reports for the statuses of its calls.
unfoldable pub reports : List ℕ → EdgeDetector → List Bool
reports [] edge = []
reports (status ∷ statuses) edge =
    let (seen, change) = status_to_connect_change status edge in
    report change (reports statuses seen)

-- Each report differs from the value known before it.
abbrev pub AlternatesFrom : Option Bool → List Bool → Type 0
AlternatesFrom known [] = Unit
AlternatesFrom known (b ∷ bs) = (known ≢ some b) × AlternatesFrom (some b) bs

report-AlternatesFrom :
    (known : Option Bool) (value : Bool) (bs : List Bool)
    → AlternatesFrom (some value) bs
    → AlternatesFrom known (report (if differs known value then some value else none) bs)
report-AlternatesFrom none value [] h = tt
report-AlternatesFrom none value (b ∷ bs) h = ((λ e. cc), h.1)
report-AlternatesFrom (some true) true bs h = h
report-AlternatesFrom (some true) false bs h = ((λ e. cc), h)
report-AlternatesFrom (some false) true bs h = ((λ e. cc), h)
report-AlternatesFrom (some false) false bs h = h

then_some-AlternatesFrom :
    (statuses : List ℕ) (known : Option Bool) (seen : EdgeDetector) (value fires : Bool)
    → fires ≡ differs known value
    → AlternatesFrom (some value) (reports statuses seen)
    → AlternatesFrom known (
        report
          (then_some (seen, fires) value).1
          (reports statuses (then_some (seen, fires) value).0))
then_some-AlternatesFrom statuses known seen value true e h =
    subst
      (λ b. AlternatesFrom known (report (if b then some value else none) (reports statuses seen)))
      (sym e) (report-AlternatesFrom known value _ h)
then_some-AlternatesFrom statuses known seen value false e h =
    subst
      (λ b. AlternatesFrom known (report (if b then some value else none) (reports statuses seen)))
      (sym e) (report-AlternatesFrom known value _ h)

-- Whatever statuses the system reports, repeated or in between, each report of the handler is the
-- opposite of the one before it, and the first is the opposite of the value seen last, if there is
-- one.
pub reports-AlternatesFrom :
    (statuses : List ℕ) (edge : EdgeDetector)
    → AlternatesFrom (Map.get 0 edge) (reports statuses edge)
unfolding reports status_to_connect_change changed
reports-AlternatesFrom [] edge = tt
reports-AlternatesFrom (status ∷ statuses) edge =
    status_case (status == 1) (status == 2) (reports-AlternatesFrom statuses)
  where
    after_value :
        (value : Bool)
        → ((e : EdgeDetector) → AlternatesFrom (Map.get 0 e) (reports statuses e))
        → AlternatesFrom (some value) (reports statuses (Map.insert 0 value edge))
    after_value value later =
        subst (λ known. AlternatesFrom known (reports statuses (Map.insert 0 value edge)))
          (get-insert 0 0 value edge ∙ ground arith) (later (Map.insert 0 value edge))

    status_case :
        (satisfied unsatisfied : Bool)
        → ((e : EdgeDetector) → AlternatesFrom (Map.get 0 e) (reports statuses e))
        → (let r : EdgeDetector × Option Bool =
              (if satisfied
                then then_some (changed 0 true edge) true
                else if unsatisfied
                then then_some (changed 0 false edge) false
                else (edge, none)) in
            AlternatesFrom (Map.get 0 edge) (report r.1 (reports statuses r.0)))
    status_case true unsatisfied later =
        then_some-AlternatesFrom statuses (Map.get 0 edge) (Map.insert 0 true edge) true _ refl
          (after_value true later)
    status_case false true later =
        then_some-AlternatesFrom statuses (Map.get 0 edge) (Map.insert 0 false edge) false _ refl
          (after_value false later)
    status_case false false later = later edge

abbrev pub Call : Type 0
Call = NetworkEventKind × ℕ

-- The events that the debouncer lets through, with their times in milliseconds.
unfoldable pub passed : List Call → Debouncer → List Call
passed [] last = []
passed ((k, now) ∷ calls) last =
    let (next, passes) = allow k now last in
    let rest = passed calls next in if passes then (k, now) ∷ rest else rest

abbrev pub IsSpacedFrom : Debouncer → List Call → Type 0
IsSpacedFrom last [] = Unit
IsSpacedFrom last ((k, now) ∷ calls) =
    ((at : ℕ) → last ≡ some (k, at) → at + 500 ≤ now) × IsSpacedFrom (some (k, now)) calls

abbrev Passes : Debouncer → Debouncer × Bool → Call → List Call → Type 0
Passes last (next, passes) call rest =
    IsSpacedFrom next rest → IsSpacedFrom last (if passes then call ∷ rest else rest)

allow-Passes :
    (k : NetworkEventKind) (now : ℕ) (last : Debouncer) (rest : List Call)
    → Passes last (allow k now last) (k, now) rest
unfolding allow
allow-Passes k now last rest = go (too_soon k now last) refl
  where
    spaced : (at : ℕ) → too_soon k now (some (k, at)) ≡ false → at + 500 ≤ now
    spaced at e = let one : same_kind k k ≡ true = ground arith in ground arith

    go :
        (b : Bool)
        → too_soon k now last ≡ b
        → (let r : Debouncer × Bool = (if b then (last, false) else (some (k, now), true)) in
            Passes last r (k, now) rest)
    go true e h = h
    go false e h = ((λ at same. spaced at (subst (λ l. too_soon k now l ≡ false) same e)), h)

-- Of the events that the debouncer lets through, in any sequence of calls, each comes at least 500 ms
-- after the one before it if both are of the same kind.
pub passed-IsSpacedFrom :
    (calls : List Call) (last : Debouncer) → IsSpacedFrom last (passed calls last)
unfolding passed
passed-IsSpacedFrom [] last = tt
passed-IsSpacedFrom ((k, now) ∷ calls) last =
    allow-Passes k now last (passed calls (allow k now last).0)
      (passed-IsSpacedFrom calls (allow k now last).0)
