-- ===== src/Agent/Network/Dispatch.antt =====
-- Which tasks a network event starts.
use mathlib.Core.List.{Memᴰ}
use Prim.Native.String.{String}
use easy_job.Prelude.{
  ◌≡◌, ◌⊎◌, keep_if, Memᴰ-keep_if, keep_if-Memᴰ, keep_if_passes, All-get, refl, ap, sym, subst, ◌↔◌,
  Bool, true, false, if◌then◌else◌, Option, none, some, List, [], ◌∷◌, any, arith, Bool-cases, inl,
  inr,
}
use easy_job.Prelude.Result.{Result, ok, err}
use easy_job.Persistence.Codec.{Codec}
use easy_job.Persistence.Tables.{TaskRow, Database}
use easy_job.Persistence.Tasks.{find_by_id, find_all_enabled}
use easy_job.Persistence.Tasks.Listing.{find_all_enabled-IsRead}
use easy_job.Persistence.Sqlite.{task_repository}
use easy_job.Common.Error.{Error}
use easy_job.Domain.Trigger.{TaskId, NetworkEventKind, TriggerKind, network, Trigger}
use easy_job.Domain.Task.{Task}
use easy_job.Scheduler.Evaluator.Cron.{codes, same_text}
use easy_job.Agent.Network.{
  NetworkEvent, kind, ssid, same_kind, same_name, event_matches, name_matches, kind_matches,
  trigger_matches, dispatch_tasks, dispatch_network_event,
}

any-Memᴰ {ℓ} :
    {A : Type ℓ} (p : A → Bool) (xs : List A) → any p xs ≡ true → (a : A) × Memᴰ a xs × (p a ≡ true)
any-Memᴰ p [] h = cc
any-Memᴰ p (x ∷ xs) h = elim (Bool-cases (p x)) [
  | inl e ↦ (x, Memᴰ.head refl, e)
  | inr e ↦ let (a, m, q) = any-Memᴰ p xs (ground arith) in (a, Memᴰ.tail m, q)
]

any-of_Memᴰ {ℓ} :
    {A : Type ℓ} (p : A → Bool) (xs : List A) (a : A) → Memᴰ a xs → p a ≡ true → any p xs ≡ true
any-of_Memᴰ p [] a m h = absurd (elim m [ ])
any-of_Memᴰ p (x ∷ xs) a (Memᴰ.head e) h = ground (arith, ap p e)
any-of_Memᴰ p (x ∷ xs) a (Memᴰ.tail m) h = ground (arith, any-of_Memᴰ p xs a m h)

same_kind→eq : (a b : NetworkEventKind) → same_kind a b ≡ true → a ≡ b
same_kind→eq NetworkEventKind.connect NetworkEventKind.connect h = refl
same_kind→eq NetworkEventKind.connect NetworkEventKind.disconnect h = cc
same_kind→eq NetworkEventKind.connect NetworkEventKind.online h = cc
same_kind→eq NetworkEventKind.disconnect NetworkEventKind.connect h = cc
same_kind→eq NetworkEventKind.disconnect NetworkEventKind.disconnect h = refl
same_kind→eq NetworkEventKind.disconnect NetworkEventKind.online h = cc
same_kind→eq NetworkEventKind.online NetworkEventKind.connect h = cc
same_kind→eq NetworkEventKind.online NetworkEventKind.disconnect h = cc
same_kind→eq NetworkEventKind.online NetworkEventKind.online h = refl

same_kind_refl : (a : NetworkEventKind) → same_kind a a ≡ true
same_kind_refl NetworkEventKind.connect = refl
same_kind_refl NetworkEventKind.disconnect = refl
same_kind_refl NetworkEventKind.online = refl

abbrev pub NameFits : NetworkEvent → Option String → Type 0
NameFits ev none = Unit
NameFits ev (some expected) =
    (name : String) × (ssid ev ≡ some name) × (same_text (codes name) (codes expected) ≡ true)

-- An enabled network trigger that lists the event's kind and whose filter lets its network through.
pub record Matches (ev : NetworkEvent) (tr : Trigger) : Type 0 where
  pub enabled : tr.enabled ≡ true
  pub events : List NetworkEventKind
  pub network_name : Option String
  pub is_network : tr.kind ≡ network events network_name
  pub listed : Memᴰ (kind ev) events
  pub name_fits : NameFits ev network_name

pub record Hits (ev : NetworkEvent) (tasks : List Task) (id : TaskId) : Type 0 where
  pub task : Task
  pub listed : Memᴰ task tasks
  pub named : task.id ≡ id
  pub trigger : Trigger
  pub of_task : Memᴰ trigger task.triggers
  pub matches : Matches ev trigger

named-NameFits : (ev : NetworkEvent) (o : Option String) → name_matches ev o ≡ true → NameFits ev o
unfolding name_matches
named-NameFits ev none h = tt
named-NameFits ev (some expected) h = go (ssid ev) refl h
  where
    go :
        (o : Option String)
        → ssid ev ≡ o
        → same_name o expected ≡ true
        → NameFits ev (some expected)
    go none e h = cc
    go (some name) e h = (name, e, h)

named-of_NameFits :
    (ev : NetworkEvent) (o : Option String) → NameFits ev o → name_matches ev o ≡ true
unfolding name_matches
named-of_NameFits ev none f = refl
named-of_NameFits ev (some expected) (name, e, h) = rw e h

kind-Matches :
    (ev : NetworkEvent) (tr : Trigger) (k : TriggerKind)
    → tr.kind ≡ k
    → tr.enabled ≡ true
    → kind_matches ev k ≡ true
    → Matches ev tr
unfolding kind_matches event_matches
kind-Matches ev tr (network events name) e on h =
    let (k, m, same) = any-Memᴰ (same_kind (kind ev)) events (ground arith) in
    record {
      enabled = on;
      events = events;
      network_name = name;
      is_network = e;
      listed = subst (λ k'. Memᴰ k' events) (sym (same_kind→eq (kind ev) k same)) m;
      name_fits = named-NameFits ev name (ground arith);
    }
kind-Matches ev tr _ e on h = cc

matched : (ev : NetworkEvent) (tr : Trigger) → Matches ev tr → trigger_matches ev tr ≡ true
unfolding trigger_matches kind_matches event_matches
matched ev tr v =
    let one : any (same_kind (kind ev)) v.events ≡ true =
      any-of_Memᴰ (same_kind (kind ev)) v.events (kind ev) v.listed (same_kind_refl (kind ev)) in
    let two : name_matches ev v.network_name ≡ true =
      named-of_NameFits ev v.network_name v.name_fits in
    simp (v.enabled, v.is_network, one, two) refl

trigger-Matches : (ev : NetworkEvent) (tr : Trigger) → trigger_matches ev tr ≡ true → Matches ev tr
unfolding trigger_matches
trigger-Matches ev tr h = kind-Matches ev tr tr.kind refl (ground arith) (ground arith)

if-Memᴰ {ℓ} :
    {A : Type ℓ} (b : Bool) (x a : A) (xs : List A)
    → Memᴰ a (if b then x ∷ xs else xs)
    → ((b ≡ true) × (a ≡ x)) ⊎ Memᴰ a xs
if-Memᴰ true x a xs (Memᴰ.head e) = inl (refl, e)
if-Memᴰ true x a xs (Memᴰ.tail m) = inr m
if-Memᴰ false x a xs m = inr m

if-Memᴰ_tail {ℓ} :
    {A : Type ℓ} (b : Bool) (x a : A) (xs : List A) → Memᴰ a xs → Memᴰ a (if b then x ∷ xs else xs)
if-Memᴰ_tail true x a xs m = Memᴰ.tail m
if-Memᴰ_tail false x a xs m = m

if-Memᴰ_head {ℓ} :
    {A : Type ℓ} (b : Bool) (x : A) (xs : List A) → b ≡ true → Memᴰ x (if b then x ∷ xs else xs)
if-Memᴰ_head true x xs e = Memᴰ.head refl
if-Memᴰ_head false x xs e = cc

hit_later :
    (ev : NetworkEvent) (t : Task) (tasks : List Task) (id : TaskId)
    → Hits ev tasks id
    → Hits ev (t ∷ tasks) id
hit_later ev t tasks id v = record {
  task = v.task;
  listed = Memᴰ.tail v.listed;
  named = v.named;
  trigger = v.trigger;
  of_task = v.of_task;
  matches = v.matches;
}

dispatch-Hits :
    (ev : NetworkEvent) (tasks : List Task) (id : TaskId)
    → Memᴰ id (dispatch_tasks ev tasks)
    → Hits ev tasks id
unfolding dispatch_tasks
dispatch-Hits ev [] id m = absurd (elim m [ ])
dispatch-Hits ev (task ∷ tasks) id m =
    elim (if-Memᴰ (any (trigger_matches ev) task.triggers) task.id id (dispatch_tasks ev tasks) m) [
      | inr later ↦ hit_later ev task tasks id (dispatch-Hits ev tasks id later)
      | inl (on, e) ↦
          let (tr, listed, h) = any-Memᴰ (trigger_matches ev) task.triggers on in
          record {
            task = task;
            listed = Memᴰ.head refl;
            named = sym e;
            trigger = tr;
            of_task = listed;
            matches = trigger-Matches ev tr h;
          }
    ]

listed-dispatch :
    (ev : NetworkEvent) (tasks : List Task) (task : Task) (tr : Trigger)
    → Memᴰ task tasks
    → Memᴰ tr task.triggers
    → Matches ev tr
    → Memᴰ task.id (dispatch_tasks ev tasks)
unfolding dispatch_tasks
listed-dispatch ev [] task tr m m' v = absurd (elim m [ ])
listed-dispatch ev (t ∷ tasks) task tr (Memᴰ.head e) m' v =
    let on : any (trigger_matches ev) task.triggers ≡ true =
      any-of_Memᴰ (trigger_matches ev) task.triggers tr m' (matched ev tr v) in
    subst
      (λ u. Memᴰ task.id (
        if any (trigger_matches ev) u.triggers
        then u.id ∷ dispatch_tasks ev tasks
        else dispatch_tasks ev tasks))
      e (if-Memᴰ_head (any (trigger_matches ev) task.triggers) task.id (dispatch_tasks ev tasks) on)
listed-dispatch ev (t ∷ tasks) task tr (Memᴰ.tail m) m' v =
    if-Memᴰ_tail (any (trigger_matches ev) t.triggers) t.id task.id (dispatch_tasks ev tasks)
      (listed-dispatch ev tasks task tr m m' v)

module _ {Json : Type 0} (c : Codec Json) where
  -- A row that is enabled is read as a task of this id with a trigger that matches.
  pub record Starts (ev : NetworkEvent) (db : Database Json) (id : TaskId) : Type 0 where
    pub row : TaskRow Json
    pub of_table : Memᴰ row db.tasks
    pub enabled : row.enabled ≡ true
    pub task : Task
    pub found : find_by_id c row.id db ≡ ok (some task)
    pub named : task.id ≡ id
    pub trigger : Trigger
    pub of_task : Memᴰ trigger task.triggers
    pub matches : Matches ev trigger

  Hits-Starts :
      (ev : NetworkEvent) (db : Database Json) (id : TaskId) (tasks : List Task)
      → find_all_enabled c db ≡ ok tasks
      → Hits ev tasks id
      → Starts ev db id
  Hits-Starts ev db id tasks e h =
      let read = (find_all_enabled-IsRead c db tasks h.task e).0 h.listed in
      let enabled : TaskRow Json → Bool = λ r. r.enabled in
      record {
        row = read.row;
        of_table = keep_if-Memᴰ enabled db.tasks read.row read.of_table;
        enabled =
            All-get (λ r. enabled r ≡ true) (keep_if enabled db.tasks) read.row
              (keep_if_passes enabled db.tasks) read.of_table;
        task = h.task;
        found = read.found;
        named = h.named;
        trigger = h.trigger;
        of_task = h.of_task;
        matches = h.matches;
      }

  Starts-Hits :
      (ev : NetworkEvent) (db : Database Json) (id : TaskId) (tasks : List Task)
      → find_all_enabled c db ≡ ok tasks
      → Starts ev db id
      → Hits ev tasks id
  Starts-Hits ev db id tasks e h = record {
    task = h.task;
    listed = (find_all_enabled-IsRead c db tasks h.task e).1 (record {
      row = h.row;
      of_table = Memᴰ-keep_if (λ r. r.enabled) db.tasks h.row h.of_table h.enabled;
      found = h.found;
    });
    named = h.named;
    trigger = h.trigger;
    of_task = h.of_task;
    matches = h.matches;
  }

  found-Hits :
      (ev : NetworkEvent) (tasks : List Task) (id : TaskId)
      → Memᴰ id (dispatch_tasks ev tasks) ↔ Hits ev tasks id
  found-Hits ev tasks id = (
    dispatch-Hits ev tasks id,
    λ v.
        subst (λ j. Memᴰ j (dispatch_tasks ev tasks)) v.named
          (listed-dispatch ev tasks v.task v.trigger v.listed v.of_task v.matches),
  )

  -- What is started, by what the query of the enabled tasks gives.
  abbrev pub Dispatched : NetworkEvent → Database Json → TaskId → Result Error (List Task) → Type 0
  Dispatched ev db id (ok _) =
      Memᴰ id (dispatch_network_event ev (task_repository c) db) ↔ Starts ev db id
  Dispatched ev db id (err _) = dispatch_network_event ev (task_repository c) db ≡ []

  -- If the enabled tasks can be read, a network event starts exactly the tasks, among those whose rows
  -- are enabled, that have an enabled network trigger which lists the event's kind and whose name, if
  -- it has one, is the network's. Where they cannot be read it starts none.
  pub dispatch_network_event-Hits :
      (ev : NetworkEvent) (db : Database Json) (id : TaskId)
      → Dispatched ev db id (find_all_enabled c db)
  unfolding dispatch_network_event
  dispatch_network_event-Hits ev db id = go (find_all_enabled c db) refl
    where
      go : (r : Result Error (List Task)) → find_all_enabled c db ≡ r → Dispatched ev db id r
      go (ok tasks) e = rw e (
        (λ m. Hits-Starts ev db id tasks e ((found-Hits ev tasks id).0 m)),
        (λ h. (found-Hits ev tasks id).1 (Starts-Hits ev db id tasks e h)),
      )
      go (err x) e = rw e refl
