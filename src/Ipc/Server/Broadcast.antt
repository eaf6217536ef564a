-- ===== src/Ipc/Server/Broadcast.antt =====
-- What a broadcast does to each client, and what ends the broadcasts.
use Prim.Native.String.{String}
use easy_job.Prelude.{
  ◌≡◌, ◌∙◌, ◌==◌, ==_refl, any, false, ltb, Bool-cases, inl, inr, if◌then◌else◌, refl, ap, sym,
  subst, Option, none, some, List, [], ◌∷◌, ◌++◌, length, arith,
}
use easy_job.Prelude.Map
use easy_job.Prelude.Map.{Map, NodupKeys, get-remove}
use easy_job.Ipc.Server.{
  IpcServerInner, Channel, ClientId, capacity, try_send, is_closed, offer_all, remove_all,
  broadcast,
}

-- The channel of a client after a broadcast: a closed one is gone, and a full one is as it was.
abbrev pub offered : String → Channel → Option Channel
offered json c =
    if c.is_open
    then (if ltb (length c.lines) capacity
        then some (record c { lines = c.lines ++ json ∷ [] })
        else some c)
    else none

abbrev pub offered_to : String → Option Channel → Option Channel
offered_to json none = none
offered_to json (some c) = offered json c

get-remove_all :
    (id : ClientId) (ids : List ClientId) (clients : Map Channel)
    → Map.get id (remove_all ids clients)
      ≡ (if any (λ j. j == id) ids then none else Map.get id clients)
unfolding remove_all
get-remove_all id [] clients = refl
get-remove_all id (j ∷ ids) clients =
    get-remove_all id ids (Map.remove j clients) ∙ ground (arith, get-remove j id clients)

offer_all-absent :
    (json : String) (id : ClientId) (clients : Map Channel)
    → Map.get id clients ≡ none
    → (Map.get id (offer_all json clients).0 ≡ none)
      × (any (λ j. j == id) (offer_all json clients).1 ≡ false)
unfolding offer_all Map.get
offer_all-absent json id [] h = (refl, refl)
offer_all-absent json id ((j, c) ∷ clients) h =
    let earlier = offer_all-absent json id clients in ground arith

abbrev pub left_over : ClientId → Map Channel × List ClientId → Option Channel
left_over id (clients, dead_clients) =
    if any (λ j. j == id) dead_clients then none else Map.get id clients

-- The client at the head.
offered_head :
    (json : String) (id : ClientId) (c : Channel) (clients : Map Channel)
    → Map.get id clients ≡ none
    → left_over id (offer_all json ((id, c) ∷ clients)) ≡ offered json c
unfolding offer_all try_send Map.get
offered_head json id c clients h =
    let (absent, alive) = offer_all-absent json id clients h in
    elim (Bool-cases c.is_open) [
      | inl live ↦ elim (Bool-cases (ltb (length c.lines) capacity)) [
        | inl room ↦ simp (live, room, alive, ==_refl)
        | inr none_left ↦ simp (live, none_left, alive, ==_refl)
      ]
      | inr shut ↦ simp (shut, ==_refl)
    ]

offered_tail :
    (json : String) (id j : ClientId) (c : Channel) (clients : Map Channel)
    → (j == id) ≡ false
    → left_over id (offer_all json ((j, c) ∷ clients)) ≡ left_over id (offer_all json clients)
unfolding offer_all Map.get
offered_tail json id j c clients n = elim (Bool-cases (is_closed (try_send json c).0)) [
  | inl t ↦ simp (t, n)
  | inr f ↦ simp (f, n)
]

offer_all-offered :
    (json : String) (id : ClientId) (clients : Map Channel)
    → NodupKeys clients
    → left_over id (offer_all json clients) ≡ offered_to json (Map.get id clients)
unfolding offer_all Map.get
offer_all-offered json id [] h = refl
offer_all-offered json id ((j, c) ∷ clients) h = elim (Bool-cases (j == id)) [
  | inl t ↦
      let same : j ≡ id = ground arith in
      subst
        (λ k.
          left_over id (offer_all json ((k, c) ∷ clients))
          ≡ offered_to json (Map.get id ((k, c) ∷ clients)))
        (sym same)
        (offered_head json id c clients (ap (λ k. Map.get k clients) (sym same) ∙ h.0)
          ∙ simp (==_refl id))
  | inr f ↦ offered_tail json id j c clients f ∙ offer_all-offered json id clients h.1 ∙ simp f
]

-- A broadcast adds the line to each open channel with room, leaves a full one, and removes the clients
-- whose channel is closed.
pub broadcast-offered :
    (json : String) (id : ClientId) (s : IpcServerInner)
    → NodupKeys s.clients
    → Map.get id (broadcast json s).clients ≡ offered_to json (Map.get id s.clients)
unfolding broadcast
broadcast-offered json id s h =
    get-remove_all id (offer_all json s.clients).1 (offer_all json s.clients).0
    ∙ offer_all-offered json id s.clients h
