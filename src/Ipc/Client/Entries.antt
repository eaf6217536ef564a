-- ===== src/Ipc/Client/Entries.antt =====
-- What holds of the calls and of the entries that wait for them, through each change.
use easy_job.Prelude.{
  ℕ, ◌≡◌, ◌≢◌, ◌∙◌, ◌==◌, true, if◌then◌else◌, Bool-cases, inl, inr, refl, ap, sym, subst, Option,
  none, some, arith,
}
use easy_job.Prelude.Map
use easy_job.Prelude.Map.{Map, get-insert, get-remove}
use easy_job.Ipc.Client.{Call, Slot, Return, empty, delivered, answered, changed, change}
use easy_job.Ipc.Client.Changes.{get-removed, before_change, after_change}

module _ {Value : Type 0} where
  abbrev pub OwnSlot : ℕ → Slot Value → Type 0
  OwnSlot id (delivered resp) = resp.id ≡ id
  OwnSlot id _ = Unit

  abbrev pub OwnReturn : ℕ → Option (Return Value) → Type 0
  OwnReturn id (some (answered resp)) = resp.id ≡ id
  OwnReturn id _ = Unit

  -- What has reached a call bears the id of its request.
  abbrev pub Own : Call Value → Type 0
  Own c = OwnSlot c.id c.slot × OwnReturn c.id c.returned

  abbrev pub AllOwn : Map (Call Value) → Type 0
  AllOwn calls = (n : ℕ) (c : Call Value) → Map.get n calls ≡ some c → Own c

  -- Each pending entry is of a call of its id that has not returned.
  abbrev pub Awaited : Map ℕ → Map (Call Value) → Type 0
  Awaited pending calls =
      (id n : ℕ)
      → Map.get id pending ≡ some n
      → (c : Call Value) × (Map.get n calls ≡ some c)
        × (c.id ≡ id)
        × (c.returned ≡ none)
        × (c.slot ≡ empty)

  pub AllOwn-change :
      (f : Call Value → Call Value) (n : ℕ) (calls : Map (Call Value))
      → ((c : Call Value) → Map.get n calls ≡ some c → Own c → Own (f c))
      → AllOwn calls
      → AllOwn (change f n calls)
  AllOwn-change f n calls keeps own j c' h =
      let (c, there, how) = before_change f n j calls c' h in
      elim how [
        | inl changed ↦
            subst Own changed.1
              (keeps c (ap (λ k. Map.get k calls) changed.0 ∙ there) (own j c there))
        | inr same ↦ subst Own same (own j c there)
      ]

  -- A change that keeps ids, slots and returns keeps what is awaited.
  pub Awaited-change :
      (f : Call Value → Call Value) (n : ℕ) (pending : Map ℕ) (calls : Map (Call Value))
      → ((c : Call Value)
          → ((f c).id ≡ c.id) × ((f c).returned ≡ c.returned) × ((f c).slot ≡ c.slot))
      → Awaited pending calls
      → Awaited pending (change f n calls)
  Awaited-change f n pending calls keeps h id m e =
      let (c, there, ids, waits, open_slot) = h id m e in
      elim (Bool-cases (n == m)) [
        | inl t ↦ (
          f c,
          after_change f n m calls c there ∙ rw t refl,
          (keeps c).0 ∙ ids,
          (keeps c).1 ∙ waits,
          (keeps c).2 ∙ open_slot,
        )
        | inr u ↦ (c, after_change f n m calls c there ∙ rw u refl, ids, waits, open_slot)
      ]

  -- A call that is not awaited may change in any way.
  pub Awaited-apart :
      (f : Call Value → Call Value) (n : ℕ) (pending : Map ℕ) (calls : Map (Call Value))
      → ((id : ℕ) → Map.get id pending ≢ some n)
      → Awaited pending calls
      → Awaited pending (change f n calls)
  Awaited-apart f n pending calls apart h id m e =
      let (c, there, ids, waits, open_slot) = h id m e in
      elim (Bool-cases (n == m)) [
        | inl t ↦ let same : m ≡ n = ground arith in absurd (apart id (e ∙ ap (λ k. some k) same))
        | inr u ↦ (c, after_change f n m calls c there ∙ rw u refl, ids, waits, open_slot)
      ]

  pub Awaited-remove :
      (id : ℕ) (pending : Map ℕ) (calls : Map (Call Value))
      → Awaited pending calls
      → Awaited (Map.remove id pending) calls
  Awaited-remove id pending calls h j m e = h j m (get-removed id j m pending e).1

  -- A call has no entry but that of its id.
  pub no_other_entry :
      (n : ℕ) (c : Call Value) (pending : Map ℕ) (calls : Map (Call Value))
      → Awaited pending calls
      → Map.get n calls ≡ some c
      → (id : ℕ) → Map.get id (Map.remove c.id pending) ≢ some n
  no_other_entry n c pending calls h there id e =
      let (differs, before) = get-removed c.id id n pending e in
      let (c', there', ids, waits, open_slot) = h id n before in
      let same : c' ≡ c = (let both = sym there' ∙ there in cc) in
      differs (ap (λ d. d.id) (sym same) ∙ ids)

  pub AllOwn-insert :
      (n : ℕ) (c : Call Value) (calls : Map (Call Value))
      → Own c
      → AllOwn calls
      → AllOwn (Map.insert n c calls)
  AllOwn-insert n c calls own h j d e = elim (Bool-cases (n == j)) [
    | inl t ↦
        let same : c ≡ d =
          (let found =
              subst (λ b. (if b then some c else Map.get j calls) ≡ some d) t
                (sym (get-insert n j c calls) ∙ e) in
            cc) in
        subst Own same own
    | inr u ↦ h j d (
        subst (λ b. (if b then some c else Map.get j calls) ≡ some d) u
          (sym (get-insert n j c calls) ∙ e))
  ]

  -- A new call is awaited under its id.
  pub Awaited-insert :
      (n : ℕ) (c : Call Value) (pending : Map ℕ) (calls : Map (Call Value))
      → Map.get n calls ≡ none
      → c.returned ≡ none
      → c.slot ≡ empty
      → Awaited (Map.remove c.id pending) calls
      → Awaited (Map.insert c.id n pending) (Map.insert n c calls)
  Awaited-insert n c pending calls fresh waits open_slot h j m e = elim (Bool-cases (c.id == j)) [
    | inl t ↦
        let same : n ≡ m =
          (let found =
              subst (λ b. (if b then some n else Map.get j pending) ≡ some m) t
                (sym (get-insert c.id j n pending) ∙ e) in
            cc) in
        (
          c,
          get-insert n m c calls ∙ rw (let r : (n == m) ≡ true = ground arith in r) refl,
          ground arith,
          waits,
          open_slot,
        )
    | inr u ↦
        let before =
          subst (λ b. (if b then some n else Map.get j pending) ≡ some m) u
            (sym (get-insert c.id j n pending) ∙ e) in
        let (d, there, ids, waits', open_slot') = h j m (get-remove c.id j pending ∙ rw u before) in
        elim (Bool-cases (n == m)) [
          | inl t ↦
              let same : n ≡ m = ground arith in
              absurd (let absent = ap (λ k. Map.get k calls) (sym same) ∙ fresh in cc)
          | inr v ↦ (d, get-insert n m c calls ∙ rw v there, ids, waits', open_slot')
        ]
  ]
