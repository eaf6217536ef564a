-- ===== src/Ipc/Client/Changes.antt =====
-- Finding a call after one has changed.
use easy_job.Prelude.{
  ℕ, ◌≡◌, ◌≢◌, ◌⊎◌, ◌∙◌, ◌==◌, if◌then◌else◌, Bool-cases, inl, inr, refl, ap, sym, subst, Option,
  none, some, arith,
}
use easy_job.Prelude.Map
use easy_job.Prelude.Map.{Map, get-insert, get-remove}
use easy_job.Ipc.Client.{Call, changed, change}

pub get-removed :
    (id j n : ℕ) (pending : Map ℕ)
    → Map.get j (Map.remove id pending) ≡ some n
    → (id ≢ j) × (Map.get j pending ≡ some n)
get-removed id j n pending h = elim (Bool-cases (id == j)) [
  | inl t ↦ absurd (
      let gone =
        subst (λ b. (if b then none else Map.get j pending) ≡ some n) t
          (sym (get-remove id j pending) ∙ h) in
      cc)
  | inr u ↦ (
    ground arith,
    subst (λ b. (if b then none else Map.get j pending) ≡ some n) u
        (sym (get-remove id j pending) ∙ h),
  )
]

module _ {Value : Type 0} where
  abbrev pub map_call : (Call Value → Call Value) → Option (Call Value) → Option (Call Value)
  map_call f none = none
  map_call f (some c) = some (f c)

  pub get-changed :
      (f : Call Value → Call Value) (o : Option (Call Value)) (n j : ℕ) (calls : Map (Call Value))
      → Map.get n calls ≡ o
      → Map.get j (changed f o n calls)
        ≡ (if n == j then map_call f (Map.get j calls) else Map.get j calls)
  get-changed f none n j calls e = elim (Bool-cases (n == j)) [
    | inl t ↦
        let same : n ≡ j = ground arith in
        let absent : Map.get j calls ≡ none = ap (λ k. Map.get k calls) (sym same) ∙ e in
        rw t (rw absent refl)
    | inr u ↦ rw u refl
  ]
  get-changed f (some c) n j calls e = get-insert n j (f c) calls ∙ both
    where
      both :
          (if n == j then some (f c) else Map.get j calls)
          ≡ (if n == j then map_call f (Map.get j calls) else Map.get j calls)
      both = elim (Bool-cases (n == j)) [
        | inl t ↦
            let same : n ≡ j = ground arith in
            let there : Map.get j calls ≡ some c = ap (λ k. Map.get k calls) (sym same) ∙ e in
            rw t (rw there refl)
        | inr u ↦ rw u refl
      ]

  pub get-change :
      (f : Call Value → Call Value) (n j : ℕ) (calls : Map (Call Value))
      → Map.get j (change f n calls)
        ≡ (if n == j then map_call f (Map.get j calls) else Map.get j calls)
  get-change f n j calls = get-changed f (Map.get n calls) n j calls refl

  pub mapped :
      (f : Call Value → Call Value) (o : Option (Call Value)) (c' : Call Value)
      → map_call f o ≡ some c'
      → (c : Call Value) × (o ≡ some c) × (f c ≡ c')
  mapped f none c' e = cc
  mapped f (some c) c' e = (c, refl, cc)

  -- A call after a change was there before it: the one that was changed, or as it is.
  pub before_change :
      (f : Call Value → Call Value) (n j : ℕ) (calls : Map (Call Value)) (c' : Call Value)
      → Map.get j (change f n calls) ≡ some c'
      → (c : Call Value) × (Map.get j calls ≡ some c) × (((n ≡ j) × (f c ≡ c')) ⊎ (c ≡ c'))
  before_change f n j calls c' h = elim (Bool-cases (n == j)) [
    | inl t ↦
        let (c, there, is) = mapped f (Map.get j calls) c' (
          subst (λ b. (if b then map_call f (Map.get j calls) else Map.get j calls) ≡ some c') t
            (sym (get-change f n j calls) ∙ h)) in
        (c, there, inl (ground arith, is))
    | inr u ↦ (
      c',
      subst (λ b. (if b then map_call f (Map.get j calls) else Map.get j calls) ≡ some c') u
          (sym (get-change f n j calls) ∙ h),
      inr refl,
    )
  ]

  pub after_change :
      (f : Call Value → Call Value) (n j : ℕ) (calls : Map (Call Value)) (c : Call Value)
      → Map.get j calls ≡ some c
      → Map.get j (change f n calls) ≡ (if n == j then some (f c) else some c)
  after_change f n j calls c h = get-change f n j calls ∙ rw h refl
