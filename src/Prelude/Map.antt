-- ===== src/Prelude/Map.antt =====
-- A `HashMap` keyed by an id, as an association list: iteration goes through the list, and what is
-- proved for every list holds for every iteration order.
use Prim.Native.Nat.{ℕ}
use mathlib.Core.Path.{◌≡◌, refl}
use mathlib.Core.List.{List, [], ◌∷◌}
use mathlib.Core.Option.{Option, none, some}
use native.Mathlib.Omega.{arith}
use easy_job.Prelude.Tests.{◌==◌, if◌then◌else◌, Bool-cases}
use mathlib.Core.Logic.{inl, inr}

abbrev pub Map {ℓ} : Type ℓ → Type ℓ
Map V = List (ℕ × V)

module _ {ℓ} {V : Type ℓ} where
  unfoldable pub get : ℕ → Map V → Option V
  get k [] = none
  get k ((j, v) ∷ m) = if j == k then some v else get k m

  unfoldable pub insert : ℕ → V → Map V → Map V
  insert k v [] = (k, v) ∷ []
  insert k v ((j, w) ∷ m) = if j == k then (k, v) ∷ m else (j, w) ∷ insert k v m

  unfoldable pub remove : ℕ → Map V → Map V
  remove k [] = []
  remove k ((j, w) ∷ m) = if j == k then remove k m else (j, w) ∷ remove k m

  abbrev pub values : Map V → List V
  values [] = []
  values ((_, v) ∷ m) = v ∷ values m

  pub get-insert :
      (k j : ℕ) (v : V) (m : Map V) → get j (insert k v m) ≡ (if k == j then some v else get j m)
  unfolding get insert
  get-insert k j v [] = refl
  get-insert k j v ((i, w) ∷ m) = ground (arith, get-insert k j v m)

  pub get-remove : (k j : ℕ) (m : Map V) → get j (remove k m) ≡ (if k == j then none else get j m)
  unfolding get remove
  get-remove k j [] = ground arith
  get-remove k j ((i, w) ∷ m) = ground (arith, get-remove k j m)

  -- Each key is bound once, as in a `HashMap`.
  abbrev pub NodupKeys : Map V → Type ℓ
  NodupKeys [] = Unit
  NodupKeys ((k, v) ∷ m) = (get k m ≡ none) × NodupKeys m

  pub insert-NodupKeys : (k : ℕ) (v : V) (m : Map V) → NodupKeys m → NodupKeys (insert k v m)
  unfolding get insert
  insert-NodupKeys k v [] h = (refl, tt)
  insert-NodupKeys k v ((j, w) ∷ m) h = elim (Bool-cases (j == k)) [
    | inl e ↦ rw e (let same : j ≡ k = ground arith in rw same at h)
    | inr e ↦ rw e (ground (arith, get-insert k j v m, h.0), insert-NodupKeys k v m h.1)
  ]

  pub remove-NodupKeys : (k : ℕ) (m : Map V) → NodupKeys m → NodupKeys (remove k m)
  unfolding get remove
  remove-NodupKeys k [] h = tt
  remove-NodupKeys k ((j, w) ∷ m) h = elim (Bool-cases (j == k)) [
    | inl e ↦ rw e (remove-NodupKeys k m h.1)
    | inr e ↦ rw e (ground (arith, get-remove k j m, h.0), remove-NodupKeys k m h.1)
  ]

  module _ {κ} (P : ℕ → V → Type κ) where
    -- `P` of every binding.
    abbrev pub Each : Map V → Type κ
    Each [] = Unit
    Each ((k, v) ∷ m) = P k v × Each m

    pub Each-get : (k : ℕ) (v : V) (m : Map V) → Each m → get k m ≡ some v → P k v
    unfolding get
    Each-get k v [] h e = cc
    Each-get k v ((j, w) ∷ m) h e = elim (Bool-cases (j == k)) [
      | inl t ↦ ground (arith, h.0)
      | inr t ↦ Each-get k v m h.1 (ground arith)
    ]

    pub Each-insert : (k : ℕ) (v : V) (m : Map V) → P k v → Each m → Each (insert k v m)
    unfolding insert
    Each-insert k v [] p h = (p, tt)
    Each-insert k v ((j, w) ∷ m) p h = elim (Bool-cases (j == k)) [
      | inl t ↦ rw t (p, h.1)
      | inr t ↦ rw t (h.0, Each-insert k v m p h.1)
    ]

    pub Each-remove : (k : ℕ) (m : Map V) → Each m → Each (remove k m)
    unfolding remove
    Each-remove k [] h = tt
    Each-remove k ((j, w) ∷ m) h = elim (Bool-cases (j == k)) [
      | inl t ↦ rw t (Each-remove k m h.1)
      | inr t ↦ rw t (h.0, Each-remove k m h.1)
    ]

    -- With keys that are distinct every binding is the one that `get` finds.
    pub Each-of_get :
        (m : Map V) → NodupKeys m → ((k : ℕ) (v : V) → get k m ≡ some v → P k v) → Each m
    unfolding get
    Each-of_get [] h f = tt
    Each-of_get ((j, w) ∷ m) h f = (
      f j w (ground arith),
      Each-of_get m h.1 λ k v e.
          f k v
            (elim (Bool-cases (j == k)) [ inl t ↦ absurd (ground (arith, h.0)) | inr t ↦ rw t e ]),
    )
