-- ===== src/Prelude/Lists.antt =====
-- Lists measured by native numbers, filtered by Boolean tests, and predicates over their members.
use Prim.Native.Nat.{ℕ, suc, ◌+◌}
use mathlib.Core.Path.{◌≡◌, refl, ap, sym, subst, ◌∙◌}
use mathlib.Core.Bool.{Bool, true, false, ◌||◌}
use mathlib.Core.List.{List, [], ◌∷◌, ◌++◌, Memᴰ}
use mathlib.Core.List.Memᴰ
use mathlib.Core.Logic.{inl, inr}
use mathlib.Core.Option.{Option, none, some}
use native.Mathlib.Omega.{arith}
use easy_job.Prelude.Tests.{if◌then◌else◌, Bool-cases}

module _ {ℓ} {A : Type ℓ} where
  abbrev pub length : List A → ℕ
  length [] = 0
  length (x ∷ xs) = suc (length xs)

  pub length-append : (xs ys : List A) → length (xs ++ ys) ≡ length xs + length ys
  length-append [] ys = omega arith
  length-append (x ∷ xs) ys = omega (arith, length-append xs ys)

  abbrev pub any : (A → Bool) → List A → Bool
  any p [] = false
  any p (x ∷ xs) = p x || any p xs

  -- The first member that passes the test, as `Iterator::find`.
  abbrev pub find : (A → Bool) → List A → Option A
  find p [] = none
  find p (x ∷ xs) = if p x then some x else find p xs

  -- The members that pass the test, in order, as `Iterator::filter`.
  abbrev pub keep_if : (A → Bool) → List A → List A
  keep_if p [] = []
  keep_if p (x ∷ xs) = if p x then x ∷ keep_if p xs else keep_if p xs

module _ {ℓ κ} {A : Type ℓ} where
  abbrev pub All : (A → Type κ) → List A → Type κ
  All P [] = Unit
  All P (x ∷ xs) = P x × All P xs

  pub All-map : (P Q : A → Type κ) (xs : List A) → ((a : A) → P a → Q a) → All P xs → All Q xs
  All-map P Q [] f h = tt
  All-map P Q (x ∷ xs) f h = (f x h.0, All-map P Q xs f h.1)

  pub All-append : (P : A → Type κ) (xs ys : List A) → All P xs → All P ys → All P (xs ++ ys)
  All-append P [] ys hx hy = hy
  All-append P (x ∷ xs) ys hx hy = (hx.0, All-append P xs ys hx.1 hy)

  pub All-append_right : (P : A → Type κ) (xs ys : List A) → All P (xs ++ ys) → All P ys
  All-append_right P [] ys h = h
  All-append_right P (x ∷ xs) ys h = All-append_right P xs ys h.1

  pub All-keep_if : (P : A → Type κ) (p : A → Bool) (xs : List A) → All P xs → All P (keep_if p xs)
  All-keep_if P p [] h = tt
  All-keep_if P p (x ∷ xs) h = ground (arith, All-keep_if P p xs h.1)

  -- What holds of every member holds of the one that `find` returns.
  pub find-All :
      (P : A → Type κ) (p : A → Bool) (xs : List A) (a : A) → All P xs → find p xs ≡ some a → P a
  find-All P p [] a h e = cc
  find-All P p (x ∷ xs) a h e = ground (arith, find-All P p xs a h.1)

module _ {ℓ} {A : Type ℓ} where
  pub find_passes : (p : A → Bool) (xs : List A) (a : A) → find p xs ≡ some a → p a ≡ true
  find_passes p [] a e = cc
  find_passes p (x ∷ xs) a e = ground (arith, find_passes p xs a)

  pub keep_if_passes : (p : A → Bool) (xs : List A) → All (λ a. p a ≡ true) (keep_if p xs)
  keep_if_passes p [] = tt
  keep_if_passes p (x ∷ xs) = ground (arith, keep_if_passes p xs)

pub All-zip {ℓ κ μ} :
    {A : Type ℓ} (P : A → Type κ) (Q : A → Type μ) (xs : List A)
    → All P xs
    → All Q xs
    → All (λ a. P a × Q a) xs
All-zip P Q [] h k = tt
All-zip P Q (x ∷ xs) h k = ((h.0, k.0), All-zip P Q xs h.1 k.1)

pub find-Memᴰ {ℓ} :
    {A : Type ℓ} (p : A → Bool) (xs : List A) (a : A) → find p xs ≡ some a → Memᴰ a xs
find-Memᴰ p [] a e = cc
find-Memᴰ p (x ∷ xs) a e = elim (Bool-cases (p x)) [
  | inl t ↦ Memᴰ.head (let e' : (if p x then some x else find p xs) ≡ some a = e in ground arith)
  | inr f ↦ Memᴰ.tail (find-Memᴰ p xs a (ground arith))
]

module _ {ℓ} {A : Type ℓ} where
  pub keep_if-append :
      (p : A → Bool) (xs ys : List A) → keep_if p (xs ++ ys) ≡ keep_if p xs ++ keep_if p ys
  keep_if-append p [] ys = refl
  keep_if-append p (x ∷ xs) ys = elim (Bool-cases (p x)) [
    | inl t ↦ rw t (ap (λ zs. x ∷ zs) (keep_if-append p xs ys))
    | inr f ↦ rw f (keep_if-append p xs ys)
  ]

  pub keep_if_all : (p : A → Bool) (xs : List A) → All (λ a. p a ≡ true) xs → keep_if p xs ≡ xs
  keep_if_all p [] h = refl
  keep_if_all p (x ∷ xs) h = rw h.0 (ap (λ zs. x ∷ zs) (keep_if_all p xs h.1))

  pub keep_if_none : (p : A → Bool) (xs : List A) → All (λ a. p a ≡ false) xs → keep_if p xs ≡ []
  keep_if_none p [] h = refl
  keep_if_none p (x ∷ xs) h = rw h.0 (keep_if_none p xs h.1)

  -- The first test loses nothing to a second one that passes whatever the first passes.
  pub keep_if-keep_if :
      (p q : A → Bool) (xs : List A)
      → ((a : A) → p a ≡ true → q a ≡ true)
      → keep_if p (keep_if q xs) ≡ keep_if p xs
  keep_if-keep_if p q [] h = refl
  keep_if-keep_if p q (x ∷ xs) h = ground (arith, keep_if-keep_if p q xs h, h x)

  pub append_assoc : (xs ys zs : List A) → (xs ++ ys) ++ zs ≡ xs ++ (ys ++ zs)
  append_assoc [] ys zs = refl
  append_assoc (x ∷ xs) ys zs = ap (λ l. x ∷ l) (append_assoc xs ys zs)

  pub append_nil : (xs : List A) → xs ++ [] ≡ xs
  append_nil [] = refl
  append_nil (x ∷ xs) = ap (λ l. x ∷ l) (append_nil xs)

module _ {ℓ} {A : Type ℓ} where
  pub All-Memᴰ : (xs : List A) → All (λ a. Memᴰ a xs) xs
  All-Memᴰ [] = tt
  All-Memᴰ (x ∷ xs) = (
    Memᴰ.head refl,
    All-map (λ a. Memᴰ a xs) (λ a. Memᴰ a (x ∷ xs)) xs (λ a m. Memᴰ.tail m) (All-Memᴰ xs),
  )

  pub any_none : (p : A → Bool) (xs : List A) → All (λ a. p a ≡ false) xs → any p xs ≡ false
  any_none p [] h = refl
  any_none p (x ∷ xs) h = rw h.0 (any_none p xs h.1)

  -- What holds of the members that a test keeps and of all that it drops holds of all.
  pub All-of_keep_if {κ} :
      (P : A → Type κ) (p : A → Bool) (xs : List A)
      → ((a : A) → p a ≡ false → P a)
      → All P (keep_if p xs)
      → All P xs
  All-of_keep_if P p [] f h = tt
  All-of_keep_if P p (x ∷ xs) f h = elim (Bool-cases (p x)) [
    | inl t ↦
        let both : All P (x ∷ keep_if p xs) =
          subst (λ b. All P (if b then x ∷ keep_if p xs else keep_if p xs)) t h in
        (both.0, All-of_keep_if P p xs f both.1)
    | inr e ↦ (
      f x e,
      All-of_keep_if P p xs f
          (subst (λ b. All P (if b then x ∷ keep_if p xs else keep_if p xs)) e h),
    )
  ]

  pub All-get {κ} : (P : A → Type κ) (xs : List A) (a : A) → All P xs → Memᴰ a xs → P a
  All-get P [] a h m = absurd (Memᴰ.not-nil m)
  All-get P (x ∷ xs) a h m = elim (Memᴰ.cases_cons m) [
    | inl e ↦ subst P (sym e) h.0
    | inr k ↦ All-get P xs a h.1 k
  ]

  pub Memᴰ-keep_if :
      (p : A → Bool) (xs : List A) (a : A) → Memᴰ a xs → p a ≡ true → Memᴰ a (keep_if p xs)
  Memᴰ-keep_if p [] a m h = absurd (Memᴰ.not-nil m)
  Memᴰ-keep_if p (x ∷ xs) a m h = elim (Memᴰ.cases_cons m) [
    | inl e ↦ rw (ap p (sym e) ∙ h) (Memᴰ.head e)
    | inr k ↦ kept_later (p x) (Memᴰ-keep_if p xs a k h)
  ]
    where
      kept_later :
          (b : Bool) → Memᴰ a (keep_if p xs) → Memᴰ a (if b then x ∷ keep_if p xs else keep_if p xs)
      kept_later true k = Memᴰ.tail k
      kept_later false k = k

  pub Memᴰ-any : (p : A → Bool) (xs : List A) (a : A) → Memᴰ a xs → p a ≡ true → any p xs ≡ true
  Memᴰ-any p [] a m h = absurd (Memᴰ.not-nil m)
  Memᴰ-any p (x ∷ xs) a m h = elim (Memᴰ.cases_cons m) [
    | inl e ↦ rw (ap p (sym e) ∙ h) refl
    | inr k ↦ (let later = Memᴰ-any p xs a k h in ground arith)
  ]

  pub keep_if-Memᴰ : (p : A → Bool) (xs : List A) (a : A) → Memᴰ a (keep_if p xs) → Memᴰ a xs
  keep_if-Memᴰ p xs a m =
      All-get (λ b. Memᴰ b xs) (keep_if p xs) a (All-keep_if (λ b. Memᴰ b xs) p xs (All-Memᴰ xs)) m
