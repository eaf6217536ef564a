-- ===== src/Prelude/Outcome.antt =====
-- Code that may panic: a panic ends the task that runs it.
use mathlib.Core.Path.{◌≡◌, refl, subst}
use mathlib.Core.Option.{Option, none, some}
use mathlib.Core.Bool.{Bool, true, false}
use easy_job.Prelude.Tests.{if◌then◌else◌}

pub data Outcome {ℓ} (A : Type ℓ) : Type ℓ where
  returns : A → Outcome A
  panics : Outcome A

infixl 5 ◌>>=◌
abbrev pub ◌>>=◌ {ℓ κ} : {A : Type ℓ} {B : Type κ} → Outcome A → (A → Outcome B) → Outcome B
returns a >>= f = f a
panics >>= f = panics

pub >>=-eq-returns {ℓ κ} :
    {A : Type ℓ} {B : Type κ} (m : Outcome A) (f : A → Outcome B) {b : B}
    → (m >>= f) ≡ returns b
    → (a : A) × (m ≡ returns a) × (f a ≡ returns b)
>>=-eq-returns (returns a) f h = (a, refl, h)
>>=-eq-returns panics f h = cc

-- Code that returns with a result satisfies `P` of it; a panic and an absent result claim nothing.
abbrev pub Yields {ℓ κ} : {A : Type ℓ} → (A → Type κ) → Outcome (Option A) → Type κ
Yields P (returns (some a)) = P a
Yields P (returns none) = Unit
Yields P panics = Unit

pub >>=-Yields {ℓ κ μ} :
    {A : Type ℓ} {B : Type κ} (P : B → Type μ) (m : Outcome A) (f : A → Outcome (Option B))
    → ((a : A) → Yields P (f a))
    → Yields P (m >>= f)
>>=-Yields P (returns a) f h = h a
>>=-Yields P panics f h = tt

pub returned {ℓ κ} :
    {A : Type ℓ} (P : A → Type κ) (e : Outcome (Option A)) (a : A)
    → Yields P e
    → e ≡ returns (some a)
    → P a
returned P e a h p = subst (Yields P) p h

-- Code satisfies `P` of what it returns; a panic claims nothing.
abbrev pub Ensures {ℓ κ} : {A : Type ℓ} → (A → Type κ) → Outcome A → Type κ
Ensures P (returns a) = P a
Ensures P panics = Unit

pub >>=-Ensures {ℓ κ μ ν} :
    {A : Type ℓ} {B : Type κ} (P : A → Type μ) (Q : B → Type ν) (m : Outcome A) (f : A → Outcome B)
    → Ensures P m
    → ((a : A) → P a → Ensures Q (f a))
    → Ensures Q (m >>= f)
>>=-Ensures P Q (returns a) f h k = k a h
>>=-Ensures P Q panics f h k = tt

-- The same, where nothing is known of the first part.
pub >>=-Ensures_any {ℓ κ ν} :
    {A : Type ℓ} {B : Type κ} (Q : B → Type ν) (m : Outcome A) (f : A → Outcome B)
    → ((a : A) → Ensures Q (f a))
    → Ensures Q (m >>= f)
>>=-Ensures_any Q (returns a) f k = k a
>>=-Ensures_any Q panics f k = tt

pub ensured {ℓ κ} :
    {A : Type ℓ} (P : A → Type κ) (m : Outcome A) (a : A) → Ensures P m → m ≡ returns a → P a
ensured P m a h e = subst (Ensures P) e h

pub if-Ensures {ℓ κ} :
    {A : Type ℓ} (P : A → Type κ) (b : Bool) (m k : Outcome A)
    → (b ≡ true → Ensures P m)
    → (b ≡ false → Ensures P k)
    → Ensures P (if b then m else k)
if-Ensures P true m k f g = f refl
if-Ensures P false m k f g = g refl

pub Ensures-map {ℓ κ μ} :
    {A : Type ℓ} (P : A → Type κ) (Q : A → Type μ) (m : Outcome A)
    → Ensures P m
    → ((a : A) → P a → Q a)
    → Ensures Q m
Ensures-map P Q (returns a) h f = f a h
Ensures-map P Q panics h f = tt
