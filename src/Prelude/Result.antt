-- ===== src/Prelude/Result.antt =====
-- Code that may fail: `Result` with the `?` operator as the bind of a `do` block.
use mathlib.Core.Path.{◌≡◌, refl, subst}
use mathlib.Core.List.{List, [], ◌∷◌, map}

pub data Result {ℓ κ} (E : Type ℓ) (A : Type κ) : Type (ℓ ⊔ κ) where
  ok : A → Result E A
  err : E → Result E A

infixl 5 ◌>>=◌
abbrev pub ◌>>=◌ {ℓ κ μ} :
    {E : Type ℓ} {A : Type κ} {B : Type μ} → Result E A → (A → Result E B) → Result E B
err stop >>= next = err stop
ok x >>= next = next x

-- A loop that stops at the first error.
abbrev pub traverse {ℓ κ μ} :
    {E : Type ℓ} {A : Type κ} {B : Type μ} → (A → Result E B) → List A → Result E (List B)
traverse f [] = ok []
traverse f (x ∷ xs) = f x >>= λ y. traverse f xs >>= λ ys. ok (y ∷ ys)

-- A loop that undoes what was done to each member.
pub traverse-map {ℓ κ μ} :
    {E : Type ℓ} {A : Type κ} {B : Type μ} (f : A → Result E B) (g : B → A)
    → ((b : B) → f (g b) ≡ ok b)
    → (xs : List B) → traverse f (map g xs) ≡ ok xs
traverse-map f g e [] = refl
traverse-map f g e (x ∷ xs) = rw (e x) (rw (traverse-map f g e xs) refl)

-- A sequence that succeeds has a first part that succeeds.
pub >>=-eq-ok {ℓ κ μ} :
    {E : Type ℓ} {A : Type κ} {B : Type μ} {y : B} (next : A → Result E B) (r : Result E A)
    → (r >>= next) ≡ ok y
    → (x : A) × (next x ≡ ok y) × (r ≡ ok x)
>>=-eq-ok next (err stop) e = cc
>>=-eq-ok next (ok x) e = (x, e, refl)

pub ok_injective {ℓ κ} :
    {E : Type ℓ} {A : Type κ} (a b : A) → ◌≡◌ {A = Result E A} (ok a) (ok b) → a ≡ b
ok_injective a b h = cc

-- A property of the result of code that succeeds.
abbrev pub Holds {ℓ κ μ} : {E : Type ℓ} {A : Type κ} → (A → Type μ) → Result E A → Type μ
Holds P (ok a) = P a
Holds P (err e) = Unit

pub >>=-Holds {ℓ κ μ ν} :
    {E : Type ℓ} {A : Type κ} {B : Type μ} (P : B → Type ν) (m : Result E A) (f : A → Result E B)
    → ((a : A) → Holds P (f a))
    → Holds P (m >>= f)
>>=-Holds P (ok a) f k = k a
>>=-Holds P (err e) f k = tt

pub held {ℓ κ μ} :
    {E : Type ℓ} {A : Type κ} (P : A → Type μ) (m : Result E A) (a : A) → Holds P m → m ≡ ok a → P a
held P m a h e = subst (Holds P) e h
