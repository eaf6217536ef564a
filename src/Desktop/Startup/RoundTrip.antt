-- ===== src/Desktop/Startup/RoundTrip.antt =====
-- What `base64 -D` makes of the text that apps/desktop/src-tauri/src/startup.rs hands it: a decoder
-- after the alphabet of RFC 4648, section 4, and that it gives the script back.
use easy_job.Prelude.{
  ℕ, zero, suc, ◌+◌, ◌-◌, ◌*◌, ◌/◌, ◌%◌, ◌<◌, ◌≡◌, refl, sym, ◌∙◌, ap, Bool, true, false, ◌&&◌,
  Bool-cases, inl, inr, subst, not, ◌==◌, if◌then◌else◌, Option, none, some, List, [], ◌∷◌, ◌++◌,
  arith, All, ==_iff,
}
use easy_job.Scheduler.Evaluator.Cron.{in_range}
use easy_job.Desktop.Startup.{symbol, padding, group, base64_encode}

infixl 5 ◌>>=◌
abbrev ◌>>=◌ {ℓ κ} : {A : Type ℓ} {B : Type κ} → Option A → (A → Option B) → Option B
none >>= f = none
some a >>= f = f a

-- The six bits that a character of the alphabet stands for.
unfoldable pub value : ℕ → Option ℕ
value c =
    if in_range b'A' b'Z' c
    then some (c - 65)
    else if in_range b'a' b'z' c
    then some (c - 71)
    else if in_range b'0' b'9' c
    then some (c + 4)
    else if c == b'+'
    then some 62
    else if c == b'/'
    then some 63
    else none

abbrev one_byte : ℕ → ℕ → List ℕ
one_byte x y = (x * 64 + y) / 16 ∷ []

abbrev two_bytes : ℕ → ℕ → ℕ → List ℕ
two_bytes x y z = let w = (x * 64 + y) * 64 + z in w / 1024 ∷ w / 4 % 256 ∷ []

abbrev three_bytes : ℕ → ℕ → ℕ → ℕ → List ℕ
three_bytes x y z v =
    let w = ((x * 64 + y) * 64 + z) * 64 + v in w / 65536 ∷ w / 256 % 256 ∷ w % 256 ∷ []

-- What the last two characters add to the six bits of the first two: bits, or padding.
abbrev decode_last : ℕ → ℕ → ℕ → ℕ → Option (List ℕ)
decode_last x y c d =
    if d == padding
    then (if c == padding
        then some (one_byte x y)
        else (value c >>= λ (z : ℕ). some (two_bytes x y z)))
    else (value c >>= λ (z : ℕ). value d >>= λ (v : ℕ). some (three_bytes x y z v))

-- The bytes of four characters, of which the last or the last two can be padding.
unfoldable pub decode_quad : ℕ → ℕ → ℕ → ℕ → Option (List ℕ)
decode_quad a b c d = do x ← value a; y ← value b; decode_last x y c d

unfoldable pub decode : List ℕ → Option (List ℕ)
decode [] = some []
decode (a ∷ b ∷ c ∷ d ∷ text) = do
  bytes ← decode_quad a b c d
  rest ← decode text
  some (bytes ++ rest)
decode text = none

abbrev is_value : ℕ → Option ℕ → Bool
is_value i none = false
is_value i (some v) = v == i

abbrev reads_back : ℕ → Bool
reads_back i = is_value i (value (symbol i)) && not (symbol i == padding)

abbrev all_below : ℕ → (ℕ → Bool) → Bool
all_below zero p = true
all_below (suc n) p = p n && all_below n p

all_below_lem : (n : ℕ) (p : ℕ → Bool) (i : ℕ) → all_below n p ≡ true → i < n → p i ≡ true
all_below_lem zero p i h l = ground (arith)
all_below_lem (suc n) p i h l = elim (Bool-cases (i == n)) [
  | inl e ↦ subst (λ j. p j ≡ true) (sym ((==_iff i n).0 e)) (ground arith)
  | inr e ↦ all_below_lem n p i (ground arith) (ground arith)
]

table_reads_back : all_below 64 reads_back ≡ true
unfolding symbol value
table_reads_back = refl

reads_back_lem :
    (v : Option ℕ) (i : ℕ) (b : Bool) → is_value i v && not b ≡ true → (v ≡ some i) × (b ≡ false)
reads_back_lem none i b h = cc
reads_back_lem (some v) i b h = (ap (λ x. some x) ((==_iff v i).0 (ground arith)), ground arith)

symbol_lem : (i : ℕ) → i < 64 → (value (symbol i) ≡ some i) × ((symbol i == padding) ≡ false)
symbol_lem i l =
    reads_back_lem (value (symbol i)) i (symbol i == padding)
      (all_below_lem 64 reads_back i table_reads_back l)

below_64 : (k : ℕ) → k % 64 < 64
below_64 k = omega arith

module _ (x y z v : ℕ) (lx : x < 64) (ly : y < 64) (lz : z < 64) (lv : v < 64) where
  decode_quad-three :
      decode_quad (symbol x) (symbol y) (symbol z) (symbol v) ≡ some (three_bytes x y z v)
  unfolding decode_quad
  decode_quad-three = simp (
    (symbol_lem x lx).0,
    (symbol_lem y ly).0,
    (symbol_lem z lz).0,
    (symbol_lem v lv).0,
    (symbol_lem v lv).1,
  )

  decode_quad-two : decode_quad (symbol x) (symbol y) (symbol z) padding ≡ some (two_bytes x y z)
  unfolding decode_quad
  decode_quad-two =
      simp ((symbol_lem x lx).0, (symbol_lem y ly).0, (symbol_lem z lz).0, (symbol_lem z lz).1)

  decode_quad-one : decode_quad (symbol x) (symbol y) padding padding ≡ some (one_byte x y)
  unfolding decode_quad
  decode_quad-one = simp ((symbol_lem x lx).0, (symbol_lem y ly).0)

module _ (b0 b1 b2 : ℕ) (l0 : b0 < 256) (l1 : b1 < 256) (l2 : b2 < 256) where
  abbrev n : ℕ
  n = group b0 b1 b2

  rebuilt : ((n / 262144 % 64 * 64 + n / 4096 % 64) * 64 + n / 64 % 64) * 64 + n % 64 ≡ n
  rebuilt = omega arith

  parts : (n / 65536 ≡ b0) × (n / 256 % 256 ≡ b1) × (n % 256 ≡ b2)
  parts = (omega arith, omega arith, omega arith)

  three_bytes-group :
      three_bytes (n / 262144 % 64) (n / 4096 % 64) (n / 64 % 64) (n % 64) ≡ b0 ∷ b1 ∷ b2 ∷ []
  three_bytes-group = rw rebuilt (rw parts.0 (rw parts.1 (rw parts.2 refl)))

module _ (b0 b1 : ℕ) (l0 : b0 < 256) (l1 : b1 < 256) where
  abbrev m : ℕ
  m = group b0 b1 0

  two_parts :
      (let w = (m / 262144 % 64 * 64 + m / 4096 % 64) * 64 + m / 64 % 64 in
        (w / 1024 ≡ b0) × (w / 4 % 256 ≡ b1))
  two_parts = (omega arith, omega arith)

  two_bytes-group : two_bytes (m / 262144 % 64) (m / 4096 % 64) (m / 64 % 64) ≡ b0 ∷ b1 ∷ []
  two_bytes-group = rw two_parts.0 (rw two_parts.1 refl)

one_byte-group :
    (b0 : ℕ) → b0 < 256 → one_byte (group b0 0 0 / 262144 % 64) (group b0 0 0 / 4096 % 64) ≡ b0 ∷ []
one_byte-group b0 l0 = ap (λ b. b ∷ []) (omega (arith, l0))

decode-append :
    (a b c d : ℕ) (text xs ys : List ℕ)
    → decode_quad a b c d ≡ some xs
    → decode text ≡ some ys
    → decode (a ∷ b ∷ c ∷ d ∷ text) ≡ some (xs ++ ys)
unfolding decode
decode-append a b c d text xs ys e r = rw e (rw r refl)

-- Decoding the Base64 text of any bytes gives the bytes back.
pub decode-base64_encode :
    (bytes : List ℕ) → All (λ b. b < 256) bytes → decode (base64_encode bytes) ≡ some bytes
unfolding decode base64_encode
decode-base64_encode [] h = refl
decode-base64_encode (b0 ∷ []) h =
    let k = group b0 0 0 in
    decode-append _ _ _ _ [] (b0 ∷ []) []
      (decode_quad-one _ _ 0 0 (below_64 (k / 262144)) (below_64 (k / 4096)) (below_64 0)
          (below_64 0)
        ∙ ap (λ l. some l) (one_byte-group b0 h.0))
      refl
decode-base64_encode (b0 ∷ b1 ∷ []) h =
    let k = group b0 b1 0 in
    decode-append _ _ _ _ [] (b0 ∷ b1 ∷ []) []
      (decode_quad-two _ _ _ 0 (below_64 (k / 262144)) (below_64 (k / 4096)) (below_64 (k / 64))
          (below_64 0)
        ∙ ap (λ l. some l) (two_bytes-group b0 b1 h.0 h.1.0))
      refl
decode-base64_encode (b0 ∷ b1 ∷ b2 ∷ bytes) h =
    let k = group b0 b1 b2 in
    decode-append _ _ _ _ (base64_encode bytes) (b0 ∷ b1 ∷ b2 ∷ []) bytes
      (decode_quad-three _ _ _ _ (below_64 (k / 262144)) (below_64 (k / 4096)) (below_64 (k / 64))
          (below_64 k)
        ∙ ap (λ l. some l) (three_bytes-group b0 b1 b2 h.0 h.1.0 h.1.1.0))
      (decode-base64_encode bytes h.1.1.1)
