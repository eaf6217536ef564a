-- ===== src/Executor/Runner/Output.antt =====
-- What is kept of the output of a process.
use easy_job.Prelude.{
  ℕ, zero, suc, ◌≡◌, ◌∙◌, ◌+◌, ◌-◌, ◌≤◌, leb, not, Bool, true, false, Bool-cases, inl, inr,
  if◌then◌else◌, refl, ap, sym, Option, none, some, List, [], ◌∷◌, ◌++◌, length, length-append,
  append_assoc, append_nil, arith,
}
use easy_job.Executor.Runner.{
  Bytes, max_output_bytes, truncation_suffix, take, absorb_chunk, absorb_within, read_chunks,
}

module _ {A : Type 0} where
  take-append :
      (n : ℕ) (xs ys : List A) → length xs ≤ n → take n (xs ++ ys) ≡ xs ++ take (n - length xs) ys
  take-append n [] ys h = ap (λ k. take k ys) (omega arith)
  take-append zero (x ∷ xs) ys h = absurd (omega (arith, h))
  take-append (suc n) (x ∷ xs) ys h =
      ap (λ l. x ∷ l)
        (take-append n xs ys (omega (arith, h)) ∙ ap (λ k. xs ++ take k ys) (omega arith))

  take-append_short : (n : ℕ) (xs ys : List A) → n ≤ length xs → take n (xs ++ ys) ≡ take n xs
  take-append_short zero [] ys h = take_zero ys
    where
      take_zero : (zs : List A) → take zero zs ≡ []
      take_zero [] = refl
      take_zero (z ∷ zs) = refl
  take-append_short zero (x ∷ xs) ys h = refl
  take-append_short (suc n) [] ys h = absurd (omega (arith, h))
  take-append_short (suc n) (x ∷ xs) ys h =
      ap (λ l. x ∷ l) (take-append_short n xs ys (omega (arith, h)))

-- The bytes up to the first error or the end of the file.
abbrev pub input : List (Option Bytes) → Bytes
input [] = []
input (none ∷ reads) = []
input (some [] ∷ reads) = []
input (some (b ∷ chunk) ∷ reads) = (b ∷ chunk) ++ input reads

module _ (limit : ℕ) (suffix : Bytes) where
  -- The bytes as they are, or those within the limit and the suffix.
  abbrev pub capped : Bytes → Bytes
  capped bytes = if leb (length bytes) limit then bytes else take limit bytes ++ suffix

  abbrev state_of : Bytes → Bytes × Bool
  state_of bytes = (capped bytes, not (leb (length bytes) limit))

  absorb_within-state_of :
      (chunk bytes : Bytes)
      → absorb_within limit suffix chunk (state_of bytes) ≡ state_of (bytes ++ chunk)
  absorb_within-state_of chunk bytes = elim (Bool-cases (leb (length bytes) limit)) [
    | inl t ↦ elim (Bool-cases (leb (length bytes + length chunk) limit)) [
      | inl room ↦ simp (t, length-append bytes chunk, room) refl
      | inr over ↦
          simp (t, length-append bytes chunk, over)
            (ap (λ l. (l, true))
              (sym (append_assoc bytes (take (limit - length bytes) chunk) suffix)
                ∙ ap (λ l. l ++ suffix) (sym (take-append limit bytes chunk (ground arith)))))
    ]
    | inr f ↦
        let over : leb (length bytes + length chunk) limit ≡ false = ground arith in
        simp (f, length-append bytes chunk, over)
          (ap (λ l. (l ++ suffix, true)) (sym (take-append_short limit bytes chunk (ground arith))))
  ]

read_chunks-state_of :
    (reads : List (Option Bytes)) (bytes : Bytes)
    → read_chunks reads (state_of max_output_bytes truncation_suffix bytes)
      ≡ state_of max_output_bytes truncation_suffix (bytes ++ input reads)
unfolding read_chunks absorb_chunk
read_chunks-state_of [] bytes = ap (state_of _ _) (sym (append_nil bytes))
read_chunks-state_of (none ∷ reads) bytes = ap (state_of _ _) (sym (append_nil bytes))
read_chunks-state_of (some [] ∷ reads) bytes = ap (state_of _ _) (sym (append_nil bytes))
read_chunks-state_of (some (b ∷ chunk) ∷ reads) bytes =
    ap (read_chunks reads)
      (absorb_within-state_of max_output_bytes truncation_suffix (b ∷ chunk) bytes)
    ∙ read_chunks-state_of reads (bytes ++ b ∷ chunk)
    ∙ ap (state_of _ _) (append_assoc bytes (b ∷ chunk) (input reads))

-- What is kept of an output is the whole of it, or where that is over the limit its beginning up to the
-- limit and the suffix, however the reads cut it into chunks.
pub read_chunks-capped :
    (reads : List (Option Bytes))
    → (read_chunks reads ([], false)).0 ≡ capped max_output_bytes truncation_suffix (input reads)
read_chunks-capped reads = ap (λ p. p.0) (read_chunks-state_of reads [])
