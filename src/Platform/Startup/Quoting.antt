-- ===== src/Platform/Startup/Quoting.antt =====
-- How the shells read the words that crates/platform/src/startup.rs quotes: a POSIX shell a word of
-- quoted and plain parts, PowerShell a text in single quotes.
use easy_job.Prelude.{
  ℕ, ◌≡◌, refl, sym, ◌∙◌, ap, Bool, true, false, ◌||◌, ◌==◌, if◌then◌else◌, Option, none, some, [],
  ◌∷◌, ◌++◌, All, any, append_assoc, append_nil, Bool-cases, inl, inr, ==_iff,
}
use easy_job.Scheduler.Evaluator.Cron.{codes, in_range}
use easy_job.Platform.Startup.{
  Text, quote, double_quote, replace, quoted_quote, sh_single_quote, quote_ps_arg,
}

-- Where a POSIX shell stands in a word: outside of quotes, or in one of the two kinds.
pub data Within : Type 0 where
  plain : Within
  single : Within
  double : Within

abbrev before : ℕ → Option (Text × Text) → Option (Text × Text)
before c none = none
before c (some (word, rest)) = some (c ∷ word, rest)

abbrev pub is_blank : ℕ → Bool
is_blank c = c == b' ' || c == b'\t' || c == b'\n'

-- A backslash, a dollar and a back quote, which also double quotes do not protect.
abbrev expands : ℕ → Bool
expands c = c == 92 || c == 36 || c == 96

-- What has a meaning of its own outside of quotes.
abbrev is_special : ℕ → Bool
is_special c = expands c || any (λ d. c == d) (codes "&;|<>()*?[#~=%!{}")

-- The word at the start of a text and what follows it; none where a quote is not closed, or at a
-- character with a meaning that this reader does not follow.
unfoldable pub sh_word : Within → Text → Option (Text × Text)
sh_word plain [] = some ([], [])
sh_word plain (c ∷ s) =
    if is_blank c
    then some ([], c ∷ s)
    else if c == quote
    then sh_word single s
    else if c == double_quote
    then sh_word double s
    else if is_special c
    then none
    else before c (sh_word plain s)
sh_word single [] = none
sh_word single (c ∷ s) = if c == quote then sh_word plain s else before c (sh_word single s)
sh_word double [] = none
sh_word double (c ∷ s) =
    if c == double_quote
    then sh_word plain s
    else if expands c
    then none
    else before c (sh_word double s)

-- PowerShell takes the typographic single quotes U+2018 to U+201B for single quotes.
abbrev pub is_typographic : ℕ → Bool
is_typographic = in_range 0x2018 0x201b

abbrev is_ps_quote : ℕ → Bool
is_ps_quote c = c == quote || is_typographic c

-- The rest of a text in single quotes as PowerShell reads it, and what follows: two quotes stand for
-- the first of them.
unfoldable pub ps_string : Text → Option (Text × Text)
ps_string [] = none
ps_string (c ∷ []) = if is_ps_quote c then some ([], []) else none
ps_string (c ∷ d ∷ s) =
    let doubled = ps_string s in
    let next = ps_string (d ∷ s) in
    if is_ps_quote c
    then (if is_ps_quote d then before c doubled else some ([], d ∷ s))
    else before c next

-- PowerShell's argument that starts with a single quote.
unfoldable pub ps_arg : Text → Option (Text × Text)
ps_arg [] = none
ps_arg (c ∷ s) = let rest = ps_string s in if is_ps_quote c then rest else none

abbrev prefix_word : Text → Option (Text × Text) → Option (Text × Text)
prefix_word [] r = r
prefix_word (c ∷ word) r = before c (prefix_word word r)

prefix_word_lem : (s word rest : Text) → prefix_word s (some (word, rest)) ≡ some (s ++ word, rest)
prefix_word_lem [] word rest = refl
prefix_word_lem (c ∷ s) word rest = ap (before c) (prefix_word_lem s word rest)

sh_word-quoted_quote :
    (text : Text) → sh_word single (quoted_quote ++ text) ≡ before quote (sh_word single text)
unfolding sh_word
sh_word-quoted_quote text = refl

sh_word-replace :
    (s rest : Text)
    → sh_word single (replace quote quoted_quote s ++ quote ∷ rest)
      ≡ prefix_word s (sh_word plain rest)
unfolding sh_word
sh_word-replace [] rest = refl
sh_word-replace (c ∷ s) rest = elim (Bool-cases (c == quote)) [
  | inl e ↦
      let word = prefix_word s (sh_word plain rest) in
      rw e (
        ap (before quote) (sh_word-replace s rest)
        ∙ ap (λ q. before q word) (sym ((==_iff c quote).0 e)))
  | inr e ↦ rw e (rw e (ap (before c) (sh_word-replace s rest)))
]

ps_string-other :
    (c : ℕ) (text : Text) → is_ps_quote c ≡ false → ps_string (c ∷ text) ≡ before c (ps_string text)
unfolding ps_string
ps_string-other c [] e = rw e refl
ps_string-other c (d ∷ text) e = rw e refl

abbrev pub starts_with_quote : Text → Bool
starts_with_quote [] = false
starts_with_quote (c ∷ s) = is_ps_quote c

ps_string-end :
    (rest : Text) → starts_with_quote rest ≡ false → ps_string (quote ∷ rest) ≡ some ([], rest)
unfolding ps_string
ps_string-end [] h = refl
ps_string-end (c ∷ rest) h = rw h refl

ps_string-replace :
    (s rest : Text)
    → All (λ c. is_typographic c ≡ false) s
    → starts_with_quote rest ≡ false
    → ps_string (replace quote (quote ∷ quote ∷ []) s ++ quote ∷ rest)
      ≡ prefix_word s (some ([], rest))
unfolding ps_string
ps_string-replace [] rest k h = ps_string-end rest h
ps_string-replace (c ∷ s) rest k h = elim (Bool-cases (c == quote)) [
  | inl e ↦
      let word = prefix_word s (some ([], rest)) in
      rw e (
        ap (before quote) (ps_string-replace s rest k.1 h)
        ∙ ap (λ q. before q word) (sym ((==_iff c quote).0 e)))
  | inr e ↦ rw e (ps_string-other c _ (rw e k.0) ∙ ap (before c) (ps_string-replace s rest k.1 h))
]

sh_word-end :
    (c : ℕ) (rest : Text) → is_blank c ≡ true → sh_word plain (c ∷ rest) ≡ some ([], c ∷ rest)
unfolding sh_word
sh_word-end c rest h = rw h refl

-- Whatever a text holds, a POSIX shell reads its quoted form before a blank as the one word that the
-- text is, and goes on at the blank.
pub sh_word-sh_single_quote :
    (s : Text) (c : ℕ) (rest : Text)
    → is_blank c ≡ true
    → sh_word plain (sh_single_quote s ++ c ∷ rest) ≡ some (s, c ∷ rest)
unfolding sh_word sh_single_quote
sh_word-sh_single_quote s c rest h =
    ap (sh_word single) (append_assoc (replace quote quoted_quote s) (quote ∷ []) (c ∷ rest))
    ∙ sh_word-replace s (c ∷ rest)
    ∙ ap (prefix_word s) (sh_word-end c rest h)
    ∙ prefix_word_lem s [] (c ∷ rest)
    ∙ ap (λ w. some (w, c ∷ rest)) (append_nil s)

-- PowerShell reads the quoted form of a text without typographic single quotes as that text, if no
-- single quote of any kind follows it.
pub ps_arg-quote_ps_arg :
    (s rest : Text)
    → All (λ c. is_typographic c ≡ false) s
    → starts_with_quote rest ≡ false
    → ps_arg (quote_ps_arg s ++ rest) ≡ some (s, rest)
unfolding ps_arg quote_ps_arg
ps_arg-quote_ps_arg s rest k h =
    ap ps_string (append_assoc (replace quote (quote ∷ quote ∷ []) s) (quote ∷ []) rest)
    ∙ ps_string-replace s rest k h
    ∙ prefix_word_lem s [] rest
    ∙ ap (λ w. some (w, rest)) (append_nil s)
