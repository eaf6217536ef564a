-- ===== src/Scheduler/Evaluator/Cron.antt =====
-- The lexical whitelist of crates/scheduler/src/evaluator.rs for cron expressions. A text is the list
-- of its code points. `field.get(i..i + 3)` and the test that follows it accept exactly three ASCII
-- letters: where one of the next three characters is missing or not ASCII, `get` returns nothing or
-- a slice with a byte that is no letter.
use Prim.Native.Char.{code}
use Prim.Native.String.{String}
use easy_job.Prelude.{
  ℕ, ◌+◌, ◌-◌, Bool, true, false, ◌&&◌, ◌||◌, leb, ◌==◌, if◌then◌else◌, List, [], ◌∷◌, any, length,
}

abbrev pub codes : String → List ℕ
codes String.[] = []
codes (String.◌∷◌ c s) = code c ∷ codes s

abbrev pub in_range : ℕ → ℕ → ℕ → Bool
in_range lo hi c = leb lo c && leb c hi

-- `char::is_whitespace`
abbrev pub is_whitespace : ℕ → Bool
is_whitespace c =
    in_range 9 13 c
    || c == 32
    || c == 0x85
    || c == 0xa0
    || c == 0x1680
    || in_range 0x2000 0x200a c
    || c == 0x2028
    || c == 0x2029
    || c == 0x202f
    || c == 0x205f
    || c == 0x3000

abbrev pub push_field : List ℕ → List (List ℕ) → List (List ℕ)
push_field [] fields = fields
push_field (c ∷ word) fields = (c ∷ word) ∷ fields

-- The word that a text begins with, and the words behind it: `split_whitespace`.
unfoldable pub split_words : List ℕ → List ℕ × List (List ℕ)
split_words [] = ([], [])
split_words (c ∷ cs) =
    let (word, fields) = split_words cs in
    if is_whitespace c then ([], push_field word fields) else (c ∷ word, fields)

unfoldable pub split_whitespace : List ℕ → List (List ℕ)
split_whitespace text = let (word, fields) = split_words text in push_field word fields

abbrev pub is_digit : ℕ → Bool
is_digit = in_range b'0' b'9'

abbrev pub is_operator : ℕ → Bool
is_operator c = c == b'*' || c == b'?' || c == b',' || c == b'-' || c == b'/'

abbrev pub is_alphabetic : ℕ → Bool
is_alphabetic c = in_range b'a' b'z' c || in_range b'A' b'Z' c

abbrev pub to_upper : ℕ → ℕ
to_upper c = if in_range b'a' b'z' c then c - 32 else c

abbrev pub same_text : List ℕ → List ℕ → Bool
same_text [] [] = true
same_text [] (_ ∷ _) = false
same_text (_ ∷ _) [] = false
same_text (a ∷ as') (b ∷ bs) = a == b && same_text as' bs

abbrev pub cron_month_names : List String
cron_month_names =
    "JAN" ∷ "FEB" ∷ "MAR" ∷ "APR" ∷ "MAY" ∷ "JUN" ∷ "JUL" ∷ "AUG" ∷ "SEP" ∷ "OCT" ∷ "NOV" ∷ "DEC"
    ∷ []

abbrev pub cron_weekday_names : List String
cron_weekday_names = "SUN" ∷ "MON" ∷ "TUE" ∷ "WED" ∷ "THU" ∷ "FRI" ∷ "SAT" ∷ []

abbrev pub contains_name : List String → List ℕ → Bool
contains_name names name = any (λ (s : String). same_text (codes s) name) names

unfoldable pub is_known_name : Bool → Bool → ℕ → ℕ → ℕ → Bool
is_known_name is_month is_weekday a b c =
    let upper = to_upper a ∷ to_upper b ∷ to_upper c ∷ [] in
    is_month && contains_name cron_month_names upper
    || is_weekday && contains_name cron_weekday_names upper

abbrev pub all_alphabetic : ℕ → ℕ → ℕ → Bool
all_alphabetic a b c = is_alphabetic a && is_alphabetic b && is_alphabetic c

-- The `while` loop, on the text that is left from `i` on.
unfoldable pub is_standard_cron_field : Bool → Bool → List ℕ → Bool
is_standard_cron_field m w [] = true
is_standard_cron_field m w (a ∷ []) = is_digit a || is_operator a
is_standard_cron_field m w (a ∷ b ∷ []) =
    (is_digit a || is_operator a) && is_standard_cron_field m w (b ∷ [])
is_standard_cron_field m w (a ∷ b ∷ c ∷ rest) =
    let one = is_standard_cron_field m w (b ∷ c ∷ rest) in
    let three = is_standard_cron_field m w rest in
    if is_digit a || is_operator a
    then one
    else all_alphabetic a b c && is_known_name m w a b c && three

-- The loop over the fields, whose index says which is the month's and which the weekday's.
unfoldable pub are_standard_fields : ℕ → List (List ℕ) → Bool
are_standard_fields idx [] = true
are_standard_fields idx (field ∷ fields) =
    is_standard_cron_field (idx == 3) (idx == 4) field && are_standard_fields (idx + 1) fields

unfoldable pub is_standard_fields : List (List ℕ) → Bool
is_standard_fields fields = length fields == 5 && are_standard_fields 0 fields

-- The checks of `parse_standard_cron` before croner sees the expression.
unfoldable pub is_standard_cron : String → Bool
is_standard_cron expression = is_standard_fields (split_whitespace (codes expression))
