-- ===== src/Desktop/Startup.antt =====
-- `base64_encode` of apps/desktop/src-tauri/src/startup.rs, which puts a script of several lines on
-- the one line of an AppleScript command. Bytes are numbers below 256 and the text is the list of
-- its code points. The three bytes of `n` do not overlap, so its `|` is a sum; a shift to the right
-- is a division and `& 63` a remainder.
use easy_job.Prelude.{ℕ, zero, suc, ◌+◌, ◌*◌, ◌/◌, ◌%◌, List, [], ◌∷◌}
use easy_job.Scheduler.Evaluator.Cron.{codes}
mod RoundTrip
mod Examples

-- `TABLE`
abbrev pub table : List ℕ
table = codes "ABCDEFGHIJKLMNOPQRSTUVWXYZabcdefghijklmnopqrstuvwxyz0123456789+/"

abbrev at : List ℕ → ℕ → ℕ
at [] i = 0
at (c ∷ cs) zero = c
at (c ∷ cs) (suc i) = at cs i

-- `TABLE[i]`, for an `i` that `& 63` keeps within the table.
unfoldable pub symbol : ℕ → ℕ
symbol i = at table i

abbrev pub padding : ℕ
padding = b'='

abbrev pub group : ℕ → ℕ → ℕ → ℕ
group b0 b1 b2 = b0 * 65536 + b1 * 256 + b2

-- The four characters of a chunk: those of the bits of `n` from the left, or padding.
abbrev pub encode_chunk : ℕ → List ℕ → List ℕ
encode_chunk n last = symbol (n / 262144 % 64) ∷ symbol (n / 4096 % 64) ∷ last

unfoldable pub base64_encode : List ℕ → List ℕ
base64_encode [] = []
base64_encode (b0 ∷ []) = encode_chunk (group b0 0 0) (padding ∷ padding ∷ [])
base64_encode (b0 ∷ b1 ∷ []) =
    let n = group b0 b1 0 in encode_chunk n (symbol (n / 64 % 64) ∷ padding ∷ [])
base64_encode (b0 ∷ b1 ∷ b2 ∷ bytes) =
    let n = group b0 b1 b2 in
    encode_chunk n (symbol (n / 64 % 64) ∷ symbol (n % 64) ∷ base64_encode bytes)
