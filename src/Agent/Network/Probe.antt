-- ===== src/Agent/Network/Probe.antt =====
-- apps/agent/src/network.rs: the probe that decides whether the machine is online. Addresses, answers
-- and time limits come from outside.
use Prim.Native.String.{String}
use easy_job.Prelude.{
  ℕ, zero, suc, ◌+◌, ◌/◌, Bool, true, false, ◌&&◌, ◌||◌, not, leb, ltb, ◌==◌, if◌then◌else◌, Option,
  none, some, List, [], ◌∷◌, ◌++◌, keep_if, any,
}
use easy_job.Scheduler.Evaluator.Cron.{codes, same_text, split_whitespace}

-- Four octets, or eight segments of 16 bits, of which the first and the last are told apart.
pub data IpAddr : Type 0 where
  v4 : ℕ → ℕ → ℕ → ℕ → IpAddr
  v6 : List ℕ → IpAddr

-- The tests of `Ipv4Addr`.
abbrev pub is_private : ℕ → ℕ → Bool
is_private a b = a == 10 || (a == 172 && leb 16 b && ltb b 32) || (a == 192 && b == 168)

abbrev pub is_documentation : ℕ → ℕ → ℕ → Bool
is_documentation a b c =
    (a == 192 && b == 0 && c == 2)
    || (a == 198 && b == 51 && c == 100)
    || (a == 203 && b == 0 && c == 113)

abbrev pub all_zero : List ℕ → Bool
all_zero [] = true
all_zero (s ∷ segments) = s == 0 && all_zero segments

-- `::1`
abbrev pub is_one : List ℕ → Bool
is_one [] = false
is_one (s ∷ []) = s == 1
is_one (s ∷ t ∷ segments) = s == 0 && is_one (t ∷ segments)

abbrev pub head_or_zero : List ℕ → ℕ
head_or_zero [] = 0
head_or_zero (s ∷ _) = s

-- A mask of the upper bits of a segment is a division.
unfoldable pub is_public_ip : IpAddr → Bool
is_public_ip (v4 a b c d) = not (
    (a == 0 && b == 0 && c == 0 && d == 0)
    || a == 127
    || is_private a b
    || (a == 169 && b == 254)
    || (a == 255 && b == 255 && c == 255 && d == 255)
    || is_documentation a b c
    || (a == 100 && leb 64 b && ltb b 128)
    || a == 0)
is_public_ip (v6 segments) = not (
    all_zero segments
    || is_one segments
    || head_or_zero segments / 0x100 == 0xff
    || head_or_zero segments / 0x40 == 0xfe80 / 0x40
    || head_or_zero segments / 0x200 == 0xfc00 / 0x200)

abbrev pub first_line : List ℕ → List ℕ
first_line [] = []
first_line (c ∷ text) = if c == 10 then [] else c ∷ first_line text

abbrev pub second_word : List (List ℕ) → Option (List ℕ)
second_word (_ ∷ word ∷ _) = some word
second_word _ = none

abbrev pub is_prefix : List ℕ → List ℕ → Bool
is_prefix [] text = true
is_prefix (c ∷ cs) [] = false
is_prefix (c ∷ cs) (d ∷ text) = c == d && is_prefix cs text

abbrev pub contains_text : List ℕ → List ℕ → Bool
contains_text m [] = is_prefix m []
contains_text m (c ∷ text) = is_prefix m (c ∷ text) || contains_text m text

abbrev pub status_matches : List ℕ → Option String → Option (List ℕ) → Bool
status_matches text marker none = false
status_matches text (some m) (some status) =
    same_text status (codes "200") && contains_text (codes m) text
status_matches text none (some status) = same_text status (codes "204")

-- The answer is the text of code points that the bytes decode to.
unfoldable pub response_matches : List ℕ → Option String → Bool
response_matches text marker =
    status_matches text marker (second_word (split_whitespace (first_line text)))

abbrev pub is_ipv6 : IpAddr → Bool
is_ipv6 (v4 _ _ _ _) = false
is_ipv6 (v6 _) = true

-- The public addresses, those of the old protocol first; the sort is stable.
unfoldable pub probe_addresses : List IpAddr → List IpAddr
probe_addresses addrs =
    let public = keep_if is_public_ip addrs in
    keep_if (λ ip. not (is_ipv6 ip)) public ++ keep_if is_ipv6 public

abbrev pub take {ℓ} : {A : Type ℓ} → ℕ → List A → List A
take zero xs = []
take (suc n) [] = []
take (suc n) (x ∷ xs) = x ∷ take n xs

-- What an address answers to the request; nothing, where it could not be sent in time.
abbrev pub answered : Option String → Option (List ℕ) → Bool
answered marker none = false
answered marker (some raw) = response_matches raw marker

-- `addrs` is what the name resolves to in time.
unfoldable pub http_probe : Option (List IpAddr) → (IpAddr → Option (List ℕ)) → Option String → Bool
http_probe none answer marker = false
http_probe (some addrs) answer marker =
    any (λ ip. answered marker (answer ip)) (take 2 (probe_addresses addrs))

abbrev pub online_probes : List (String × String × Option String)
online_probes =
    ("www.msftconnecttest.com", "/connecttest.txt", some "Microsoft Connect Test")
    ∷ ("connect.rom.miui.com", "/generate_204", none)
    ∷ ("cp.cloudflare.com", "/generate_204", none)
    ∷ []

unfoldable pub probe_online :
    (String → Option (List IpAddr)) → (String → String → IpAddr → Option (List ℕ)) → Bool
probe_online resolve answer =
    any (λ (host, path, marker). http_probe (resolve host) (answer host path) marker) online_probes

-- The loop of `confirm_online`: whether each attempt finds the machine online, with the milliseconds
-- that have passed since the start when it is over.
unfoldable pub confirm_online : List (Bool × ℕ) → Bool
confirm_online [] = false
confirm_online ((reached, elapsed) ∷ attempts) =
    let later = confirm_online attempts in
    if reached then true else if leb 7000 (elapsed + 500) then false else later
