-- ===== src/Oidc/Query.antt =====
-- url.QueryEscape of Go's net/url, by which app/iam/service/internal/oidc/login.go puts the id of a
-- request into a URL.
use servora_iam.Prelude.{
  ℕ, ◌+◌, ◌-◌, ◌*◌, ◌/◌, ◌%◌, ◌<◌, ◌≡◌, refl, Bool, true, ◌&&◌, ◌||◌, Option, none, some, [], ◌∷◌,
  Str, All, leb, ltb, nat_eq, if◌then◌else◌, arith,
}

-- Letters, digits and - _ . ~ stay.
unfoldable pub is_unreserved : ℕ → Bool
is_unreserved c =
    leb 97 c && leb c 122
    || leb 65 c && leb c 90
    || leb 48 c && leb c 57
    || nat_eq c b'-'
    || nat_eq c b'_'
    || nat_eq c b'.'
    || nat_eq c b'~'

unfoldable pub upper_hex : ℕ → ℕ
upper_hex n = if ltb n 10 then n + 48 else n + 55

unfoldable pub escape_byte : ℕ → Str → Str
escape_byte c rest =
    if is_unreserved c
    then c ∷ rest
    else if nat_eq c 32
    then b'+' ∷ rest
    else b'%' ∷ upper_hex (c / 16) ∷ upper_hex (c % 16) ∷ rest

unfoldable pub query_escape : Str → Str
query_escape [] = []
query_escape (c ∷ s) = escape_byte c (query_escape s)

-- How the value of a parameter is read: application/x-www-form-urlencoded.
unfoldable pub hex_value : ℕ → ℕ
hex_value c = if leb 65 c then c - 55 else c - 48

pub data Mode : Type 0 where
  plain high : Mode
  low : ℕ → Mode

abbrev push : ℕ → Option Str → Option Str
push c none = none
push c (some s) = some (c ∷ s)

unfoldable pub unescape : Mode → Str → Option Str
unescape plain [] = some []
unescape high [] = none
unescape (low v) [] = none
unescape plain (c ∷ s) =
    let escaped = unescape high s in
    let more = push (if nat_eq c b'+' then 32 else c) (unescape plain s) in
    if nat_eq c b'%' then escaped else more
unescape high (c ∷ s) = unescape (low (hex_value c)) s
unescape (low v) (c ∷ s) = push (v * 16 + hex_value c) (unescape plain s)

hex_value-upper_hex : (n : ℕ) → n < 16 → hex_value (upper_hex n) ≡ n
unfolding hex_value upper_hex
hex_value-upper_hex n h = ground arith

unescape-escape_byte :
    (c : ℕ) (rest : Str)
    → c < 256
    → unescape plain (escape_byte c rest) ≡ push c (unescape plain rest)
unfolding unescape escape_byte is_unreserved
unescape-escape_byte c rest h =
    ground (arith, hex_value-upper_hex (c / 16), hex_value-upper_hex (c % 16))

-- The value of the parameter is what was escaped, for a text of bytes.
pub unescape-query_escape :
    (s : Str) → All (λ c. c < 256) s → unescape plain (query_escape s) ≡ some s
unfolding query_escape
unescape-query_escape [] h = unfold unescape in refl
unescape-query_escape (c ∷ s) h =
    rw (unescape-escape_byte c (query_escape s) h.0) (rw (unescape-query_escape s h.1) refl)

-- What ends or splits a query never stands in an escaped text.
pub is_safe : ℕ → Bool
is_safe c = is_unreserved c || nat_eq c b'+' || nat_eq c b'%'

upper_hex-safe : (n : ℕ) → n < 16 → is_safe (upper_hex n) ≡ true
unfolding is_safe upper_hex is_unreserved
upper_hex-safe n h = ground arith

escape_byte-safe :
    (c : ℕ) (rest : Str)
    → c < 256
    → All (λ d. is_safe d ≡ true) rest
    → All (λ d. is_safe d ≡ true) (escape_byte c rest)
unfolding escape_byte is_safe
escape_byte-safe c rest h safe = ground (arith, upper_hex-safe (c / 16), upper_hex-safe (c % 16))

pub query_escape-safe :
    (s : Str) → All (λ c. c < 256) s → All (λ d. is_safe d ≡ true) (query_escape s)
unfolding query_escape
query_escape-safe [] h = tt
query_escape-safe (c ∷ s) h = escape_byte-safe c (query_escape s) h.0 (query_escape-safe s h.1)
