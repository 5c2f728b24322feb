-- ===== src/Jwks/Base64.antt =====
-- base64.RawURLEncoding and the bytes of a big.Int, of Go's encoding/base64 and math/big: what
-- pkg/jwks/client.go and pkg/jwks/manager.go write a public key with.
pub mod RoundTrip
use servora_iam.Prelude.{
  ℕ, suc, zero, ◌+◌, ◌-◌, ◌*◌, ◌/◌, ◌%◌, Bool, true, false, ◌&&◌, ◌||◌, Option, none, some, List,
  [], ◌∷◌, Str, leb, ltb, nat_eq, if◌then◌else◌,
}

-- The letter of six bits.
unfoldable pub digit : ℕ → ℕ
digit n =
    if ltb n 26
    then n + 65
    else if ltb n 52
    then n + 71
    else if ltb n 62
    then n - 4
    else if nat_eq n 62
    then b'-'
    else b'_'

unfoldable pub value : ℕ → Option ℕ
value c =
    if leb 65 c && leb c 90
    then some (c - 65)
    else if leb 97 c && leb c 122
    then some (c - 71)
    else if leb 48 c && leb c 57
    then some (c + 4)
    else if nat_eq c b'-'
    then some 62
    else if nat_eq c b'_'
    then some 63
    else none

-- EncodeToString
unfoldable pub encode : List ℕ → Str
encode [] = []
encode (a ∷ []) = digit (a / 4) ∷ digit (a % 4 * 16) ∷ []
encode (a ∷ b ∷ []) = digit (a / 4) ∷ digit (a % 4 * 16 + b / 16) ∷ digit (b % 16 * 4) ∷ []
encode (a ∷ b ∷ c ∷ s) =
    digit (a / 4)
    ∷ digit (a % 4 * 16 + b / 16)
    ∷ digit (b % 16 * 4 + c / 64)
    ∷ digit (c % 64)
    ∷ encode s

-- The decoder passes over line ends.
unfoldable pub strip : Str → Str
strip [] = []
strip (c ∷ s) = let rest = strip s in if nat_eq c 10 || nat_eq c 13 then rest else c ∷ rest

-- The six bits of every letter, where each is of the alphabet.
unfoldable pub sextets : Str → Option (List ℕ)
sextets [] = some []
sextets (c ∷ s) = elim (value c) as (λ o. Option (List ℕ)) [
  | none ↦ none
  | some v ↦ elim (sextets s) as (λ o. Option (List ℕ)) [ none ↦ none | some vs ↦ some (v ∷ vs) ]
]

-- One letter alone is an error; the bits that two or three letters leave over are dropped.
unfoldable pub quanta : List ℕ → Option (List ℕ)
quanta [] = some []
quanta (x ∷ []) = none
quanta (x ∷ y ∷ []) = some ((x * 4 + y / 16) ∷ [])
quanta (x ∷ y ∷ z ∷ []) = some ((x * 4 + y / 16) ∷ (y % 16 * 16 + z / 4) ∷ [])
quanta (x ∷ y ∷ z ∷ t ∷ s) = elim (quanta s) as (λ o. Option (List ℕ)) [
  | none ↦ none
  | some bs ↦ some ((x * 4 + y / 16) ∷ (y % 16 * 16 + z / 4) ∷ (z % 4 * 64 + t) ∷ bs)
]

unfoldable pub quanta_of : Option (List ℕ) → Option (List ℕ)
quanta_of none = none
quanta_of (some vs) = quanta vs

-- DecodeString
unfoldable pub decode : Str → Option (List ℕ)
decode s = quanta_of (sextets (strip s))

-- (*big.Int).Bytes: the digits of base 256, highest first, with a digit a round.
unfoldable pub digits_256 : (fuel n : ℕ) (bs : List ℕ) → List ℕ
digits_256 zero n bs = bs
digits_256 (suc fuel) n bs =
    let rest = digits_256 fuel (n / 256) (n % 256 ∷ bs) in if nat_eq n 0 then bs else rest

-- A number has at most as many digits as it counts.
unfoldable pub big_bytes : ℕ → List ℕ
big_bytes n = digits_256 n n []

-- (*big.Int).SetBytes, behind the bytes that are read.
unfoldable pub set_bytes : (n : ℕ) → List ℕ → ℕ
set_bytes n [] = n
set_bytes n (b ∷ bs) = set_bytes (n * 256 + b) bs
