-- ===== src/Jwks/Base64/RoundTrip.antt =====
-- What base64.RawURLEncoding and big.Int wrote, read back.
use servora_iam.Prelude.{
  ℕ, suc, zero, ◌+◌, ◌*◌, ◌/◌, ◌%◌, ◌≤◌, ◌<◌, ◌≡◌, refl, ap, false, ◌||◌, some, List, [], ◌∷◌, Str,
  All, nat_eq, arith,
}
use servora_iam.Jwks.Base64.{
  digit, value, encode, strip, sextets, quanta, quanta_of, decode, digits_256, big_bytes, set_bytes,
}

abbrev pub IsByte : ℕ → Type 0
IsByte b = b < 256

abbrev IsSextet : ℕ → Type 0
IsSextet v = v < 64

value-digit : (n : ℕ) → n < 64 → value (digit n) ≡ some n
unfolding value digit
value-digit n h = ground arith

strip_letter : (n : ℕ) → n < 64 → (nat_eq (digit n) 10 || nat_eq (digit n) 13) ≡ false
unfolding digit
strip_letter n h = ground arith

letters : List ℕ → Str
letters [] = []
letters (v ∷ vs) = digit v ∷ letters vs

strip-letters : (vs : List ℕ) → All IsSextet vs → strip (letters vs) ≡ letters vs
unfolding strip letters
strip-letters [] h = refl
strip-letters (v ∷ vs) h = ground (arith, strip_letter v, strip-letters vs)

sextets-letters : (vs : List ℕ) → All IsSextet vs → sextets (letters vs) ≡ some vs
unfolding sextets letters
sextets-letters [] h = refl
sextets-letters (v ∷ vs) h = ground (arith, value-digit v, sextets-letters vs)

-- The groups of six bits of some bytes.
groups : List ℕ → List ℕ
groups [] = []
groups (a ∷ []) = a / 4 ∷ (a % 4 * 16) ∷ []
groups (a ∷ b ∷ []) = a / 4 ∷ (a % 4 * 16 + b / 16) ∷ (b % 16 * 4) ∷ []
groups (a ∷ b ∷ c ∷ s) = a / 4 ∷ (a % 4 * 16 + b / 16) ∷ (b % 16 * 4 + c / 64) ∷ (c % 64) ∷ groups s

encode-letters : (bs : List ℕ) → encode bs ≡ letters (groups bs)
unfolding encode letters groups
encode-letters [] = refl
encode-letters (a ∷ []) = refl
encode-letters (a ∷ b ∷ []) = refl
encode-letters (a ∷ b ∷ c ∷ s) = ground (arith, encode-letters s)

groups-IsSextet : (bs : List ℕ) → All IsByte bs → All IsSextet (groups bs)
unfolding groups
groups-IsSextet [] h = tt
groups-IsSextet (a ∷ []) h = omega arith
groups-IsSextet (a ∷ b ∷ []) h = omega arith
groups-IsSextet (a ∷ b ∷ c ∷ s) h =
    (omega arith, (omega arith, (omega arith, (omega arith, groups-IsSextet s h.1.1.1))))

quanta-groups : (bs : List ℕ) → All IsByte bs → quanta (groups bs) ≡ some bs
unfolding quanta groups
quanta-groups [] h = refl
quanta-groups (a ∷ []) h = ground arith
quanta-groups (a ∷ b ∷ []) h = ground arith
quanta-groups (a ∷ b ∷ c ∷ s) h = ground (arith, quanta-groups s)

pub decode-encode : (bs : List ℕ) → All IsByte bs → decode (encode bs) ≡ some bs
unfolding decode quanta_of
decode-encode bs h = rw (encode-letters bs) (
    rw (strip-letters (groups bs) (groups-IsSextet bs h))
      (rw (sextets-letters (groups bs) (groups-IsSextet bs h)) (quanta-groups bs h)))

set_bytes-digits_256 :
    (fuel n : ℕ) (bs : List ℕ) → n ≤ fuel → set_bytes 0 (digits_256 fuel n bs) ≡ set_bytes n bs
unfolding digits_256 set_bytes
set_bytes-digits_256 zero n bs h = ap (λ m. set_bytes m bs) (omega arith)
set_bytes-digits_256 (suc fuel) n bs h =
    ground (arith, set_bytes-digits_256 fuel (n / 256) (n % 256 ∷ bs))

-- The bytes of a number are read back as the number.
pub set_bytes-big_bytes : (n : ℕ) → set_bytes 0 (big_bytes n) ≡ n
unfolding big_bytes set_bytes
set_bytes-big_bytes n = set_bytes-digits_256 n n [] (omega arith)

digits_256-IsByte : (fuel n : ℕ) (bs : List ℕ) → All IsByte bs → All IsByte (digits_256 fuel n bs)
unfolding digits_256
digits_256-IsByte zero n bs h = h
digits_256-IsByte (suc fuel) n bs h =
    let more = digits_256-IsByte fuel (n / 256) (n % 256 ∷ bs) (omega arith, h) in ground arith

pub big_bytes-IsByte : (n : ℕ) → All IsByte (big_bytes n)
unfolding big_bytes
big_bytes-IsByte n = digits_256-IsByte n n [] tt
