-- ===== src/Oidc/CryptoKey.antt =====
-- decodeCryptoKey of app/iam/service/internal/oidc/provider.go, with hex.DecodeString of Go's
-- encoding/hex.
use servora_iam.Prelude.{
  ℕ, ◌+◌, ◌-◌, ◌*◌, ◌/◌, ◌%◌, ◌<◌, ◌≡◌, refl, ◌&&◌, Option, none, some, List, [], ◌∷◌, Str, All,
  length, leb, nat_eq, if◌then◌else◌, arith, Option-cases, inl, inr,
}
use servora_iam.Errors.{Result, ok, err, failure}
use servora_iam.Platform.World.{hex, hex_digit}

-- Digits of both cases are read.
unfoldable pub from_hex : ℕ → Option ℕ
from_hex c =
    if leb 48 c && leb c 57
    then some (c - 48)
    else if leb 97 c && leb c 102
    then some (c - 87)
    else if leb 65 c && leb c 70
    then some (c - 55)
    else none

abbrev pub push_byte : Option ℕ → Option ℕ → Option (List ℕ) → Option (List ℕ)
push_byte (some a) (some b) (some bs) = some ((a * 16 + b) ∷ bs)
push_byte (some a) (some b) none = none
push_byte (some a) none o = none
push_byte none h o = none

unfoldable pub hex_decode : Str → Option (List ℕ)
hex_decode [] = some []
hex_decode (c ∷ []) = none
hex_decode (c ∷ d ∷ s) = push_byte (from_hex c) (from_hex d) (hex_decode s)

abbrev pub key_of : Option (List ℕ) → Result (List ℕ)
key_of none = err failure
key_of (some b) = if nat_eq (length b) 32 then ok b else err failure

unfoldable pub decode_crypto_key : (hex_key : Str) → Result (List ℕ)
decode_crypto_key hex_key = key_of (hex_decode hex_key)

from_hex-hex_digit : (n : ℕ) → n < 16 → from_hex (hex_digit n) ≡ some n
unfolding from_hex
from_hex-hex_digit n h = ground arith

hex_decode-hex : (bs : List ℕ) → All (λ b. b < 256) bs → hex_decode (hex bs) ≡ some bs
unfolding hex hex_decode
hex_decode-hex [] h = refl
hex_decode-hex (b ∷ bs) h =
    ground (arith, from_hex-hex_digit (b / 16), from_hex-hex_digit (b % 16), hex_decode-hex bs h.1)

from_hex-lt : (c n : ℕ) → from_hex c ≡ some n → n < 16
unfolding from_hex
from_hex-lt c n h = ground arith

push_byte_inv :
    (c d : ℕ) (o : Option (List ℕ)) (b : ℕ) (bs : List ℕ)
    → push_byte (from_hex c) (from_hex d) o ≡ some (b ∷ bs)
    → (b < 256) × (o ≡ some bs)
push_byte_inv c d o b bs h = elim (Option-cases (from_hex c)) [
  | inl bad ↦ ground arith
  | inr (x, high) ↦ elim (Option-cases (from_hex d)) [
    | inl bad ↦ ground arith
    | inr (y, low) ↦ elim (Option-cases o) [
      | inl bad ↦ ground arith
      | inr (rest, read) ↦ ground (arith, from_hex-lt c x high, from_hex-lt d y low)
    ]
  ]
]

push_byte-ne-nil : (x y : Option ℕ) (o : Option (List ℕ)) → push_byte x y o ≡ some [] → ⊥
push_byte-ne-nil (some a) (some b) (some bs) h = cc
push_byte-ne-nil (some a) (some b) none h = cc
push_byte-ne-nil (some a) none o h = cc
push_byte-ne-nil none y o h = cc

-- A text that is read has two digits for each byte.
hex_decode-length :
    (s : Str) (bs : List ℕ)
    → hex_decode s ≡ some bs
    → (length s ≡ length bs * 2) × All (λ b. b < 256) bs
unfolding hex_decode
hex_decode-length [] [] h = (refl, tt)
hex_decode-length [] (b ∷ bs) h = absurd (cc)
hex_decode-length (c ∷ []) bs h = absurd (cc)
hex_decode-length (c ∷ d ∷ s) [] h =
    absurd (push_byte-ne-nil (from_hex c) (from_hex d) (hex_decode s) h)
hex_decode-length (c ∷ d ∷ s) (b ∷ bs) h =
    let (small, read) = push_byte_inv c d (hex_decode s) b bs h in
    let (even, rest) = hex_decode-length s bs read in (omega arith, (small, rest))

-- A key of 32 bytes, written in hexadecimal, is decoded as the key.
pub decode_crypto_key-hex :
    (key : List ℕ) → length key ≡ 32 → All (λ b. b < 256) key → decode_crypto_key (hex key) ≡ ok key
unfolding decode_crypto_key
decode_crypto_key-hex key size small = rw (hex_decode-hex key small) (ground arith)

-- What is decoded is 32 bytes, from a text of 64 digits.
pub decode_crypto_key_size :
    (hex_key : Str) (key : List ℕ)
    → decode_crypto_key hex_key ≡ ok key
    → (length hex_key ≡ 64) × (length key ≡ 32) × All (λ b. b < 256) key
unfolding decode_crypto_key
decode_crypto_key_size hex_key key h = elim (Option-cases (hex_decode hex_key)) [
  | inl bad ↦ absurd (ground arith)
  | inr (bs, read) ↦
      let (even, small) = hex_decode-length hex_key bs read in
      let size : length bs ≡ 32 = ground arith in
      let same : bs ≡ key = ground arith in rw (← same) (omega arith, size, small)
]
