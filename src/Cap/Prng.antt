-- ===== src/Cap/Prng.antt =====
-- The generator of puzzles, `prng` of pkg/cap/cap.go: FNV-1a and xorshift on 32-bit words.
use Prim.Native.Nat.{bit_xor}
use servora_iam.Prelude.{
  ℕ, zero, suc, ◌+◌, ◌-◌, ◌*◌, ◌/◌, ◌%◌, ◌≤◌, ◌≡◌, refl, [], ◌∷◌, ◌++◌, Str, length, take,
  length-append, length-take, ltb, if◌then◌else◌, arith, bytes, Bool-cases, inl, inr,
}
use servora_iam.Platform.World.{hex_digit}

abbrev word : ℕ
word = 4_294_967_296

-- The hash of a seed: every step is on a uint32.
pub fnv_step : ℕ → ℕ → ℕ
fnv_step h byte =
    let x = bit_xor h byte in (x + (x * 2 + x * 16 + x * 128 + x * 256 + x * 16_777_216)) % word

fnv : ℕ → Str → ℕ
fnv h [] = h
fnv h (b ∷ bs) = fnv (fnv_step h b) bs

-- `next`
pub xorshift : ℕ → ℕ
xorshift state =
    let a = bit_xor state (state * 8192 % word) in
    let b = bit_xor a (a / 131_072) in bit_xor b (b * 32 % word)

-- The verb %08x on a uint32.
pub hex_word : ℕ → Str
hex_word n =
    hex_digit (n / 268_435_456 % 16)
    ∷ hex_digit (n / 16_777_216 % 16)
    ∷ hex_digit (n / 1_048_576 % 16)
    ∷ hex_digit (n / 65_536 % 16)
    ∷ hex_digit (n / 4096 % 16)
    ∷ hex_digit (n / 256 % 16)
    ∷ hex_digit (n / 16 % 16)
    ∷ hex_digit (n % 16)
    ∷ []

-- `for result.Len() < length`, by fuel, with the characters that are missing.
fill : (fuel missing state : ℕ) → Str
fill zero missing state = []
fill (suc fuel) missing state =
    let rest = fill fuel (missing - 8) (xorshift state) in
    if ltb 0 missing then hex_word (xorshift state) ++ rest else []

unfoldable pub prng : (seed : Str) (length : ℕ) → Str
unfolding fill fnv
prng seed n = take n (fill n n (fnv 2_166_136_261 seed))

length-hex_word : (n : ℕ) → length (hex_word n) ≡ 8
unfolding hex_word
length-hex_word n = refl

fill_enough : (fuel missing state : ℕ) → missing ≤ fuel → missing ≤ length (fill fuel missing state)
unfolding fill
fill_enough zero missing state h = omega arith
fill_enough (suc fuel) missing state h =
    let word_of = hex_word (xorshift state) in
    let rest = fill fuel (missing - 8) (xorshift state) in
    let long : missing ≤ length (word_of ++ rest) = omega (
      arith,
      length-append word_of rest,
      length-hex_word (xorshift state),
      fill_enough fuel (missing - 8) (xorshift state) (omega arith),
    ) in
    elim (Bool-cases (ltb 0 missing)) [
      | inl some_missing ↦ rw some_missing long
      | inr none_missing ↦ let nothing : missing ≡ 0 = ground arith in omega arith
    ]

-- The generator returns exactly the characters that were asked for, so that the slice of the source
-- is in range.
pub length-prng : (seed : Str) (n : ℕ) → length (prng seed n) ≡ n
unfolding prng
length-prng seed n = length-take n _ (fill_enough n n (fnv 2_166_136_261 seed) (omega arith))

-- As in pkg/cap/cap_test.go.
prng_hello : prng (bytes "hello") 8 ≡ bytes "eb492c6e"
unfolding prng hex_word xorshift fnv_step
prng_hello = refl
