-- ===== src/Prelude/Int.antt =====
-- Signed integers over the native numbers; `negsuc n` is -(n + 1).
use Prim.Native.Nat.{ℕ, ◌-◌, ◌%◌}
use servora_iam.Prelude.Tests.{ltb, if◌then◌else◌}

pub data ℤ : Type 0 where
  pos : ℕ → ℤ
  negsuc : ℕ → ℤ

-- A 32-bit integer is its word, in two's complement.
abbrev pub word_32 : ℕ
word_32 = 4_294_967_296

unfoldable pub wrap_32 : ℕ → ℕ
wrap_32 n = n % word_32

-- int of an int32
unfoldable pub int_of_32 : ℕ → ℤ
int_of_32 w = if ltb w 2_147_483_648 then pos w else negsuc (word_32 - 1 - w)
