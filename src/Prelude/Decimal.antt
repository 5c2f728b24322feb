-- ===== src/Prelude/Decimal.antt =====
-- strconv.Itoa and the verb %d on a number that is not negative.
use Prim.Native.Nat.{ℕ, zero, suc, ◌+◌, ◌/◌, ◌%◌}
use mathlib.Core.List.{[], ◌∷◌, ◌++◌}
use servora_iam.Prelude.Tests.{ltb, if◌then◌else◌}
use servora_iam.Prelude.Text.{Str}

-- The digits of a number below 10 ^ fuel.
digits : ℕ → ℕ → Str
digits zero n = []
digits (suc fuel) n =
    let rest = digits fuel (n / 10) ++ (48 + n % 10) ∷ [] in
    if ltb n 10 then (48 + n) ∷ [] else rest

unfoldable pub decimal : ℕ → Str
unfolding digits
decimal n = digits (suc n) n
