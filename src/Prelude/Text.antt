-- ===== src/Prelude/Text.antt =====
-- A Go string: its bytes. Equality is decided by `==`, and `bytes` reads an ASCII literal.
use Prim.Native.Nat.{ℕ, ◌+◌}
use Prim.Native.Char.{code}
use Prim.Native.String.{String}
use mathlib.Core.Path.{◌≡◌, refl}
use mathlib.Core.Logic.{◌↔◌}
use mathlib.Core.Bool.{Bool, true, false, ◌&&◌}
use mathlib.Core.List.{List, [], ◌∷◌, ◌++◌}
use native.Mathlib.Omega.{arith}
use servora_iam.Prelude.Tests.{nat_eq, leb, if◌then◌else◌}

abbrev pub Str : Type 0
Str = List ℕ

abbrev pub bytes : String → Str
bytes String.[] = []
bytes (String.◌∷◌ c s) = code c ∷ bytes s

infix 50 ◌==◌
unfoldable pub ◌==◌ : Str → Str → Bool
[] == [] = true
[] == (y ∷ ys) = false
(x ∷ xs) == [] = false
(x ∷ xs) == (y ∷ ys) = nat_eq x y && xs == ys

pub ==-refl : (s : Str) → (s == s) ≡ true
unfolding ◌==◌
==-refl [] = refl
==-refl (x ∷ xs) = ground (arith, ==-refl xs)

==-eq : (s t : Str) → (s == t) ≡ true → s ≡ t
unfolding ◌==◌
==-eq [] [] h = refl
==-eq [] (y ∷ ys) h = cc
==-eq (x ∷ xs) [] h = cc
==-eq (x ∷ xs) (y ∷ ys) h = ground (arith, ==-eq xs ys)

pub eq_iff : (s t : Str) → ((s == t) ≡ true) ↔ (s ≡ t)
eq_iff s t = (==-eq s t, λ e. ground (arith, ==-refl s))

-- `s == ""`.
abbrev pub is_empty : Str → Bool
is_empty [] = true
is_empty (x ∷ xs) = false

-- A common prefix does not change a comparison.
pub ==-append_left : (p s t : Str) → ((p ++ s) == (p ++ t)) ≡ (s == t)
unfolding ◌==◌
==-append_left [] s t = refl
==-append_left (x ∷ p) s t = ground (arith, ==-append_left p s t)

-- strings.EqualFold of Go, with a word of letters that fold within ASCII only
unfoldable pub lower : ℕ → ℕ
lower c = if leb 65 c && leb c 90 then c + 32 else c

unfoldable pub equal_fold : Str → Str → Bool
equal_fold [] [] = true
equal_fold [] (d ∷ t) = false
equal_fold (c ∷ s) [] = false
equal_fold (c ∷ s) (d ∷ t) = nat_eq (lower c) (lower d) && equal_fold s t
