-- ===== src/Prelude/Sorting.antt =====
-- The order of a query: insertion sort by a Boolean order, and texts in the order of their bytes.
use Prim.Native.Nat.{ℕ, suc}
use mathlib.Core.Path.{◌≡◌, refl, ap, ◌∙◌}
use native.Mathlib.Omega.{arith}
use servora_iam.Prelude.Lists.{length}
use mathlib.Core.List.{List, [], ◌∷◌}
use mathlib.Core.Bool.{Bool, true, false, ◌&&◌, ◌||◌}
use servora_iam.Prelude.Tests.{ltb, nat_eq, if◌then◌else◌}

abbrev pub insert {ℓ} : {A : Type ℓ} → (A → A → Bool) → A → List A → List A
insert before x [] = x ∷ []
insert before x (y ∷ ys) =
    let rest = insert before x ys in if before x y then x ∷ y ∷ ys else y ∷ rest

abbrev pub sort {ℓ} : {A : Type ℓ} → (A → A → Bool) → List A → List A
sort before [] = []
sort before (x ∷ xs) = insert before x (sort before xs)

-- No element of the list ties with this one.
abbrev pub ties_none {ℓ} : {A : Type ℓ} → (A → A → Bool) → A → List A → Bool
ties_none before x [] = true
ties_none before x (y ∷ ys) = (before x y || before y x) && ties_none before x ys

-- No two elements tie, so that there is one order.
abbrev pub untied {ℓ} : {A : Type ℓ} → (A → A → Bool) → List A → Bool
untied before [] = true
untied before (x ∷ xs) = ties_none before x xs && untied before xs

unfoldable pub str_lt : List ℕ → List ℕ → Bool
str_lt [] [] = false
str_lt [] (y ∷ t) = true
str_lt (x ∷ s) [] = false
str_lt (x ∷ s) (y ∷ t) = let rest = str_lt s t in if ltb x y then true else nat_eq x y && rest

length-insert :
    {A : Type 0} (before : A → A → Bool) (x : A) (xs : List A)
    → length (insert before x xs) ≡ suc (length xs)
length-insert before x [] = refl
length-insert before x (y ∷ ys) = ground (arith, length-insert before x ys)

pub length-sort :
    {A : Type 0} (before : A → A → Bool) (xs : List A) → length (sort before xs) ≡ length xs
length-sort before [] = refl
length-sort before (x ∷ xs) =
    length-insert before x (sort before xs) ∙ ap suc (length-sort before xs)
