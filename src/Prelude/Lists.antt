-- ===== src/Prelude/Lists.antt =====
-- Lists measured and cut by native numbers, under the library's names.
use Prim.Native.Nat.{ℕ, zero, suc, ◌+◌, ◌≤◌}
use mathlib.Core.Path.{◌≡◌, refl, ap, sym, ◌∙◌}
use mathlib.Core.Logic.{◌⊎◌, inl, inr}
use mathlib.Core.List.{List, [], ◌∷◌, ◌++◌}
use mathlib.Core.Option.{Option, none, some}
use mathlib.Core.Bool.{Bool, true, false, ◌||◌}
use native.Mathlib.Omega.{arith}
use servora_iam.Prelude.Tests.{Bool-cases, if◌then◌else◌}

module _ {ℓ} {A : Type ℓ} where
  abbrev pub length : List A → ℕ
  length [] = 0
  length (x ∷ xs) = suc (length xs)

  abbrev pub take : ℕ → List A → List A
  take zero xs = []
  take (suc n) [] = []
  take (suc n) (x ∷ xs) = x ∷ take n xs

  abbrev pub drop : ℕ → List A → List A
  drop zero xs = xs
  drop (suc n) [] = []
  drop (suc n) (x ∷ xs) = drop n xs

  abbrev pub replicate : ℕ → A → List A
  replicate zero x = []
  replicate (suc n) x = x ∷ replicate n x

  pub length-append : (xs ys : List A) → length (xs ++ ys) ≡ length xs + length ys
  length-append [] ys = omega arith
  length-append (x ∷ xs) ys = omega (arith, length-append xs ys)

  pub length-take : (n : ℕ) (xs : List A) → n ≤ length xs → length (take n xs) ≡ n
  length-take zero xs h = refl
  length-take (suc n) [] h = elim h [ ]
  length-take (suc n) (x ∷ xs) h = ap suc (length-take n xs (omega arith))

  abbrev pub filter : (A → Bool) → List A → List A
  filter p [] = []
  filter p (x ∷ xs) = let rest = filter p xs in if p x then x ∷ rest else rest

  abbrev pub find : (A → Bool) → List A → Option A
  find p [] = none
  find p (x ∷ xs) = if p x then some x else find p xs

  abbrev pub any : (A → Bool) → List A → Bool
  any p [] = false
  any p (x ∷ xs) = p x || any p xs

  abbrev pub All {κ} : (A → Type κ) → List A → Type κ
  All P [] = Unit
  All P (x ∷ xs) = P x × All P xs

  -- The elements that pass the test are replaced.
  abbrev pub modify : (A → Bool) → (A → A) → List A → List A
  modify p f [] = []
  modify p f (x ∷ xs) = (if p x then f x else x) ∷ modify p f xs

-- Membership, with the place.
pub data In {ℓ} {A : Type ℓ} (x : A) : List A → Type ℓ where
  here : {y : A} {ys : List A} → x ≡ y → In x (y ∷ ys)
  there : {y : A} {ys : List A} → In x ys → In x (y ∷ ys)

-- A filter keeps what passes the test, and nothing else.
module _ {ℓ} {A : Type ℓ} (p : A → Bool) where
  pub In-filter : {x : A} {xs : List A} → In x xs → p x ≡ true → In x (filter p xs)
  In-filter {x} (here {y = y} {ys = ys} e) h = rw (ap p (sym e) ∙ h) (here e)
  In-filter {x} (there {y = y} {ys = ys} i) h = elim (Bool-cases (p y)) [
    | inl t ↦ rw t (there (In-filter i h))
    | inr f ↦ rw f (In-filter i h)
  ]

  In-of_kept :
      {x y : A} {ys zs : List A}
      → p y ≡ true
      → (In x zs → In x ys × (p x ≡ true))
      → In x (y ∷ zs)
      → In x (y ∷ ys) × (p x ≡ true)
  In-of_kept t rest (here e) = (here e, ap p e ∙ t)
  In-of_kept t rest (there i) = let (j, h) = rest i in (there j, h)

  pub In-of_filter : (x : A) (xs : List A) → In x (filter p xs) → In x xs × (p x ≡ true)
  In-of_filter x [] i = elim i [ ]
  In-of_filter x (y ∷ ys) i = elim (Bool-cases (p y)) [
    | inl t ↦ In-of_kept t (In-of_filter x ys) (rw t at i)
    | inr f ↦ let (j, h) = In-of_filter x ys (rw f at i) in (there j, h)
  ]

-- In a list of one element there is no other.
pub In-one {ℓ} : {A : Type ℓ} {x y : A} → In x (y ∷ []) → x ≡ y
In-one (here e) = e
In-one (there i) = elim i [ ]

-- What a replacement leaves is an element of the list, or its replacement.
pub In-modify :
    {A : Type 0} (p : A → Bool) (f : A → A) (r : A) (xs : List A)
    → In r (modify p f xs)
    → (x : A) × In x xs × (r ≡ (if p x then f x else x))
In-modify p f r [] i = elim i [ ]
In-modify p f r (x ∷ xs) (here e) = (x, here refl, e)
In-modify p f r (x ∷ xs) (there i) = let (y, j, e) = In-modify p f r xs i in (y, there j, e)

module _ {A : Type 0} (p : A → Bool) (f : A → A) (q : A → Bool)
    (keeps : (x : A) → q (f x) ≡ q x) where
  -- A change that a test does not see.
  pub filter-modify : (xs : List A) → filter q (modify p f xs) ≡ modify p f (filter q xs)
  filter-modify [] = refl
  filter-modify (x ∷ xs) = ground (arith, keeps x, filter-modify xs)

pub filter-append :
    {A : Type 0} (p : A → Bool) (xs ys : List A) → filter p (xs ++ ys) ≡ filter p xs ++ filter p ys
filter-append p [] ys = refl
filter-append p (x ∷ xs) ys = ground (arith, filter-append p xs ys)

-- What a filter keeps first is what is found.
pub find-eq_filter :
    {A : Type 0} (p : A → Bool) (xs : List A) {x : A} {ys : List A}
    → filter p xs ≡ x ∷ ys
    → find p xs ≡ some x
find-eq_filter p [] h = cc
find-eq_filter p (y ∷ xs) {x} {ys} h = elim (Bool-cases (p y)) [
  | inl kept ↦ ground arith
  | inr left ↦ let found = find-eq_filter p xs {x = x} {ys = ys} (ground arith) in ground arith
]

pub In-append_one : {A : Type 0} (x y : A) (xs : List A) → In x (xs ++ y ∷ []) → In x xs ⊎ (x ≡ y)
In-append_one x y [] i = inr (In-one i)
In-append_one x y (z ∷ xs) (here e) = inl (here e)
In-append_one x y (z ∷ xs) (there i) = elim (In-append_one x y xs i) [
  | inl j ↦ inl (there j)
  | inr e ↦ inr e
]
