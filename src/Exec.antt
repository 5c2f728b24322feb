-- ===== src/Exec.antt =====
-- Go functions that change the state and may return an error. What was written before an error
-- stays written, so the state comes back beside the error too.
use servora_iam.Prelude.{◌≡◌, refl, Bool, true, false, Option, none, some, String, ◌⊎◌, inl, inr}
use servora_iam.Errors.{Reason, Error, Result, ok, err, kratos}

abbrev pub Exec : Type 0 → Type 0 → Type 0
Exec S A = S → Result A × S

module _ {A : Type 0} where
  abbrev pub result_of_option : Option A → Error → Result A
  result_of_option none x = err x
  result_of_option (some a) x = ok a

  abbrev pub map_error : (Error → Error) → Result A → Result A
  map_error g (ok a) = ok a
  map_error g (err x) = err (g x)

module _ {S A : Type 0} where
  abbrev pub pure : A → Exec S A
  pure a s = (ok a, s)

  abbrev pub raise : Error → Exec S A
  raise x s = (err x, s)

  abbrev pub gets : (S → A) → Exec S A
  gets f s = (ok (f s), s)

  abbrev pub lift : Result A → Exec S A
  lift r s = (r, s)

  abbrev pub or_raise : Option A → Error → Exec S A
  or_raise o x s = (result_of_option o x, s)

  -- `if err != nil { return other(err) }`
  abbrev pub on_error : (Error → Error) → Exec S A → Exec S A
  on_error g m s = let (r, s') = m s in (map_error g r, s')

  -- `if err := m(); err != nil { log }`: the error is handed on as a value.
  abbrev pub attempt : Exec S A → Exec S (Result A)
  attempt m s = let (r, s') = m s in (ok r, s')

module _ {S A B : Type 0} where
  abbrev pub continue : Result A → (A → Exec S B) → Exec S B
  continue (ok a) f s = f a s
  continue (err x) f s = (err x, s)

  infixl 10 ◌>>=◌ ◌>>◌
  unfoldable pub ◌>>=◌ : Exec S A → (A → Exec S B) → Exec S B
  ◌>>=◌ m f s = let (r, s') = m s in continue r f s'

  abbrev pub ◌>>◌ : Exec S A → Exec S B → Exec S B
  m >> n = m >>= λ _. n

module _ {S : Type 0} where
  abbrev pub ensure : Bool → Error → Exec S Unit
  ensure true x s = (ok tt, s)
  ensure false x s = (err x, s)

-- Every error becomes this one.
abbrev pub as_reason : Reason → String → Error → Error
as_reason r m x = kratos r m

-- What a successful run of two steps consists of.
module _ {S A B : Type 0} where
  continue-eq-ok :
      (r : Result A) (f : A → Exec S B) (s : S) {b : B} {s' : S}
      → continue r f s ≡ (ok b, s')
      → (a : A) × (r ≡ ok a) × (f a s ≡ (ok b, s'))
  continue-eq-ok (ok a) f s h = (a, refl, h)
  continue-eq-ok (err x) f s h = cc

  pub >>=-eq-ok :
      (m : Exec S A) (f : A → Exec S B) (s : S) {b : B} {s' : S}
      → (m >>= f) s ≡ (ok b, s')
      → (a : A) × ((m s).0 ≡ ok a) × (f a (m s).1 ≡ (ok b, s'))
  unfolding ◌>>=◌
  >>=-eq-ok m f s h = continue-eq-ok (m s).0 f (m s).1 h

pub Result-cases :
    {A : Type 0} (r : Result A) → ((x : Error) × (r ≡ err x)) ⊎ ((a : A) × (r ≡ ok a))
Result-cases (err x) = inl (x, refl)
Result-cases (ok a) = inr (a, refl)

-- A run whose result is known, as a pair.
pub run-eq : {S A : Type 0} (m : Exec S A) (s : S) {r : Result A} → (m s).0 ≡ r → m s ≡ (r, (m s).1)
run-eq m s h = λ i. (h i, (m s).1)

map_error-eq-ok :
    {A : Type 0} (g : Error → Error) (r : Result A) {a : A} → map_error g r ≡ ok a → r ≡ ok a
map_error-eq-ok g (ok a) h = h
map_error-eq-ok g (err x) h = cc

pub on_error-eq-ok :
    {S A : Type 0} (g : Error → Error) (m : Exec S A) (s : S) {a : A}
    → (on_error g m s).0 ≡ ok a
    → (m s).0 ≡ ok a
on_error-eq-ok g m s h = map_error-eq-ok g (m s).0 h
