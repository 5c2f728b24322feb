-- ===== src/Tests/Memory/Text.antt =====
-- JSON in memory: a list of values is written behind its length, a value behind a mark for its kind.
use servora_iam.Prelude.{
  ℕ, zero, suc, ◌≡◌, refl, true, false, Option, none, some, List, [], ◌∷◌, Str, length,
}
use servora_iam.Platform.Json.{Json, Leaf, Value, Object, null, text, flag, texts, leaf, group}
use servora_iam.Tests.Memory.Services.{put_str, get_str, get-put, take_all, drop_all}

module _ {A : Type 0} where
  abbrev pub put_all : (A → List ℕ → List ℕ) → List A → List ℕ → List ℕ
  put_all put [] rest = rest
  put_all put (x ∷ xs) rest = put x (put_all put xs rest)

  abbrev pub put_many : (A → List ℕ → List ℕ) → List A → List ℕ → List ℕ
  put_many put xs rest = length xs ∷ put_all put xs rest

  abbrev pub get_all : (List ℕ → A × List ℕ) → ℕ → List ℕ → List A × List ℕ
  get_all get zero s = ([], s)
  get_all get (suc n) s = let (x, s₁) = get s in let (xs, s₂) = get_all get n s₁ in (x ∷ xs, s₂)

  abbrev pub get_many : (List ℕ → A × List ℕ) → List ℕ → List A × List ℕ
  get_many get [] = ([], [])
  get_many get (n ∷ s) = get_all get n s

  pub get_all-put :
      (put : A → List ℕ → List ℕ) (get : List ℕ → A × List ℕ)
      → ((x : A) (rest : List ℕ) → get (put x rest) ≡ (x, rest))
      → (xs : List A) (rest : List ℕ) → get_all get (length xs) (put_all put xs rest) ≡ (xs, rest)
  get_all-put put get same [] rest = refl
  get_all-put put get same (x ∷ xs) rest =
      rw (same x (put_all put xs rest)) (rw (get_all-put put get same xs rest) refl)

abbrev put_leaf : Leaf → List ℕ → List ℕ
put_leaf null rest = 0 ∷ rest
put_leaf (text s) rest = 1 ∷ put_str s rest
put_leaf (flag false) rest = 2 ∷ rest
put_leaf (flag true) rest = 3 ∷ rest
put_leaf (texts ss) rest = 4 ∷ put_many put_str ss rest

abbrev leaf_of : ℕ → List ℕ → Leaf × List ℕ
leaf_of zero s = (null, s)
leaf_of (suc zero) s = let (t, rest) = get_str s in (text t, rest)
leaf_of (suc (suc zero)) s = (flag false, s)
leaf_of (suc (suc (suc zero))) s = (flag true, s)
leaf_of (suc (suc (suc (suc n)))) s = let (ts, rest) = get_many get_str s in (texts ts, rest)

abbrev get_leaf : List ℕ → Leaf × List ℕ
get_leaf [] = (null, [])
get_leaf (n ∷ s) = leaf_of n s

get_leaf-put : (x : Leaf) (rest : List ℕ) → get_leaf (put_leaf x rest) ≡ (x, rest)
get_leaf-put null rest = refl
get_leaf-put (text s) rest = rw (take_all s rest, drop_all s rest) refl
get_leaf-put (flag false) rest = refl
get_leaf-put (flag true) rest = refl
get_leaf-put (texts ss) rest = rw (get_all-put put_str get_str get-put ss rest) refl

module _ {A : Type 0} (put : A → List ℕ → List ℕ) (get : List ℕ → A × List ℕ) where
  abbrev put_entry : Str × A → List ℕ → List ℕ
  put_entry f rest = put_str f.0 (put f.1 rest)

  abbrev get_entry : List ℕ → (Str × A) × List ℕ
  get_entry s = let (k, s₁) = get_str s in let (x, s₂) = get s₁ in ((k, x), s₂)

  get_entry-put :
      ((x : A) (rest : List ℕ) → get (put x rest) ≡ (x, rest))
      → (f : Str × A) (rest : List ℕ) → get_entry (put_entry f rest) ≡ (f, rest)
  get_entry-put same (k, x) rest =
      rw (take_all k (put x rest), drop_all k (put x rest)) (rw (same x rest) refl)

abbrev put_value : Value → List ℕ → List ℕ
put_value (leaf x) rest = 0 ∷ put_leaf x rest
put_value (group fs) rest = 1 ∷ put_many (put_entry put_leaf get_leaf) fs rest

abbrev value_of : ℕ → List ℕ → Value × List ℕ
value_of zero s = let (x, rest) = get_leaf s in (leaf x, rest)
value_of (suc n) s = let (fs, rest) = get_many (get_entry put_leaf get_leaf) s in (group fs, rest)

abbrev get_value : List ℕ → Value × List ℕ
get_value [] = (leaf null, [])
get_value (n ∷ s) = value_of n s

get_value-put : (v : Value) (rest : List ℕ) → get_value (put_value v rest) ≡ (v, rest)
get_value-put (leaf x) rest = rw (get_leaf-put x rest) refl
get_value-put (group fs) rest =
    rw
      (get_all-put (put_entry put_leaf get_leaf) (get_entry put_leaf get_leaf)
        (get_entry-put put_leaf get_leaf get_leaf-put) fs rest)
      refl

abbrev put_object : Object → Str
put_object o = put_many (put_entry put_value get_value) o []

abbrev get_object : Str → Option Object
get_object s = some (get_many (get_entry put_value get_value) s).0

pub get_object-put : (o : Object) → get_object (put_object o) ≡ some o
get_object-put o =
    rw
      (get_all-put (put_entry put_value get_value) (get_entry put_value get_value)
        (get_entry-put put_value get_value get_value-put) o [])
      refl

abbrev time_of : Str → Option ℕ
time_of [] = none
time_of (t ∷ s) = some t

abbrev pub memory_json : Json
memory_json = record {
  marshal = put_object;
  unmarshal = get_object;
  unmarshal-marshal = λ o. (o, get_object-put o, λ k. refl);
  format_time = λ t. t ∷ [];
  parse_time = time_of;
  parse-format_time = λ t h. refl;
}
