-- ===== src/Platform/Json.antt =====
-- encoding/json, as the service uses it: an object of the values that it stores, the text of one,
-- and the reading of a field of a struct. The first entry of a name is the one that counts. The
-- text and the times of RFC 3339 are parameters; a time is nanoseconds since the zero time.
use servora_iam.Prelude.{
  ℕ, ◌*◌, ◌<◌, ◌≡◌, Bool, false, Option, none, some, List, [], ◌∷◌, Str, ◌==◌, if◌then◌else◌,
}

-- What an array or a nested object holds.
pub data Leaf : Type 0 where
  null : Leaf
  text : Str → Leaf
  flag : Bool → Leaf
  texts : List Str → Leaf

pub data Value : Type 0 where
  leaf : Leaf → Value
  group : List (Str × Leaf) → Value

abbrev pub Object : Type 0
Object = List (Str × Value)

unfoldable pub lookup : {A : Type 0} → Str → List (Str × A) → Option A
lookup k [] = none
lookup k ((j, v) ∷ o) = if j == k then some v else lookup k o

-- From the zero time to the Unix epoch, where the clock starts, and to the year 10000.
abbrev pub unix_epoch : ℕ
unix_epoch = 62_135_596_800 * 1_000_000_000

abbrev pub year_10000 : ℕ
year_10000 = 315_537_897_600 * 1_000_000_000

pub record Json : Type 0 where
  -- Marshal of an object, and Unmarshal into one
  pub marshal : Object → Str
  pub unmarshal : Str → Option Object
  pub unmarshal-marshal :
      (o : Object)
      → (o' : Object) × (unmarshal (marshal o) ≡ some o') × ((k : Str) → lookup k o' ≡ lookup k o)
  -- time.RFC3339Nano, which also MarshalJSON of a time writes
  pub format_time : ℕ → Str
  pub parse_time : Str → Option ℕ
  pub parse-format_time : (t : ℕ) → t < year_10000 → parse_time (format_time t) ≡ some t

infixl 10 ◌>>=◌
unfoldable pub ◌>>=◌ : {A B : Type 0} → Option A → (A → Option B) → Option B
none >>= f = none
some a >>= f = f a

-- The fields of a struct, by the type that they are read into: a field that is missing or null has
-- the zero value. A nil slice and an empty one are one.
unfoldable pub as_text : Option Leaf → Option Str
as_text none = some []
as_text (some null) = some []
as_text (some (text s)) = some s
as_text (some (flag b)) = none
as_text (some (texts ss)) = none

unfoldable pub as_texts : Option Leaf → Option (List Str)
as_texts none = some []
as_texts (some null) = some []
as_texts (some (text s)) = none
as_texts (some (flag b)) = none
as_texts (some (texts ss)) = some ss

unfoldable pub as_flag : Option Leaf → Option Bool
as_flag none = some false
as_flag (some null) = some false
as_flag (some (text s)) = none
as_flag (some (flag b)) = some b
as_flag (some (texts ss)) = none

unfoldable pub as_time : Json → Option Leaf → Option ℕ
as_time j none = some 0
as_time j (some null) = some 0
as_time j (some (text s)) = j.parse_time s
as_time j (some (flag b)) = none
as_time j (some (texts ss)) = none

-- A field that is no nested object, as one in which a group is an error.
unfoldable pub as_leaf : Option Value → Option (Option Leaf)
as_leaf none = some none
as_leaf (some (leaf x)) = some (some x)
as_leaf (some (group fs)) = none

module _ (find : Str → Option Value) where
  unfoldable pub text_field : Str → Option Str
  text_field k = as_leaf (find k) >>= as_text

  unfoldable pub texts_field : Str → Option (List Str)
  texts_field k = as_leaf (find k) >>= as_texts

  unfoldable pub flag_field : Str → Option Bool
  flag_field k = as_leaf (find k) >>= as_flag

  unfoldable pub time_field : Json → Str → Option ℕ
  time_field j k = as_leaf (find k) >>= as_time j
