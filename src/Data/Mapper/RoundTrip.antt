-- ===== src/Data/Mapper/RoundTrip.antt =====
-- A profile through the JSON column: profileToJSON of app/iam/service/internal/data/user.go, then
-- profileFromJSON of app/iam/service/internal/data/mapper.go.
use servora_iam.Prelude.{
  is_empty, ◌≡◌, refl, some, none, [], ◌∷◌, Option, ◌++◌, Str, ◌==◌, arith, if◌then◌else◌,
}
use servora_iam.Platform.Rows.{ProfileJson}
use servora_iam.Data.Mapper.{
  UserProfile, entry, string_at, profile_to_json, profile_from_json, profile_of_row,
}

string_at-entry :
    (key k v : Str) (m : ProfileJson)
    → string_at key (entry k v ++ m)
      ≡ (if k == key then if is_empty v then string_at key m else v else string_at key m)
unfolding string_at entry
string_at-entry key k [] m = ground arith
string_at-entry key k (x ∷ v) m = refl

string_at-entry_last :
    (key k v : Str)
    → string_at key (entry k v) ≡ (if k == key then if is_empty v then [] else v else [])
unfolding string_at entry
string_at-entry_last key k [] = ground arith
string_at-entry_last key k (x ∷ v) = refl

or_empty : (v : Str) → (if is_empty v then [] else v) ≡ v
or_empty [] = refl
or_empty (x ∷ v) = refl

-- A profile that is stored and read back is the profile that was given.
pub profile_of_row-profile_to_json :
    (p : Option UserProfile) → profile_of_row (profile_to_json p) ≡ p
unfolding profile_of_row profile_to_json profile_from_json ◌==◌
profile_of_row-profile_to_json none = refl
profile_of_row-profile_to_json (some p) = simp (string_at-entry, string_at-entry_last, or_empty)
