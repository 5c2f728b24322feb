-- ===== src/Data/Mapper.antt =====
-- The user messages and their mapping to rows: app/iam/service/internal/data/mapper.go with the plan
-- of api/gen/go/servora/user/service/v1/user_mapper.gen.go, and profileToJSON of
-- app/iam/service/internal/data/user.go.
pub mod RoundTrip
use servora_iam.Prelude.{
  ℕ, Bool, Option, none, some, List, [], ◌∷◌, ◌++◌, Str, ◌==◌, bytes, is_empty, if◌then◌else◌,
}
use servora_iam.Platform.Crypto.{Crypto}
use servora_iam.Platform.Rows.{JsonValue, ProfileJson, UserRow, text, other}

-- userpb.UserProfile
pub record UserProfile : Type 0 where
  pub name : Str
  pub given_name : Str
  pub family_name : Str
  pub nickname : Str
  pub picture : Str
  pub gender : Str
  pub birthdate : Str
  pub zoneinfo : Str
  pub locale : Str

-- userpb.User
pub record User : Type 0 where
  pub id : Str
  pub username : Str
  pub email : Str
  pub phone : Str
  pub phone_verified : Bool
  pub role : Str
  pub status : Str
  pub email_verified : Bool
  pub email_verified_at : Option ℕ
  pub profile : Option UserProfile

-- json.Marshal writes a field that is not empty: the tags say omitempty.
entry : Str → Str → ProfileJson
entry key v = if is_empty v then [] else (key, text v) ∷ []

unfoldable pub profile_to_json : Option UserProfile → Option ProfileJson
unfolding entry
profile_to_json none = none
profile_to_json (some p) = some (
    entry (bytes "name") p.name
    ++ (entry (bytes "given_name") p.given_name
        ++ (entry (bytes "family_name") p.family_name
            ++ (entry (bytes "nickname") p.nickname
                ++ (entry (bytes "picture") p.picture
                    ++ (entry (bytes "gender") p.gender
                        ++ (entry (bytes "birthdate") p.birthdate
                            ++ (entry (bytes "zoneinfo") p.zoneinfo
                                ++ entry (bytes "locale") p.locale))))))))

-- `if v, ok := m[key].(string); ok { field = v }`
string_at : Str → ProfileJson → Str
string_at key [] = []
string_at key ((k, text v) ∷ m) = if k == key then v else string_at key m
string_at key ((k, other) ∷ m) = if k == key then [] else string_at key m

pub profile_from_json : ProfileJson → UserProfile
unfolding string_at
profile_from_json m = record {
  name = string_at (bytes "name") m;
  given_name = string_at (bytes "given_name") m;
  family_name = string_at (bytes "family_name") m;
  nickname = string_at (bytes "nickname") m;
  picture = string_at (bytes "picture") m;
  gender = string_at (bytes "gender") m;
  birthdate = string_at (bytes "birthdate") m;
  zoneinfo = string_at (bytes "zoneinfo") m;
  locale = string_at (bytes "locale") m;
}

-- The hook of newUserMapper: a profile that is not nil is decoded.
unfoldable pub profile_of_row : Option ProfileJson → Option UserProfile
profile_of_row none = none
profile_of_row (some m) = some (profile_from_json m)

unfoldable pub to_proto : Crypto → UserRow → User
unfolding profile_of_row
to_proto c r = record {
  id = c.uuid_string r.id;
  username = r.username;
  email = r.email;
  phone = r.phone;
  phone_verified = r.phone_verified;
  role = r.role;
  status = r.status;
  email_verified = r.email_verified;
  email_verified_at = r.email_verified_at;
  profile = profile_of_row r.profile;
}
