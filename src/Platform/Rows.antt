-- ===== src/Platform/Rows.antt =====
-- The rows of the database (app/iam/service/internal/data/schema/user.go and application.go, with
-- the soft-delete mixin), and the messages of the API (api/gen/go/servora/user/service/v1 and
-- application/service/v1) that the repositories map them to
-- (app/iam/service/internal/data/mapper.go). A UUID is its 16 bytes; a time is in nanoseconds.
use servora_iam.Prelude.{ℕ, ℤ, Bool, ◌||◌, ◌&&◌, leb, length, Option, List, Str, ◌==◌}
use servora_iam.Platform.Table.{Schema}

-- MaxLen of a column, which the generated builders check before they send a statement: check of
-- app/iam/service/internal/data/ent/user_create.go, user_update.go, application_create.go and
-- application_update.go.
unfoldable pub within : ℕ → Str → Bool
within n s = leb (length s) n

-- A value of a JSON object: a string, or anything else.
pub data JsonValue : Type 0 where
  text : Str → JsonValue
  other : JsonValue

-- The profile as the JSON column holds it, a map[string]any.
abbrev pub ProfileJson : Type 0
ProfileJson = List (Str × JsonValue)

-- ent.User
pub record UserRow : Type 0 where
  pub id : Str
  pub username : Str
  pub email : Str
  pub password : Str
  pub phone : Str
  pub phone_verified : Bool
  pub role : Str
  pub status : Str
  pub email_verified : Bool
  pub email_verified_at : Option ℕ
  pub profile : Option ProfileJson
  pub deleted_at : Option ℕ

-- UserCreate.check, for a builder with every column set.
unfoldable pub user_fits : UserRow → Bool
user_fits r =
    within 64 r.username
    && (within 128 r.email
        && (within 255 r.password
            && (within 32 r.phone && (within 32 r.role && within 32 r.status))))

abbrev pub users_schema : Schema
users_schema = record {
  Row = UserRow;
  id = λ r. r.id;
  clash = λ r s. r.id == s.id || r.username == s.username || r.email == s.email;
}

-- ent.Application
pub record ApplicationRow : Type 0 where
  pub id : Str
  pub client_id : Str
  pub client_secret_hash : Str
  pub name : Str
  pub redirect_uris : List Str
  pub scopes : List Str
  pub grant_types : List Str
  pub application_type : Str
  pub access_token_type : Str
  pub type : Str
  pub id_token_lifetime : ℤ
  pub created_at : ℕ
  pub deleted_at : Option ℕ

-- ApplicationCreate.check, for a builder with every column set.
unfoldable pub application_fits : ApplicationRow → Bool
application_fits r =
    within 128 r.client_id
    && (within 255 r.client_secret_hash
        && (within 128 r.name
            && (within 32 r.application_type
                && (within 32 r.access_token_type && within 32 r.type))))

abbrev pub applications_schema : Schema
applications_schema = record {
  Row = ApplicationRow;
  id = λ r. r.id;
  clash = λ r s. r.id == s.id || r.client_id == s.client_id;
}
