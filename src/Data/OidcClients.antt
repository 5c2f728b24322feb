-- ===== src/Data/OidcClients.antt =====
-- The clients of the OIDC provider, app/iam/service/internal/data/oidc_client.go, and the operations
-- of app/iam/service/internal/data/oidc_storage.go on clients, users and keys.
pub mod Authorization
pub mod Revoked
use servora_iam.Prelude.{
  ℕ, ◌-◌, ◌*◌, suc, Bool, true, false, ◌||◌, Option, none, some, List, [], ◌∷◌, ◌++◌, Str, ◌==◌,
  bytes, if◌then◌else◌, equal_fold, ℤ, pos, negsuc,
}
use servora_iam.Errors.{failure}
use servora_iam.Exec.{pure, lift, on_error, ensure, ◌>>=◌, ◌>>◌}
use servora_iam.Platform.Table.{only}
use servora_iam.Platform.Rows.{ApplicationRow}
use servora_iam.Platform.World.{Env, Action, applications_select, bcrypt_check}
use servora_iam.Data.ApplicationRepo.{Application, application_to_proto, with_client_id}
use servora_iam.Data.AuthnRepo.{get_user_by_id}
use servora_iam.Data.OidcStorage.{TokenRequest, credentials}

pub record OidcClient : Type 0 where
  pub app : Application
  pub dev_mode : Bool

unfoldable pub login_url : (id : Str) → Str
login_url id = bytes "/login?authRequestID=" ++ id

-- time.Duration(seconds) * time.Second, of an int32
unfoldable pub id_token_lifetime : OidcClient → ℤ
id_token_lifetime c = elim c.app.id_token_lifetime [
  | pos n ↦ pos (n * 1_000_000_000)
  | negsuc n ↦ negsuc (suc n * 1_000_000_000 - 1)
]

pub data ApplicationType : Type 0 where
  web user_agent native : ApplicationType

unfoldable pub application_type : OidcClient → ApplicationType
application_type c =
    if c.app.application_type == bytes "native"
    then native
    else if c.app.application_type == bytes "user_agent"
    then user_agent
    else web

pub data AccessTokenType : Type 0 where
  bearer jwt : AccessTokenType

unfoldable pub access_token_type : OidcClient → AccessTokenType
access_token_type c = if c.app.access_token_type == bytes "opaque" then bearer else jwt

-- slices.Contains
unfoldable pub contains : List Str → Str → Bool
contains [] x = false
contains (y ∷ ys) x = y == x || contains ys x

unfoldable pub is_scope_allowed : OidcClient → (scope : Str) → Bool
is_scope_allowed c scope = contains c.app.scopes scope

-- What SetUserinfoFromToken writes.
pub record Userinfo : Type 0 where
  pub subject : Str
  pub name : Str
  pub email : Str
  pub email_verified : Bool

-- What SetIntrospectionFromToken writes.
pub record Introspection : Type 0 where
  pub active : Bool
  pub subject : Str
  pub username : Str
  pub email : Str
  pub email_verified : Bool
  pub client_id : Str

module _ ⦃e : Env⦄ where
  unfoldable pub the_application : (client_id : Str) → Action ApplicationRow
  the_application client_id = do
    rows ← applications_select (with_client_id client_id)
    on_error (λ x. failure) (lift (only rows))

  unfoldable pub get_client_by_client_id : (env client_id : Str) → Action OidcClient
  get_client_by_client_id env client_id = do
    row ← the_application client_id
    pure (record {
      app = application_to_proto e.crypto row;
      dev_mode = equal_fold env (bytes "dev");
    })

  unfoldable pub authorize_client_id_secret : (client_id client_secret : Str) → Action Unit
  authorize_client_id_secret client_id client_secret = do
    row ← the_application client_id
    ensure (bcrypt_check client_secret row.client_secret_hash) failure

  unfoldable pub client_credentials : (env client_id client_secret : Str) → Action OidcClient
  client_credentials env client_id client_secret = do
    authorize_client_id_secret client_id client_secret
    get_client_by_client_id env client_id

  unfoldable pub client_credentials_token_request :
      (client_id : Str) (scopes : List Str) → Action TokenRequest
  client_credentials_token_request client_id scopes = pure (credentials client_id scopes)

  unfoldable pub set_userinfo_from_token : (token_id subject origin : Str) → Action Userinfo
  set_userinfo_from_token token_id subject origin = do
    user ← on_error (λ x. failure) (get_user_by_id subject)
    pure (record {
      subject = user.id;
      name = user.username;
      email = user.email;
      email_verified = user.email_verified;
    })

  unfoldable pub set_introspection_from_token :
      (token_id subject client_id : Str) → Action Introspection
  set_introspection_from_token token_id subject client_id = do
    user ← on_error (λ x. failure) (get_user_by_id subject)
    pure (record {
      active = true;
      subject = user.id;
      username = user.username;
      email = user.email;
      email_verified = user.email_verified;
      client_id = client_id;
    })
