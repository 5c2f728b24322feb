-- ===== src/Data/OidcStorage.antt =====
-- The storage of the OIDC provider: app/iam/service/internal/data/oidc_storage.go. The interfaces
-- that it fills are of github.com/zitadel/oidc. An error of it is one that no caller of the
-- repository tells from another.
pub mod Codec
pub mod AuthRequests
pub mod Tokens
pub mod Rotation
use servora_iam.Prelude.{
  ℕ, ◌+◌, ◌*◌, Bool, true, false, Option, none, some, List, [], ◌∷◌, ◌++◌, Str, bytes, is_empty,
}
use servora_iam.Errors.{failure}
use servora_iam.Exec.{pure, gets, attempt, on_error, or_raise, ◌>>=◌, ◌>>◌}
use servora_iam.Platform.Json.{Json}
use servora_iam.Platform.World.{Env, World, Action, redis_set, redis_get, redis_del, new_uuid}
use Codec.{
  CodeChallenge, AuthRequest, TokenMeta, RefreshTokenMeta, encode_auth_request, decode_auth_request,
  encode_token_meta, encode_refresh_token_meta, decode_refresh_token_meta,
}

unfoldable pub auth_request_key : Str → Str
auth_request_key id = bytes "oidc:auth_request:" ++ id

unfoldable pub auth_code_key : Str → Str
auth_code_key code = bytes "oidc:auth_code:" ++ code

unfoldable pub access_token_key : Str → Str
access_token_key id = bytes "oidc:access_token:" ++ id

unfoldable pub refresh_token_key : Str → Str
refresh_token_key token = bytes "oidc:refresh_token:" ++ token

abbrev pub second : ℕ
second = 1_000_000_000

abbrev pub auth_request_ttl : ℕ
auth_request_ttl = 600 * second

abbrev pub auth_code_ttl : ℕ
auth_code_ttl = 300 * second

abbrev pub access_token_ttl : ℕ
access_token_ttl = 3600 * second

abbrev pub refresh_token_ttl : ℕ
refresh_token_ttl = 2_592_000 * second

-- The fields of oidc.AuthRequest that are read.
pub record OidcAuthRequest : Type 0 where
  pub client_id : Str
  pub redirect_uri : Str
  pub scopes : List Str
  pub response_type : Str
  pub response_mode : Str
  pub nonce : Str
  pub state : Str
  pub code_challenge : Str
  pub code_challenge_method : Str

unfoldable pub challenge_of : OidcAuthRequest → Option CodeChallenge
challenge_of r = elim (is_empty r.code_challenge) [
  | true ↦ none
  | false ↦ some (record { challenge = r.code_challenge; method = r.code_challenge_method })
]

unfoldable pub new_auth_request : (id : Str) → OidcAuthRequest → AuthRequest
new_auth_request id r = record {
  id = id;
  client_id = r.client_id;
  redirect_uri = r.redirect_uri;
  scopes = r.scopes;
  response_type = r.response_type;
  response_mode = r.response_mode;
  nonce = r.nonce;
  state = r.state;
  code_challenge = challenge_of r;
  audience = r.client_id ∷ [];
  user_id = [];
  auth_time = 0;
  is_done = false;
}

-- What fills op.TokenRequest: authRequest, refreshTokenMeta and clientCredentialsTokenRequest.
pub data TokenRequest : Type 0 where
  auth : AuthRequest → TokenRequest
  refresh : RefreshTokenMeta → TokenRequest
  credentials : (client_id : Str) (scopes : List Str) → TokenRequest

unfoldable pub get_subject : TokenRequest → Str
get_subject (auth r) = r.user_id
get_subject (refresh m) = m.token_meta.subject
get_subject (credentials client_id scopes) = client_id

unfoldable pub get_scopes : TokenRequest → List Str
get_scopes (auth r) = r.scopes
get_scopes (refresh m) = m.token_meta.scopes
get_scopes (credentials client_id scopes) = scopes

unfoldable pub get_audience : TokenRequest → List Str
get_audience (auth r) = r.audience
get_audience (refresh m) = m.token_meta.audience
get_audience (credentials client_id scopes) = client_id ∷ []

-- `if ar, ok := request.(op.AuthRequest)`: only authRequest has all the methods of that interface.
unfoldable pub client_of : TokenRequest → Str
client_of (auth r) = r.client_id
client_of (refresh m) = []
client_of (credentials client_id scopes) = []

unfoldable pub auth_time_of : TokenRequest → ℕ
auth_time_of (auth r) = r.auth_time
auth_time_of (refresh m) = 0
auth_time_of (credentials client_id scopes) = 0

unfoldable pub token_meta : TokenRequest → (client_id : Str) → TokenMeta
token_meta request client_id = record {
  subject = get_subject request;
  client_id = client_id;
  scopes = get_scopes request;
  audience = get_audience request;
}

unfoldable pub refresh_token_meta : TokenRequest → (access_token_id : Str) → RefreshTokenMeta
refresh_token_meta request access_token_id = record {
  token_meta = token_meta request [];
  client_id = client_of request;
  access_token_id = access_token_id;
  auth_time = auth_time_of request;
  amr = [];
}

module _ ⦃e : Env⦄ (j : Json) where
  unfoldable pub create_auth_request : OidcAuthRequest → (user_id : Str) → Action AuthRequest
  create_auth_request oidc_req user_id = do
    id ← new_uuid
    let req = new_auth_request (e.crypto.uuid_string id) oidc_req
    redis_set (auth_request_key req.id) (j.marshal (encode_auth_request j req)) auth_request_ttl
    pure req

  unfoldable pub auth_request_by_id : (id : Str) → Action AuthRequest
  auth_request_by_id id = do
    stored ← redis_get (auth_request_key id)
    or_raise (decode_auth_request j stored) failure

  unfoldable pub auth_request_by_code : (code : Str) → Action AuthRequest
  auth_request_by_code code = do id ← redis_get (auth_code_key code); auth_request_by_id id

  unfoldable pub save_auth_code : (id code : Str) → Action Unit
  save_auth_code id code = redis_set (auth_code_key code) id auth_code_ttl

  unfoldable pub delete_auth_request : (id : Str) → Action Unit
  delete_auth_request id = redis_del (auth_request_key id)

  -- The id of the token, and when it expires.
  unfoldable pub create_access_token : TokenRequest → Action (Str × ℕ)
  create_access_token request = do
    id ← new_uuid
    now ← gets (λ (w : World e). w.clock)
    let token_id = e.crypto.uuid_string id
    redis_set (access_token_key token_id)
        (j.marshal (encode_token_meta (token_meta request (client_of request)))) access_token_ttl
    pure (token_id, now + access_token_ttl)

  unfoldable pub delete_current : (current : Str) → Action Unit
  delete_current [] = pure tt
  delete_current (c ∷ cs) = do attempt (redis_del (refresh_token_key (c ∷ cs))); pure tt

  -- The ids of both tokens, and when the access token expires.
  unfoldable pub create_access_and_refresh_tokens :
      TokenRequest → (current_refresh_token : Str) → Action (Str × Str × ℕ)
  create_access_and_refresh_tokens request current_refresh_token = do
    access ← create_access_token request
    delete_current current_refresh_token
    id ← new_uuid
    let token = e.crypto.uuid_string id
    redis_set (refresh_token_key token)
        (j.marshal (encode_refresh_token_meta j (refresh_token_meta request access.0)))
        refresh_token_ttl
    pure (access.0, token, access.1)

  unfoldable pub token_request_by_refresh_token : (refresh_token : Str) → Action RefreshTokenMeta
  token_request_by_refresh_token refresh_token = do
    stored ← redis_get (refresh_token_key refresh_token)
    or_raise (decode_refresh_token_meta j stored) failure

  -- SetCurrentScopes
  unfoldable pub set_current_scopes : List Str → RefreshTokenMeta → RefreshTokenMeta
  set_current_scopes scopes m = record m { token_meta = record m.token_meta { scopes = scopes } }

  unfoldable pub terminate_session : (user_id client_id : Str) → Action Unit
  terminate_session user_id client_id = pure tt

  unfoldable pub revoke_token : (token_or_id user_id client_id : Str) → Action Unit
  revoke_token token_or_id user_id client_id = do
    attempt (redis_del (access_token_key token_or_id))
    attempt (redis_del (refresh_token_key token_or_id))
    pure tt

  -- The subject and the access token of a refresh token; an error is op.ErrInvalidRefreshToken.
  unfoldable pub get_refresh_token_info : (client_id token : Str) → Action (Str × Str)
  get_refresh_token_info client_id token = do
    meta ← token_request_by_refresh_token token
    pure (meta.token_meta.subject, meta.access_token_id)
