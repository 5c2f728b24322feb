-- ===== src/Oidc/Login.antt =====
-- The login handlers: app/iam/service/internal/oidc/login.go. A response is its status with what the
-- handler writes; the JSON of a request body is a parameter of the handler, decoded or none.
pub mod Completion
use servora_iam.Prelude.{
  ℕ, ◌+◌, ◌*◌, Bool, true, false, not, ◌&&◌, ◌||◌, Option, none, some, List, [], ◌∷◌, ◌++◌, Str,
  String, ◌==◌, bytes, is_empty, nat_eq, if◌then◌else◌,
}
use servora_iam.Errors.{Error, Reason, Result, ok, err, kratos, status_code}
use servora_iam.Exec.{pure, raise, lift, gets, ensure, or_raise, on_error, as_reason, ◌>>=◌, ◌>>◌}
use servora_iam.Platform.Crypto.{Verdict, valid, expired, invalid}
use servora_iam.Platform.Json.{Json, Object, leaf, text, flag, unix_epoch}
use servora_iam.Platform.World.{Env, World, Action, redis_set, redis_get}
use servora_iam.Data.OidcStorage.{auth_request_key, second}
use servora_iam.Oidc.Query.{query_escape}

pub data Response : Type 0 where
  -- http.Error
  plain_error : (status : ℕ) → String → Response
  -- http.Redirect with 302
  redirect : Str → Response
  -- writeJSONError
  json_error : (status : ℕ) → Error → Response
  callback_url : Str → Response

pub data Method : Type 0 where
  get post other : Method

-- strings.TrimRight(loginBaseURL, "/")
unfoldable pub trim_slashes : Str → Str
trim_slashes [] = []
trim_slashes (c ∷ s) =
    let rest = trim_slashes s in if nat_eq c b'/' && is_empty rest then [] else c ∷ rest

-- NewLoginHandler; none is its panic.
unfoldable pub new_login_handler : (login_base_url : Str) → Option Str
new_login_handler [] = none
new_login_handler (c ∷ s) = some (trim_slashes (c ∷ s))

unfoldable pub render_login : (login_base_url auth_request_id : Str) → Response
render_login login_base_url auth_request_id =
    if is_empty auth_request_id
    then plain_error 400 "missing authRequestID"
    else redirect
        (login_base_url ++ (bytes "/login?authRequestID=" ++ query_escape auth_request_id))

-- LoginHandler.ServeHTTP
unfoldable pub serve_login : (login_base_url : Str) → Method → (auth_request_id : Str) → Response
serve_login login_base_url get auth_request_id = render_login login_base_url auth_request_id
serve_login login_base_url post auth_request_id = plain_error 405 "method not allowed"
serve_login login_base_url other auth_request_id = plain_error 405 "method not allowed"

-- The entries that completeOIDCRequest writes.
unfoldable pub complete_entries : Json → (user_id : Str) → (now : ℕ) → Object → Object
complete_entries j user_id now o =
    (bytes "done", leaf (flag true))
    ∷ (bytes "auth_time", leaf (text (j.format_time (unix_epoch + now))))
    ∷ (bytes "user_id", leaf (text user_id))
    ∷ o

-- How LoginCompleteHandler reads the verifier's answer.
unfoldable pub login_subject : Verdict → Result Str
login_subject (valid c) =
    if is_empty c.subject
    then err (kratos Reason.invalid_credentials "token missing subject")
    else ok c.subject
login_subject expired = err (kratos Reason.invalid_credentials "invalid or expired access token")
login_subject invalid = err (kratos Reason.invalid_credentials "invalid or expired access token")

unfoldable pub response_of : Result Str → Response
response_of (ok url) = callback_url url
response_of (err x) = json_error (status_code x) x

module _ ⦃e : Env⦄ (j : Json) where
  -- LoginHandler.completeOIDCRequest. The stored text `null`, of which json.Unmarshal makes a nil map,
  -- is taken for an error of j.unmarshal; in the code, the writes to that map panic.
  unfoldable pub complete_oidc_request : (auth_request_id user_id : Str) → Action Str
  complete_oidc_request auth_request_id user_id = do
    ensure (not (is_empty auth_request_id || is_empty user_id))
        (kratos Reason.missing_fields "authRequestID and userID are required")
    let key = auth_request_key auth_request_id
    stored ←
        on_error (as_reason Reason.token_expired "auth request not found or expired")
          (redis_get key)
    req_data ←
        or_raise (j.unmarshal stored) (kratos Reason.internal "failed to process auth request")
    now ← gets (λ (w : World e). w.clock)
    on_error (as_reason Reason.internal "failed to save auth request")
        (redis_set key (j.marshal (complete_entries j user_id now req_data)) (600 * second))
    pure (bytes "/authorize/callback?id=" ++ auth_request_id)

  -- The part of LoginCompleteHandler.ServeHTTP behind the method.
  unfoldable pub complete_login : (body : Option (Str × Str)) → Action Str
  complete_login body = do
    (auth_request_id, access_token) ←
        or_raise body (kratos Reason.bad_request "invalid request body")
    ensure (not (is_empty auth_request_id || is_empty access_token))
        (kratos Reason.missing_fields "authRequestID and accessToken are required")
    now ← gets (λ (w : World e). w.clock)
    user_id ← lift (login_subject (e.jwt.verify access_token now))
    complete_oidc_request auth_request_id user_id

  -- LoginCompleteHandler.ServeHTTP
  unfoldable pub serve_login_complete :
      Method → (body : Option (Str × Str)) → World e → Response × World e
  serve_login_complete get body w = (plain_error 405 "method not allowed", w)
  serve_login_complete other body w = (plain_error 405 "method not allowed", w)
  serve_login_complete post body w = let (r, w') = complete_login body w in (response_of r, w')
