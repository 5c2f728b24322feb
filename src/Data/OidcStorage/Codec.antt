-- ===== src/Data/OidcStorage/Codec.antt =====
-- What app/iam/service/internal/data/oidc_storage.go keeps in Redis, and its JSON: authRequest,
-- tokenMeta and refreshTokenMeta, with the names in their struct tags. CodeChallenge is of
-- github.com/zitadel/oidc, and goes by the names of its fields.
pub mod RoundTrip
use servora_iam.Prelude.{ℕ, Bool, false, Option, none, some, List, [], ◌∷◌, ◌++◌, Str, bytes}
use servora_iam.Platform.Json.{
  Json, Leaf, Value, Object, null, text, flag, texts, leaf, group, lookup, as_text, as_texts,
  text_field, texts_field, flag_field, time_field, ◌>>=◌,
}

pub record CodeChallenge : Type 0 where
  pub challenge : Str
  pub method : Str

pub record AuthRequest : Type 0 where
  pub id : Str
  pub client_id : Str
  pub redirect_uri : Str
  pub scopes : List Str
  pub response_type : Str
  pub response_mode : Str
  pub nonce : Str
  pub state : Str
  pub code_challenge : Option CodeChallenge
  pub audience : List Str
  pub user_id : Str
  pub auth_time : ℕ
  pub is_done : Bool

pub record TokenMeta : Type 0 where
  pub subject : Str
  pub client_id : Str
  pub scopes : List Str
  pub audience : List Str

pub record RefreshTokenMeta : Type 0 where
  pub token_meta : TokenMeta
  pub client_id : Str
  pub access_token_id : Str
  pub auth_time : ℕ
  pub amr : List Str

-- omitempty
unfoldable pub challenge_entry : Option CodeChallenge → Object
challenge_entry none = []
challenge_entry (some c) =
    (
      bytes "code_challenge",
      group ((bytes "Challenge", text c.challenge) ∷ (bytes "Method", text c.method) ∷ []),
    )
    ∷ []

unfoldable pub encode_auth_request : Json → AuthRequest → Object
encode_auth_request j r =
    (bytes "id", leaf (text r.id))
    ∷ (bytes "client_id", leaf (text r.client_id))
    ∷ (bytes "redirect_uri", leaf (text r.redirect_uri))
    ∷ (bytes "scopes", leaf (texts r.scopes))
    ∷ (bytes "response_type", leaf (text r.response_type))
    ∷ (bytes "response_mode", leaf (text r.response_mode))
    ∷ (bytes "nonce", leaf (text r.nonce))
    ∷ (bytes "state", leaf (text r.state))
    ∷ (challenge_entry r.code_challenge
        ++ ((bytes "audience", leaf (texts r.audience))
            ∷ (bytes "user_id", leaf (text r.user_id))
            ∷ (bytes "auth_time", leaf (text (j.format_time r.auth_time)))
            ∷ (bytes "done", leaf (flag r.is_done))
            ∷ []))

unfoldable pub as_challenge : Option Value → Option (Option CodeChallenge)
as_challenge none = some none
as_challenge (some (leaf null)) = some none
as_challenge (some (leaf (text s))) = none
as_challenge (some (leaf (flag b))) = none
as_challenge (some (leaf (texts ss))) = none
as_challenge (some (group fs)) = do
  challenge ← as_text (lookup (bytes "Challenge") fs)
  method ← as_text (lookup (bytes "Method") fs)
  some (some (record { challenge = challenge; method = method }))

-- The fields of an authRequest up to the audience.
unfoldable pub read_requested : (Str → Option Value) → Option AuthRequest
read_requested find = do
  id ← text_field find (bytes "id")
  client_id ← text_field find (bytes "client_id")
  redirect_uri ← text_field find (bytes "redirect_uri")
  scopes ← texts_field find (bytes "scopes")
  response_type ← text_field find (bytes "response_type")
  response_mode ← text_field find (bytes "response_mode")
  nonce ← text_field find (bytes "nonce")
  state ← text_field find (bytes "state")
  code_challenge ← as_challenge (find (bytes "code_challenge"))
  audience ← texts_field find (bytes "audience")
  some (record {
    id = id;
    client_id = client_id;
    redirect_uri = redirect_uri;
    scopes = scopes;
    response_type = response_type;
    response_mode = response_mode;
    nonce = nonce;
    state = state;
    code_challenge = code_challenge;
    audience = audience;
    user_id = [];
    auth_time = 0;
    is_done = false;
  })

unfoldable pub read_auth_request : Json → (Str → Option Value) → Option AuthRequest
read_auth_request j find = do
  r ← read_requested find
  user_id ← text_field find (bytes "user_id")
  auth_time ← time_field find j (bytes "auth_time")
  is_done ← flag_field find (bytes "done")
  some (record r { user_id = user_id; auth_time = auth_time; is_done = is_done })

-- Unmarshal into an authRequest.
unfoldable pub decode_auth_request : Json → Str → Option AuthRequest
decode_auth_request j stored = j.unmarshal stored >>= λ o. read_auth_request j (λ k. lookup k o)

unfoldable pub token_meta_fields : TokenMeta → List (Str × Leaf)
token_meta_fields m =
    (bytes "sub", text m.subject)
    ∷ (bytes "client_id", text m.client_id)
    ∷ (bytes "scopes", texts m.scopes)
    ∷ (bytes "audience", texts m.audience)
    ∷ []

unfoldable pub leaves : List (Str × Leaf) → Object
leaves [] = []
leaves ((k, x) ∷ fs) = (k, leaf x) ∷ leaves fs

unfoldable pub encode_token_meta : TokenMeta → Object
encode_token_meta m = leaves (token_meta_fields m)

unfoldable pub encode_refresh_token_meta : Json → RefreshTokenMeta → Object
encode_refresh_token_meta j m =
    (bytes "token_meta", group (token_meta_fields m.token_meta))
    ∷ (bytes "client_id", leaf (text m.client_id))
    ∷ (bytes "access_token_id", leaf (text m.access_token_id))
    ∷ (bytes "auth_time", leaf (text (j.format_time m.auth_time)))
    ∷ (bytes "amr", leaf (texts m.amr))
    ∷ []

unfoldable pub read_token_meta : (Str → Option Leaf) → Option TokenMeta
read_token_meta find = do
  subject ← as_text (find (bytes "sub"))
  client_id ← as_text (find (bytes "client_id"))
  scopes ← as_texts (find (bytes "scopes"))
  audience ← as_texts (find (bytes "audience"))
  some (record { subject = subject; client_id = client_id; scopes = scopes; audience = audience })

unfoldable pub as_token_meta : Option Value → Option TokenMeta
as_token_meta none = read_token_meta (λ k. none)
as_token_meta (some (leaf null)) = read_token_meta (λ k. none)
as_token_meta (some (leaf (text s))) = none
as_token_meta (some (leaf (flag b))) = none
as_token_meta (some (leaf (texts ss))) = none
as_token_meta (some (group fs)) = read_token_meta (λ k. lookup k fs)

unfoldable pub read_refresh_token_meta : Json → (Str → Option Value) → Option RefreshTokenMeta
read_refresh_token_meta j find = do
  token_meta ← as_token_meta (find (bytes "token_meta"))
  client_id ← text_field find (bytes "client_id")
  access_token_id ← text_field find (bytes "access_token_id")
  auth_time ← time_field find j (bytes "auth_time")
  amr ← texts_field find (bytes "amr")
  some (record {
    token_meta = token_meta;
    client_id = client_id;
    access_token_id = access_token_id;
    auth_time = auth_time;
    amr = amr;
  })

-- Unmarshal into a refreshTokenMeta.
unfoldable pub decode_refresh_token_meta : Json → Str → Option RefreshTokenMeta
decode_refresh_token_meta j stored =
    j.unmarshal stored >>= λ o. read_refresh_token_meta j (λ k. lookup k o)
