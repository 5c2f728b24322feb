-- ===== src/Tests/Logins.antt =====
-- The theorems on the login handlers of the OIDC provider, at concrete inputs.
use servora_iam.Prelude.{◌≡◌, refl, Option, some, [], ◌∷◌, ◌++◌, Str, bytes, ◌==◌, arith}
use servora_iam.Exec.{◌>>=◌}
use servora_iam.Platform.Crypto.{UserClaims, valid}
use servora_iam.Platform.Json.{
  lookup, as_leaf, as_text, as_texts, as_flag, as_time, text_field, texts_field, flag_field,
  time_field,
}
use servora_iam.Platform.Json
use servora_iam.Platform.World.{redis_set, new_uuid}
use servora_iam.Data.OidcStorage.{
  new_auth_request, challenge_of, auth_request_key, create_auth_request,
}
use servora_iam.Data.OidcStorage.Codec.{
  AuthRequest, challenge_entry, encode_auth_request, as_challenge, read_requested,
  read_auth_request, decode_auth_request,
}
use servora_iam.Data.OidcStorage.AuthRequests.{request_at}
use servora_iam.Oidc.Login.{post, callback_url, serve_login_complete}
use servora_iam.Oidc.Login.Completion.{
  IsCompleted, serve_login_complete-callback, serve_login_complete_done,
}
use servora_iam.Tests.Memory.{memory}
use servora_iam.Tests.Memory.Services.{claims_list}
use servora_iam.Tests.Memory.Text.{memory_json}
use servora_iam.Tests.Oidc.{ask, asked}

abbrev claims : UserClaims
claims = record {
  id = bytes "b";
  username = bytes "bob";
  role = [];
  nonce = [];
  subject = bytes "b";
  audience = [];
  expires_at = 60;
  issued_at = 0;
  issuer = [];
}

abbrev access : Str
access = claims_list claims

abbrev first : AuthRequest
first = new_auth_request (0 ∷ []) ask

first_held : request_at memory_json asked asked.clock (0 ∷ []) ≡ some first
unfolding create_auth_request new_uuid redis_set new_auth_request challenge_of auth_request_key
    challenge_entry encode_auth_request as_challenge read_requested read_auth_request
    decode_auth_request lookup as_leaf as_text as_texts as_flag as_time text_field texts_field
    flag_field time_field Json.◌>>=◌ ◌==◌ ◌>>=◌
first_held = refl

asked-clock : asked.clock ≡ 5
unfolding create_auth_request new_uuid redis_set ◌>>=◌
asked-clock = refl

accepted : memory.jwt.verify access asked.clock ≡ valid claims
accepted = rw asked-clock refl

abbrev body : Option (Str × Str)
body = some (0 ∷ [], access)

abbrev answer : Str
answer = bytes "/authorize/callback?id=" ++ 0 ∷ []

serve_login_complete_done_example :
    (serve_login_complete memory_json post body asked).0 ≡ callback_url answer
serve_login_complete_done_example =
    serve_login_complete_done memory_json (0 ∷ []) access claims first asked refl refl refl refl
      accepted first_held

completed : (serve_login_complete memory_json post body asked).0 ≡ callback_url answer
completed =
    serve_login_complete_done memory_json (0 ∷ []) access claims first asked refl refl refl refl
      accepted first_held

serve_login_complete-callback_example :
    (id : Str) × (token : Str) × (c : UserClaims) × (body ≡ some (id, token))
    × (memory.jwt.verify token asked.clock ≡ valid c)
    × IsCompleted memory_json id c.subject asked
        (serve_login_complete memory_json post body asked).1
serve_login_complete-callback_example =
    serve_login_complete-callback memory_json post body asked (omega (arith, asked-clock)) completed
