-- ===== src/Tests/Oidc.antt =====
-- The theorems on the OIDC provider, at concrete inputs.
use servora_iam.Prelude.{◌+◌, ◌≡◌, refl, true, some, [], ◌∷◌, Str, bytes, ◌==◌, arith}
use servora_iam.Errors.{ok, err, failure}
use servora_iam.Platform.World.{World, redis_set, redis_del}
use servora_iam.Data.RefreshTokens.Index.{elapse}
use servora_iam.Data.OidcStorage.{
  OidcAuthRequest, auth, refresh, new_auth_request, refresh_token_meta, auth_code_key,
  access_token_ttl, create_auth_request, auth_request_by_code, save_auth_code, delete_auth_request,
  create_access_and_refresh_tokens,
}
use servora_iam.Data.OidcStorage.Codec.{AuthRequest, RefreshTokenMeta}
use servora_iam.Data.OidcStorage.AuthRequests.{code_at, by_code-delete}
use servora_iam.Data.OidcStorage.Tokens.{grant_at}
use servora_iam.Data.OidcStorage.Rotation.{rotation_loses_client}
use servora_iam.Tests.Memory.{memory}
use servora_iam.Tests.Memory.Text.{memory_json}
use servora_iam.Tests.Worlds.{town}

abbrev pub ask : OidcAuthRequest
ask = record {
  client_id = bytes "app";
  redirect_uri = bytes "/cb";
  scopes = bytes "openid" ∷ [];
  response_type = bytes "code";
  response_mode = [];
  nonce = bytes "n";
  state = bytes "s";
  code_challenge = bytes "x";
  code_challenge_method = bytes "S256";
}

abbrev pub asked : World memory
asked = (create_auth_request memory_json ask [] town).1

abbrev coded : World memory
coded = (save_auth_code memory_json (0 ∷ []) (bytes "code") town).1

code_known : code_at memory_json coded coded.clock (bytes "code") ≡ some (0 ∷ [])
unfolding save_auth_code redis_set auth_code_key ◌==◌
code_known = refl

request_deleted : (delete_auth_request memory_json (0 ∷ []) coded).0 ≡ ok tt
unfolding delete_auth_request redis_del save_auth_code redis_set
request_deleted = refl

by_code-delete_example :
    (auth_request_by_code memory_json
      (bytes "code")
      (elapse 9 (delete_auth_request memory_json (0 ∷ []) coded).1)).0
    ≡ err failure
by_code-delete_example =
    by_code-delete memory_json (0 ∷ []) (bytes "code") 9 coded code_known request_deleted

abbrev approved : AuthRequest
approved = record (new_auth_request (0 ∷ []) ask) {
  user_id = bytes "b";
  auth_time = 50;
  is_done = true;
}

abbrev granted : RefreshTokenMeta
granted = refresh_token_meta (auth approved) (bytes "a")

rotation_loses_client_example :
    (access : Str) × (token : Str) × (next : RefreshTokenMeta) × ((create_access_and_refresh_tokens
        memory_json
        (refresh granted)
        (bytes "old")
        town).0
      ≡ ok (access, token, 5 + access_token_ttl))
    × (grant_at memory_json
          (create_access_and_refresh_tokens memory_json (refresh granted) (bytes "old") town).1
          (5 + 60)
          token
        ≡ some next)
    × (next.token_meta.subject ≡ granted.token_meta.subject)
    × (next.token_meta.scopes ≡ granted.token_meta.scopes)
    × (next.token_meta.audience ≡ granted.token_meta.audience)
    × (next.client_id ≡ [])
    × (next.auth_time ≡ 0)
rotation_loses_client_example =
    rotation_loses_client memory_json granted (bytes "old") 60 town refl (omega arith)
