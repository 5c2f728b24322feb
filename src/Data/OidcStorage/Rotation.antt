-- ===== src/Data/OidcStorage/Rotation.antt =====
-- What CreateAccessAndRefreshTokens of app/iam/service/internal/data/oidc_storage.go issues, and what
-- is left of the tokens that it replaces or that are revoked.
use servora_iam.Prelude.{
  ℕ, ◌+◌, ◌≤◌, ◌<◌, ◌≡◌, refl, ap, ◌∙◌, true, false, none, some, [], Str, is_empty, ◌==◌, ltb,
  if◌then◌else◌, arith,
}
use servora_iam.Errors.{ok, err, failure}
use servora_iam.Exec.{◌>>=◌}
use servora_iam.Platform.Json.{Json, year_10000}
use servora_iam.Platform.World.{Env, World, redis_set, redis_del, new_uuid}
use servora_iam.Data.RefreshTokens.Index.{elapse}
use servora_iam.Data.OidcStorage.{
  TokenRequest, refresh, get_subject, get_scopes, get_audience, client_of, auth_time_of, token_meta,
  refresh_token_meta, access_token_key, refresh_token_key, access_token_ttl, refresh_token_ttl,
  create_access_token, delete_current, create_access_and_refresh_tokens, revoke_token,
  get_refresh_token_info,
}
use servora_iam.Data.OidcStorage.Codec.{RefreshTokenMeta, encode_refresh_token_meta}
use servora_iam.Data.OidcStorage.Codec.RoundTrip.{decode-encode_refresh_token_meta}
use servora_iam.Data.OidcStorage.AuthRequests.{redis_set-up}
use servora_iam.Data.OidcStorage.Tokens.{
  ==-refresh_token_key, decoded, grant_at, by_refresh_token_lem, Beside, access_token-Beside,
  IsRotated, delete_current-IsRotated, IsRecorded, refresh_token_key-ne-access_token_key,
}

module _ ⦃e : Env⦄ (j : Json) where
  grant_at-set :
      (token : Str) (m : RefreshTokenMeta) (n : ℕ) (w : World e)
      → (redis_set
          (refresh_token_key token)
          (j.marshal (encode_refresh_token_meta j m))
          refresh_token_ttl
          w).0
        ≡ ok tt
      → w.clock ≤ n
      → m.auth_time < year_10000
      → grant_at j
          (redis_set
            (refresh_token_key token)
            (j.marshal (encode_refresh_token_meta j m))
            refresh_token_ttl
            w).1
          n
          token
        ≡ (if ltb n (w.clock + refresh_token_ttl) then some m else none)
  unfolding redis_set
  grant_at-set token m n w done le past =
      let key = refresh_token_key token in
      let text : Str = j.marshal (encode_refresh_token_meta j m) in
      let flag : (e.redis.set key text refresh_token_ttl w.clock w.kv).0 ≡ true = ground arith in
      let read = decode-encode_refresh_token_meta j m past in
      ground
        (arith, e.redis.set_hit key text refresh_token_ttl w.clock n w.kv flag (omega arith) le)

  -- The tokens that were issued: the access token is stored for an hour, the refresh token stands for the request until its time has
  -- passed, the current one for nothing, and every other for what it stood for.
  pub record IsIssued (request : TokenRequest) (current access token : Str) (w w' : World e)
      : Type 0 where
    pub stored : IsRecorded j request access w.clock w'
    pub granted :
        (n : ℕ)
        → w.clock ≤ n
        → grant_at j w' n token ≡ (
            if ltb n (w.clock + refresh_token_ttl)
            then some (refresh_token_meta request access)
            else none)
    pub gone :
        is_empty current ≡ false
        → (token == current) ≡ false
        → (n : ℕ) → grant_at j w' n current ≡ none
    pub others :
        (t : Str)
        → (current == t) ≡ false
        → (token == t) ≡ false
        → (n : ℕ) → grant_at j w' n t ≡ grant_at j w n t

  stored-IsIssued :
      (request : TokenRequest) (current access token : Str) (w w₁ w₂ w₃ : World e)
      → Beside j w w₁
      → IsRecorded j request access w.clock w₁
      → IsRotated j current w₁ w₂
      → w₃.kv ≡ w₂.kv
      → w₃.clock ≡ w₂.clock
      → auth_time_of request < year_10000
      → let m : RefreshTokenMeta = refresh_token_meta request access in
        let text : Str = j.marshal (encode_refresh_token_meta j m) in
        (redis_set (refresh_token_key token) text refresh_token_ttl w₃).0 ≡ ok tt
        → IsIssued request current access token w
            (redis_set (refresh_token_key token) text refresh_token_ttl w₃).1
  unfolding redis_set refresh_token_meta
  stored-IsIssued request current access token w w₁ w₂ w₃ beside access_stored rotated kv clock past
        saved =
      let m : RefreshTokenMeta = refresh_token_meta request access in
      let key : Str = refresh_token_key token in
      let text : Str = j.marshal (encode_refresh_token_meta j m) in
      let frame = λ (t : Str) (apart : (token == t) ≡ false).
        e.redis.set_frame key text refresh_token_ttl w₃.clock w₃.kv (refresh_token_key t)
          (==-refresh_token_key token t ∙ apart)
        ∙ ap (λ k. e.redis.slot k (refresh_token_key t)) kv in
      let same : w₃.clock ≡ w.clock = clock ∙ (rotated.clock ∙ beside.clock) in
      let kept =
        e.redis.set_frame key text refresh_token_ttl w₃.clock w₃.kv (access_token_key access)
          (refresh_token_key-ne-access_token_key token access)
        ∙ (ap (λ k. e.redis.slot k (access_token_key access)) kv ∙ rotated.access access) in
      record {
        stored = λ n le. ap (λ s. s.value n) kept ∙ access_stored n le;
        granted =
            λ n le. rw (grant_at-set token m n w₃ saved (omega (arith, same)) past) (rw same refl);
        gone = λ full apart n.
            ap (λ s. decoded j (s.value n)) (frame current apart) ∙ rotated.gone full n;
        others = λ t old apart n.
            ap (λ s. decoded j (s.value n))
              (frame t apart ∙ (rotated.others t old ∙ beside.grants t));
      }

  pub create_tokens-IsIssued :
      (request : TokenRequest) (current : Str) (w : World e)
      → e.redis.up w.kv ≡ true
      → auth_time_of request < year_10000
      → (access : Str) × (token : Str) × ((create_access_and_refresh_tokens j request current w).0
          ≡ ok (access, token, w.clock + access_token_ttl))
        × IsIssued request current access token w
            (create_access_and_refresh_tokens j request current w).1
  unfolding create_access_and_refresh_tokens new_uuid ◌>>=◌
  create_tokens-IsIssued request current w up past =
      let (access, made, beside, access_stored) = access_token-Beside j request w up in
      let w₁ : World e = (create_access_token j request w).1 in
      let (cleared, rotated) = delete_current-IsRotated j current w₁ beside.up in
      let w₂ : World e = (delete_current j current w₁).1 in
      let drawn = e.crypto.new_uuid w₂.source in
      let w₃ : World e = record w₂ { source = drawn.1 } in
      let token : Str = e.crypto.uuid_string drawn.0 in
      let m : RefreshTokenMeta = refresh_token_meta request access in
      let text : Str = j.marshal (encode_refresh_token_meta j m) in
      let saved = redis_set-up (refresh_token_key token) text refresh_token_ttl w₃ rotated.up in
      (
        access,
        token,
        rw (made, cleared, saved.0) refl,
        rw (made, cleared, saved.0)
            (stored-IsIssued request current access token w w₁ w₂ w₃ beside access_stored rotated
              refl refl past saved.0),
      )

  -- A refresh token that is issued for another one stands for no client and no time of a login,
  -- whatever the other stood for; the subject, the scopes and the audience stay.
  pub rotation_loses_client :
      (m : RefreshTokenMeta) (current : Str) (d : ℕ) (w : World e)
      → e.redis.up w.kv ≡ true
      → d < refresh_token_ttl
      → (access : Str) × (token : Str) × (next : RefreshTokenMeta)
        × ((create_access_and_refresh_tokens j (refresh m) current w).0
            ≡ ok (access, token, w.clock + access_token_ttl))
        × (grant_at j
              (create_access_and_refresh_tokens j (refresh m) current w).1
              (w.clock + d)
              token
            ≡ some next)
        × (next.token_meta.subject ≡ m.token_meta.subject)
        × (next.token_meta.scopes ≡ m.token_meta.scopes)
        × (next.token_meta.audience ≡ m.token_meta.audience)
        × (next.client_id ≡ [])
        × (next.auth_time ≡ 0)
  unfolding refresh_token_meta token_meta get_subject get_scopes get_audience client_of auth_time_of
  rotation_loses_client m current d w up soon =
      let (access, token, issued, grants) =
        create_tokens-IsIssued (refresh m) current w up (omega arith) in
      (
        access,
        token,
        refresh_token_meta (refresh m) access,
        issued,
        grants.granted (w.clock + d) (omega arith) ∙ ground arith,
        refl,
        refl,
        refl,
        refl,
        refl,
      )

  -- While Redis answers, a token that RevokeToken was given is no refresh token from then on.
  pub info-revoke_token :
      (token user_id client_id c : Str) (d : ℕ) (w : World e)
      → e.redis.up w.kv ≡ true
      → (get_refresh_token_info j c token (elapse d (revoke_token j token user_id client_id w).1)).0
        ≡ err failure
  unfolding revoke_token get_refresh_token_info redis_del ◌>>=◌
  info-revoke_token token user_id client_id c d w up =
      let first = e.redis.del_up (access_token_key token) w.kv up in
      let kv₁ = (e.redis.del (access_token_key token) w.kv).1 in
      let second = e.redis.del_up (refresh_token_key token) kv₁ first.1 in
      let w₂ : World e = (revoke_token j token user_id client_id w).1 in
      let gone = e.redis.del_value (refresh_token_key token) (w.clock + d) kv₁ second.0 in
      rw (by_refresh_token_lem j token (elapse d w₂) second.1) (rw gone refl)
