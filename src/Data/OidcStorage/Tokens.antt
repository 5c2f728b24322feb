-- ===== src/Data/OidcStorage/Tokens.antt =====
-- Access and refresh tokens of app/iam/service/internal/data/oidc_storage.go.
use servora_iam.Prelude.{
  ℕ, ◌+◌, ◌≤◌, ltb, if◌then◌else◌, arith, ◌≡◌, refl, ap, ◌∙◌, true, false, Option, none, some, [],
  ◌∷◌, Str, bytes, is_empty, ◌==◌, ==-append_left, Option-cases, inl, inr,
}
use servora_iam.Errors.{ok, failure}
use servora_iam.Exec.{result_of_option, ◌>>=◌}
use servora_iam.Platform.Json.{Json}
use servora_iam.Platform.World.{Env, World, redis_set, redis_get, redis_del, new_uuid}
use servora_iam.Data.OidcStorage.{
  TokenRequest, client_of, token_meta, access_token_key, refresh_token_key, access_token_ttl,
  create_access_token, delete_current, token_request_by_refresh_token,
}
use servora_iam.Data.OidcStorage.Codec.{
  RefreshTokenMeta, encode_token_meta, decode_refresh_token_meta,
}

pub access_token_key-ne-refresh_token_key :
    (s t : Str) → (access_token_key s == refresh_token_key t) ≡ false
unfolding access_token_key refresh_token_key ◌==◌
access_token_key-ne-refresh_token_key s t = refl

pub refresh_token_key-ne-access_token_key :
    (s t : Str) → (refresh_token_key s == access_token_key t) ≡ false
unfolding access_token_key refresh_token_key ◌==◌
refresh_token_key-ne-access_token_key s t = refl

pub ==-refresh_token_key : (s t : Str) → (refresh_token_key s == refresh_token_key t) ≡ (s == t)
unfolding refresh_token_key
==-refresh_token_key s t = ==-append_left (bytes "oidc:refresh_token:") s t

module _ ⦃e : Env⦄ (j : Json) where
  abbrev pub decoded : Option Str → Option RefreshTokenMeta
  decoded none = none
  decoded (some s) = decode_refresh_token_meta j s

  -- The text that is stored for an access token, at a time from now on.
  abbrev pub access_at : World e → ℕ → (token : Str) → Option Str
  access_at w n token = (e.redis.slot w.kv (access_token_key token)).value n

  -- An access token is stored with what it stands for, for the hour that it lasts.
  abbrev pub IsRecorded : TokenRequest → (token : Str) → (now : ℕ) → World e → Type 0
  IsRecorded request token now w =
      (n : ℕ)
      → now ≤ n
      → access_at w n token ≡ (
          if ltb n (now + 3_600_000_000_000)
          then some (j.marshal (encode_token_meta (token_meta request (client_of request))))
          else none)

  -- What a refresh token stands for at a time from now on.
  abbrev pub grant_at : World e → ℕ → (token : Str) → Option RefreshTokenMeta
  grant_at w n token = decoded ((e.redis.slot w.kv (refresh_token_key token)).value n)

  -- A run of TokenRequestByRefreshToken reads what the token stands for.
  pub by_refresh_token_lem :
      (token : Str) (w : World e)
      → e.redis.up w.kv ≡ true
      → (token_request_by_refresh_token j token w).0
        ≡ result_of_option (grant_at w w.clock token) failure
  unfolding token_request_by_refresh_token redis_get ◌>>=◌
  by_refresh_token_lem token w up =
      let answer = e.redis.get_up (refresh_token_key token) w.clock w.kv up in
      elim (Option-cases ((e.redis.slot w.kv (refresh_token_key token)).value w.clock)) [
        | inl missing ↦ rw (answer.0, missing) refl
        | inr (v, there) ↦ rw (answer.0, there) refl
      ]

  -- A step on an answering server that leaves the clock and the refresh tokens alone.
  pub record Beside (w w' : World e) : Type 0 where
    pub up : e.redis.up w'.kv ≡ true
    pub clock : w'.clock ≡ w.clock
    pub grants :
        (t : Str)
        → e.redis.slot w'.kv (refresh_token_key t) ≡ e.redis.slot w.kv (refresh_token_key t)

  pub access_token-Beside :
      (request : TokenRequest) (w : World e)
      → e.redis.up w.kv ≡ true
      → (id : Str) × ((create_access_token j request w).0 ≡ ok (id, w.clock + access_token_ttl))
        × Beside w (create_access_token j request w).1
        × IsRecorded request id w.clock (create_access_token j request w).1
  unfolding create_access_token new_uuid ◌>>=◌ redis_set
  access_token-Beside request w up =
      let drawn = e.crypto.new_uuid w.source in
      let key : Str = access_token_key (e.crypto.uuid_string drawn.0) in
      let text : Str = j.marshal (encode_token_meta (token_meta request (client_of request))) in
      let (done, up') = e.redis.set_up key text access_token_ttl w.clock w.kv up in
      (
        e.crypto.uuid_string drawn.0,
        rw done refl,
        rw done (record {
          up = up';
          clock = refl;
          grants = λ t.
              e.redis.set_frame key text access_token_ttl w.clock w.kv (refresh_token_key t)
                (access_token_key-ne-refresh_token_key (e.crypto.uuid_string drawn.0) t);
        }),
        λ n le. rw done (
            e.redis.set_hit key text access_token_ttl w.clock n w.kv (ground arith) (omega arith)
              le),
      )

  -- The current token goes, and only that.
  pub record IsRotated (current : Str) (w w' : World e) : Type 0 where
    pub up : e.redis.up w'.kv ≡ true
    pub clock : w'.clock ≡ w.clock
    pub gone : is_empty current ≡ false → (n : ℕ) → grant_at w' n current ≡ none
    pub others :
        (t : Str)
        → (current == t) ≡ false
        → e.redis.slot w'.kv (refresh_token_key t) ≡ e.redis.slot w.kv (refresh_token_key t)
    pub access :
        (t : Str) → e.redis.slot w'.kv (access_token_key t) ≡ e.redis.slot w.kv (access_token_key t)

  pub delete_current-IsRotated :
      (current : Str) (w : World e)
      → e.redis.up w.kv ≡ true
      → ((delete_current j current w).0 ≡ ok tt)
        × IsRotated current w (delete_current j current w).1
  unfolding delete_current redis_del ◌>>=◌
  delete_current-IsRotated [] w up = (
    refl,
    record { up = up; clock = refl; gone = λ h n. cc; others = λ t ne. refl; access = λ t. refl },
  )
  delete_current-IsRotated (c ∷ cs) w up =
      let key : Str = refresh_token_key (c ∷ cs) in
      let (done, up') = e.redis.del_up key w.kv up in
      (
        refl,
        record {
          up = up';
          clock = refl;
          gone = λ h n. ap decoded (e.redis.del_value key n w.kv done);
          others = λ t ne.
              e.redis.del_frame key w.kv (refresh_token_key t)
                (==-refresh_token_key (c ∷ cs) t ∙ ne);
          access = λ t.
              e.redis.del_frame key w.kv (access_token_key t)
                (refresh_token_key-ne-access_token_key (c ∷ cs) t);
        },
      )
