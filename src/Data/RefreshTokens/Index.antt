-- ===== src/Data/RefreshTokens/Index.antt =====
-- The set of a user and the live refresh tokens of that user, under SaveRefreshToken of
-- app/iam/service/internal/data/authn.go.
use servora_iam.Prelude.{
  ◌∙◌, ℕ, ◌+◌, ◌≤◌, ◌<◌, ◌≡◌, Bool, true, false, ◌&&◌, ◌||◌, Str, ◌==◌, eq_iff, arith, Option, some,
  none, Bool-cases, inl, inr, if◌then◌else◌, ltb,
}
use servora_iam.Errors.{ok}
use servora_iam.Exec.{◌>>=◌}
use servora_iam.Platform.World.{Env, World, redis_set, redis_s_add, redis_expire}
use servora_iam.Data.RefreshTokens.{refresh_key, user_tokens_key, save_refresh_token}
use servora_iam.Data.RefreshTokens.Keys.{
  ==-refresh_key, ==-user_tokens_key, refresh_key-ne-user_tokens_key,
  user_tokens_key-ne-refresh_key,
}

-- Time passes.
abbrev pub elapse : {e : Env} → ℕ → World e → World e
elapse d w = record w { clock = w.clock + d }

module _ ⦃e : Env⦄ where
  -- the user whose token it is at a time from now on
  abbrev pub owner : World e → ℕ → Str → Option Str
  owner w n t = (e.redis.slot w.kv (refresh_key t)).value n

  abbrev pub is_listed : World e → ℕ → (user_id token : Str) → Bool
  is_listed w n u t = (e.redis.slot w.kv (user_tokens_key u)).member n t

  -- Tokens are issued for one lifetime, and every live one is in the set of its user.
  pub record IsIndexed (lifetime : ℕ) (w : World e) : Type 0 where
    pub listed : (t u : Str) (n : ℕ) → w.clock ≤ n → owner w n t ≡ some u → is_listed w n u t ≡ true
    pub bounded : (t u : Str) (n : ℕ) → w.clock ≤ n → owner w n t ≡ some u → n < w.clock + lifetime

  pub elapse-IsIndexed :
      (lifetime d : ℕ) (w : World e) → IsIndexed lifetime w → IsIndexed lifetime (elapse d w)
  elapse-IsIndexed lifetime d w h = record {
    listed = λ t u n le live. h.listed t u n (omega arith) live;
    bounded = λ t u n le live. omega (arith, h.bounded t u n (omega arith) live);
  }

  module _ (lifetime : ℕ) (user_id token : Str) (w : World e) (positive : 0 < lifetime)
      (saved : (save_refresh_token user_id token lifetime w).0 ≡ ok tt) where
    abbrev w' : World e
    w' = (save_refresh_token user_id token lifetime w).1

    abbrev kv_set : e.redis.Store
    kv_set = (e.redis.set (refresh_key token) user_id lifetime w.clock w.kv).1

    abbrev kv_add : e.redis.Store
    kv_add = (e.redis.s_add (user_tokens_key user_id) token w.clock kv_set).1

    -- All three commands went through.
    commands_done :
        ((e.redis.set (refresh_key token) user_id lifetime w.clock w.kv).0 ≡ true)
        × ((e.redis.s_add (user_tokens_key user_id) token w.clock kv_set).0 ≡ true)
        × ((e.redis.expire (user_tokens_key user_id) lifetime w.clock kv_add).0 ≡ true)
    unfolding save_refresh_token redis_set redis_s_add redis_expire ◌>>=◌
    commands_done = ground arith

    -- Who owns a token after SaveRefreshToken.
    pub owner-save :
        (n : ℕ) (t : Str)
        → w.clock ≤ n
        → owner w' n t ≡ (
            if token == t
            then if ltb n (w.clock + lifetime) then some user_id else none
            else owner w n t)
    unfolding save_refresh_token redis_set redis_s_add redis_expire ◌>>=◌
    owner-save n t le =
        let done = commands_done in
        ground (
          arith,
          eq_iff token t,
          ==-refresh_key token t,
          e.redis.set_hit (refresh_key token) user_id lifetime w.clock n w.kv done.0 positive le,
          e.redis.set_frame (refresh_key token) user_id lifetime w.clock w.kv (refresh_key t),
          e.redis.s_add_frame (user_tokens_key user_id) token w.clock kv_set (refresh_key t)
              (user_tokens_key-ne-refresh_key t user_id),
          e.redis.expire_frame (user_tokens_key user_id) lifetime w.clock kv_add (refresh_key t)
              (user_tokens_key-ne-refresh_key t user_id),
        )

    -- Which tokens the sets list after SaveRefreshToken.
    pub listed-save_self :
        (n : ℕ) (t : Str)
        → w.clock ≤ n
        → is_listed w' n user_id t
          ≡ (ltb n (w.clock + lifetime) && (token == t || is_listed w w.clock user_id t))
    unfolding save_refresh_token redis_set redis_s_add redis_expire ◌>>=◌
    listed-save_self n t le =
        let done = commands_done in
        let key = user_tokens_key user_id in
        ground (
          arith,
          e.redis.set_frame (refresh_key token) user_id lifetime w.clock w.kv key
              (refresh_key-ne-user_tokens_key token user_id),
          e.redis.lasts_now kv_set key w.clock,
          e.redis.s_add_member key token w.clock w.clock kv_set t done.1 (omega arith),
          e.redis.expire_member key lifetime w.clock n kv_add t done.2 positive le,
        )

    pub listed-save_ne :
        (n : ℕ) (u t : Str) → (user_id == u) ≡ false → is_listed w' n u t ≡ is_listed w n u t
    unfolding save_refresh_token redis_set redis_s_add redis_expire ◌>>=◌
    listed-save_ne n u t ne =
        let done = commands_done in
        let differ : (user_tokens_key user_id == user_tokens_key u) ≡ false =
          ==-user_tokens_key user_id u ∙ ne in
        ground (
          arith,
          e.redis.set_frame (refresh_key token) user_id lifetime w.clock w.kv (user_tokens_key u)
              (refresh_key-ne-user_tokens_key token u),
          e.redis.s_add_frame (user_tokens_key user_id) token w.clock kv_set (user_tokens_key u)
              differ,
          e.redis.expire_frame (user_tokens_key user_id) lifetime w.clock kv_add (user_tokens_key u)
              differ,
        )

    pub clock-save : w'.clock ≡ w.clock
    unfolding save_refresh_token redis_set redis_s_add redis_expire ◌>>=◌
    clock-save = ground arith

    -- A SaveRefreshToken that succeeds, for the one lifetime of tokens, which is positive, keeps the
    -- sets of tokens complete.
    pub save_refresh_token-IsIndexed : IsIndexed lifetime w → IsIndexed lifetime w'
    save_refresh_token-IsIndexed h = record {
      listed = λ t u n le live.
          let le' : w.clock ≤ n = omega (arith, clock-save) in
          elim (Bool-cases (user_id == u)) [
            | inl same ↦ ground (
              arith,
              eq_iff user_id u,
              eq_iff token t,
              owner-save n t le',
              listed-save_self n t le',
              h.bounded t u n le',
              h.listed t u w.clock (omega arith),
              e.redis.value_earlier w.kv (refresh_key t) w.clock n {v = u} le',
            )
            | inr other ↦ ground (
              arith,
              eq_iff user_id u,
              eq_iff token t,
              owner-save n t le',
              listed-save_ne n u t other,
              h.listed t u n le',
            )
          ];
      bounded = λ t u n le live.
          let le' : w.clock ≤ n = omega (arith, clock-save) in
          ground (arith, owner-save n t le', h.bounded t u n le', clock-save);
    }
