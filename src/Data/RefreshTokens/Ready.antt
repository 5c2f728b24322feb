-- ===== src/Data/RefreshTokens/Ready.antt =====
-- The commands of app/iam/service/internal/data/authn.go on refresh tokens, on a server that
-- answers.
use servora_iam.Prelude.{ℕ, ◌≤◌, ◌≡◌, true, List, Str, eq_iff, arith, none}
use servora_iam.Errors.{ok}
use servora_iam.Platform.World.{
  Env, World, redis_set, redis_get, redis_del, redis_s_add, redis_s_members, redis_expire,
}
use servora_iam.Data.RefreshTokens.{refresh_key, user_tokens_key, get_refresh_token}
use servora_iam.Data.RefreshTokens.Keys.{refresh_key-ne-user_tokens_key}

module _ ⦃e : Env⦄ where
  -- The server answers, and no key of a set holds a string.
  pub record IsReady (w : World e) : Type 0 where
    pub up : e.redis.up w.kv ≡ true
    pub sets :
        (u : Str) (n : ℕ) → w.clock ≤ n → (e.redis.slot w.kv (user_tokens_key u)).value n ≡ none

  pub IsReady-set :
      (t v : Str) (ttl : ℕ) (w : World e)
      → IsReady w
      → ((redis_set (refresh_key t) v ttl w).0 ≡ ok tt)
        × IsReady (redis_set (refresh_key t) v ttl w).1
  unfolding redis_set
  IsReady-set t v ttl w r =
      let answer = e.redis.set_up (refresh_key t) v ttl w.clock w.kv r.up in
      (
        ground arith,
        record {
          up = answer.1;
          sets = λ u n le. ground (
            arith,
            r.sets u n le,
            e.redis.set_frame (refresh_key t) v ttl w.clock w.kv (user_tokens_key u)
                (refresh_key-ne-user_tokens_key t u),
          );
        },
      )

  pub IsReady-s_add :
      (u x : Str) (w : World e)
      → IsReady w
      → ((redis_s_add (user_tokens_key u) x w).0 ≡ ok tt)
        × IsReady (redis_s_add (user_tokens_key u) x w).1
  unfolding redis_s_add
  IsReady-s_add u x w r =
      let key = user_tokens_key u in
      let answer = e.redis.s_add_answer key x w.clock w.kv r.up (r.sets u w.clock (omega arith)) in
      (
        ground arith,
        record {
          up = e.redis.s_add_up key x w.clock w.kv r.up;
          sets = λ v n le. ground (
            arith,
            r.sets v n le,
            eq_iff key (user_tokens_key v),
            e.redis.s_add_frame key x w.clock w.kv (user_tokens_key v),
            e.redis.s_add_value key x w.clock n w.kv (r.sets u n le),
          );
        },
      )

  pub IsReady-expire :
      (u : Str) (ttl : ℕ) (w : World e)
      → IsReady w
      → ((redis_expire (user_tokens_key u) ttl w).0 ≡ ok tt)
        × IsReady (redis_expire (user_tokens_key u) ttl w).1
  unfolding redis_expire
  IsReady-expire u ttl w r =
      let key = user_tokens_key u in
      let answer = e.redis.expire_answer key ttl w.clock w.kv r.up in
      (
        ground arith,
        record {
          up = e.redis.expire_up key ttl w.clock w.kv r.up;
          sets = λ v n le. ground (
            arith,
            r.sets v n le,
            eq_iff key (user_tokens_key v),
            e.redis.expire_frame key ttl w.clock w.kv (user_tokens_key v),
            e.redis.expire_value key ttl w.clock n w.kv (r.sets u w.clock (omega arith)) le,
          );
        },
      )

  pub IsReady-s_members :
      (u : Str) (w : World e)
      → IsReady w
      → (xs : List Str) × ((redis_s_members (user_tokens_key u) w).0 ≡ ok xs)
        × IsReady (redis_s_members (user_tokens_key u) w).1
  unfolding redis_s_members
  IsReady-s_members u w r =
      let key = user_tokens_key u in
      let (xs, answer) =
        e.redis.s_members_answer key w.clock w.kv r.up (r.sets u w.clock (omega arith)) in
      (
        xs,
        ground arith,
        record {
          up = e.redis.s_members_up key w.clock w.kv r.up;
          sets = λ v n le.
              ground (
                arith,
                r.sets v n le,
                e.redis.s_members_frame key w.clock w.kv (user_tokens_key v),
              );
        },
      )

  pub IsReady-get : (t : Str) (w : World e) → IsReady w → IsReady (get_refresh_token t w).1
  unfolding get_refresh_token redis_get
  IsReady-get t w r = record {
    up = (e.redis.get_up (refresh_key t) w.clock w.kv r.up).1;
    sets = λ v n le.
        ground (
          arith,
          r.sets v n le,
          e.redis.get_frame (refresh_key t) w.clock w.kv (user_tokens_key v),
        );
  }

  pub IsReady-del_token :
      (t : Str) (w : World e)
      → IsReady w
      → ((redis_del (refresh_key t) w).0 ≡ ok tt) × IsReady (redis_del (refresh_key t) w).1
  unfolding redis_del
  IsReady-del_token t w r =
      let answer = e.redis.del_up (refresh_key t) w.kv r.up in
      (
        ground arith,
        record {
          up = answer.1;
          sets = λ u n le. ground (
            arith,
            r.sets u n le,
            e.redis.del_frame (refresh_key t) w.kv (user_tokens_key u)
                (refresh_key-ne-user_tokens_key t u),
          );
        },
      )

  pub IsReady-del_set :
      (u : Str) (w : World e)
      → IsReady w
      → ((redis_del (user_tokens_key u) w).0 ≡ ok tt) × IsReady (redis_del (user_tokens_key u) w).1
  unfolding redis_del
  IsReady-del_set u w r =
      let key = user_tokens_key u in
      let answer = e.redis.del_up key w.kv r.up in
      (
        ground arith,
        record {
          up = answer.1;
          sets = λ v n le. ground (
            arith,
            r.sets v n le,
            eq_iff key (user_tokens_key v),
            e.redis.del_frame key w.kv (user_tokens_key v),
            e.redis.del_value key n w.kv answer.0,
          );
        },
      )
