-- ===== src/Data/RefreshTokens/Upkeep.antt =====
-- DeleteUserRefreshTokens of app/iam/service/internal/data/authn.go, and the sets of tokens.
use servora_iam.Prelude.{
  ◌∙◌, ℕ, ◌≤◌, ◌≡◌, false, Str, ◌==◌, eq_iff, arith, Bool-cases, Option-cases, inl, inr,
}
use servora_iam.Errors.{ok}
use servora_iam.Exec.{◌>>=◌}
use servora_iam.Platform.World.{Env, World, redis_del, redis_s_members}
use servora_iam.Data.RefreshTokens.{
  refresh_key, user_tokens_key, del_all, delete_user_refresh_tokens,
}
use servora_iam.Data.RefreshTokens.Keys.{==-user_tokens_key}
use servora_iam.Data.RefreshTokens.Loops.{slot-del_all}
use servora_iam.Data.RefreshTokens.Index.{is_listed, IsIndexed}
use servora_iam.Data.RefreshTokens.Frames.{OnRedis-delete_user}
use servora_iam.Data.RefreshTokens.Revocation.{owner-delete_user}

module _ ⦃e : Env⦄ where
  -- The set of the user is empty from then on.
  pub listed-delete_user_self :
      (user_id t : Str) (w : World e) (n : ℕ)
      → (delete_user_refresh_tokens user_id w).0 ≡ ok tt
      → is_listed (delete_user_refresh_tokens user_id w).1 n user_id t ≡ false
  unfolding delete_user_refresh_tokens redis_s_members redis_del ◌>>=◌
  listed-delete_user_self user_id t w n done =
      let key = user_tokens_key user_id in
      let w_read : World e = (redis_s_members key w).1 in
      elim (Option-cases (e.redis.s_members key w.clock w.kv).0) [
        | inl failed ↦ absurd (ground arith)
        | inr (tokens, read) ↦
            let w_deleted : World e = (del_all tokens w_read).1 in
            ground (arith, e.redis.del_member key n w_deleted.kv t)
      ]

  pub listed-delete_user :
      (user_id u t : Str) (w : World e) (n : ℕ)
      → (user_id == u) ≡ false
      → is_listed (delete_user_refresh_tokens user_id w).1 n u t ≡ is_listed w n u t
  unfolding delete_user_refresh_tokens redis_s_members redis_del ◌>>=◌
  listed-delete_user user_id u t w n ne =
      let key = user_tokens_key user_id in
      let w_read : World e = (redis_s_members key w).1 in
      let differ : (key == user_tokens_key u) ≡ false = ==-user_tokens_key user_id u ∙ ne in
      let same = e.redis.s_members_frame key w.clock w.kv (user_tokens_key u) in
      elim (Option-cases (e.redis.s_members key w.clock w.kv).0) [
        | inl failed ↦ ground arith
        | inr (tokens, read) ↦ ground (
          arith,
          slot-del_all tokens w_read u,
          e.redis.del_frame key (del_all tokens w_read).1.kv (user_tokens_key u) differ,
        )
      ]

  pub delete_user-IsIndexed :
      (lifetime : ℕ) (user_id : Str) (w : World e)
      → IsIndexed lifetime w
      → (delete_user_refresh_tokens user_id w).0 ≡ ok tt
      → IsIndexed lifetime (delete_user_refresh_tokens user_id w).1
  delete_user-IsIndexed lifetime user_id w h done =
      let at = (OnRedis-delete_user user_id w).clock in
      record {
        listed = λ t u n le live.
            let le' : w.clock ≤ n = omega (arith, at) in
            let gone = owner-delete_user user_id w done n t in
            elim (Bool-cases (user_id == u)) [
              | inl same ↦ ground (
                arith,
                gone,
                eq_iff user_id u,
                h.listed t u w.clock (omega arith),
                e.redis.value_earlier w.kv (refresh_key t) w.clock n {v = u} le',
              )
              | inr other ↦
                  ground (arith, gone, h.listed t u n le', listed-delete_user user_id u t w n other)
            ];
        bounded = λ t u n le live.
            let le' : w.clock ≤ n = omega (arith, at) in
            ground (arith, at, owner-delete_user user_id w done n t, h.bounded t u n le');
      }
