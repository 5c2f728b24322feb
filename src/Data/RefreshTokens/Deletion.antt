-- ===== src/Data/RefreshTokens/Deletion.antt =====
-- DeleteRefreshToken of app/iam/service/internal/data/authn.go: what it leaves in Redis.
use servora_iam.Prelude.{
  ap, ◌∙◌, ℕ, ◌≤◌, ◌≡◌, true, false, not, ◌&&◌, List, Str, ◌==◌, eq_iff, arith, some, none,
  Bool-cases, inl, inr, if◌then◌else◌,
}
use servora_iam.Errors.{ok}
use servora_iam.Exec.{◌>>=◌}
use servora_iam.Platform.World.{Env, World, redis_del, redis_s_members}
use servora_iam.Data.RefreshTokens.{refresh_key, user_tokens_key, re_add, delete_found}
use servora_iam.Data.RefreshTokens.Keys.{
  ==-refresh_key, ==-user_tokens_key, refresh_key-ne-user_tokens_key,
  user_tokens_key-ne-refresh_key,
}
use servora_iam.Data.RefreshTokens.Loops.{IsLasting, slot-re_add, member-re_add, clock-re_add}
use servora_iam.Data.RefreshTokens.Index.{owner, is_listed, IsIndexed}

module _ ⦃e : Env⦄ (token user_id : Str) (w : World e)
    (deleted : (delete_found token (ok user_id) w).0 ≡ ok tt) where
  abbrev w' : World e
  w' = (delete_found token (ok user_id) w).1

  abbrev key : Str
  key = user_tokens_key user_id

  abbrev w_del : World e
  w_del = (redis_del (refresh_key token) w).1

  abbrev w_members : World e
  w_members = (redis_s_members key w_del).1

  abbrev w_emptied : World e
  w_emptied = (redis_del key w_members).1

  abbrev Steps : List Str → Type 0
  Steps tokens =
      ((redis_del (refresh_key token) w).0 ≡ ok tt)
      × ((redis_s_members key w_del).0 ≡ ok tokens)
      × ((redis_del key w_members).0 ≡ ok tt)
      × ((re_add key token tokens w_emptied).0 ≡ ok tt)
      × (w' ≡ (re_add key token tokens w_emptied).1)

  -- All four steps went through.
  Steps-done : (tokens : List Str) × Steps tokens
  unfolding delete_found ◌>>=◌
  Steps-done = ground arith

  pub clock-delete_found : w'.clock ≡ w.clock
  unfolding redis_del redis_s_members
  clock-delete_found =
      let (tokens, d) = Steps-done in ground (arith, clock-re_add key token tokens w_emptied, d.4)

  -- The token is gone, and no other token changes.
  pub owner-delete_found :
      (n : ℕ) (t : Str) → owner w' n t ≡ (if token == t then none else owner w n t)
  unfolding redis_del redis_s_members
  owner-delete_found n t =
      let (tokens, d) = Steps-done in
      let (a, _, _, _, same) = d in
      let first : (e.redis.del (refresh_key token) w.kv).0 ≡ true = ground arith in
      let apart = user_tokens_key-ne-refresh_key t user_id in
      ground (
        arith,
        eq_iff token t,
        ==-refresh_key token t,
        ap (λ (v : World e). owner v n t) same,
        slot-re_add key token tokens w_emptied (refresh_key t) apart,
        e.redis.del_frame key w_members.kv (refresh_key t) apart,
        e.redis.s_members_frame key w.clock w_del.kv (refresh_key t),
        e.redis.del_value (refresh_key token) n w.kv first,
        e.redis.del_frame (refresh_key token) w.kv (refresh_key t),
      )

  IsLasting-emptied : IsLasting w_emptied key
  unfolding redis_del redis_s_members
  IsLasting-emptied =
      let (tokens, d) = Steps-done in
      let (_, _, c, _, _) = d in
      let emptied : (e.redis.del key w_members.kv).0 ≡ true = ground arith in
      record {
        lasts = λ n le. e.redis.del_lasts key w.clock n w_members.kv emptied;
        flat = λ n x le. ground (
          arith,
          e.redis.del_member key n w_members.kv x emptied,
          e.redis.del_member key w.clock w_members.kv x emptied,
        );
      }

  -- The set of the user keeps every other token, with no expiry.
  pub listed-delete_self :
      (n : ℕ) (t : Str)
      → w.clock ≤ n
      → is_listed w' n user_id t ≡ (is_listed w w.clock user_id t && not (t == token))
  unfolding redis_del redis_s_members
  listed-delete_self n t le =
      let (tokens, d) = Steps-done in
      let (_, b, c, r, same) = d in
      let emptied : (e.redis.del key w_members.kv).0 ≡ true = ground arith in
      let read : (e.redis.s_members key w.clock w_del.kv).0 ≡ some tokens = ground arith in
      ground (
        arith,
        ap (λ (v : World e). is_listed v n user_id t) same,
        member-re_add key token tokens w_emptied IsLasting-emptied r n t le,
        e.redis.del_member key w.clock w_members.kv t emptied,
        e.redis.s_members_sound key w.clock w_del.kv t read,
        e.redis.del_frame (refresh_key token) w.kv key
            (refresh_key-ne-user_tokens_key token user_id),
      )

  -- The sets of other users do not change.
  pub listed-delete_ne :
      (n : ℕ) (u t : Str) → (user_id == u) ≡ false → is_listed w' n u t ≡ is_listed w n u t
  unfolding redis_del redis_s_members
  listed-delete_ne n u t ne =
      let (tokens, d) = Steps-done in
      let (_, _, _, _, same) = d in
      let apart : (key == user_tokens_key u) ≡ false = ==-user_tokens_key user_id u ∙ ne in
      ground (
        arith,
        ap (λ (v : World e). is_listed v n u t) same,
        slot-re_add key token tokens w_emptied (user_tokens_key u) apart,
        e.redis.del_frame key w_members.kv (user_tokens_key u) apart,
        e.redis.s_members_frame key w.clock w_del.kv (user_tokens_key u),
        e.redis.del_frame (refresh_key token) w.kv (user_tokens_key u)
            (refresh_key-ne-user_tokens_key token u),
      )

  pub delete_found-IsIndexed :
      (lifetime : ℕ)
      → IsIndexed lifetime w
      → owner w w.clock token ≡ some user_id
      → IsIndexed lifetime w'
  delete_found-IsIndexed lifetime h found = record {
    listed = λ t u n le live.
        let le' : w.clock ≤ n = omega (arith, clock-delete_found) in
        elim (Bool-cases (user_id == u)) [
          | inl same ↦ ground (
            arith,
            eq_iff user_id u,
            eq_iff token t,
            eq_iff t token,
            owner-delete_found n t,
            listed-delete_self n t le',
            h.listed t u w.clock (omega arith),
            e.redis.value_earlier w.kv (refresh_key t) w.clock n {v = u} le',
          )
          | inr other ↦ ground (
            arith,
            eq_iff token t,
            owner-delete_found n t,
            listed-delete_ne n u t other,
            h.listed t u n le',
          )
        ];
    bounded = λ t u n le live.
        let le' : w.clock ≤ n = omega (arith, clock-delete_found) in
        ground (arith, owner-delete_found n t, h.bounded t u n le', clock-delete_found);
  }
