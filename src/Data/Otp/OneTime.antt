-- ===== src/Data/Otp/OneTime.antt =====
-- How often, and until when, a one-time token of app/iam/service/internal/data/otp.go is found.
use servora_iam.Prelude.{
  ◌∙◌, ℕ, ◌+◌, ◌<◌, ◌≡◌, true, false, ◌++◌, Str, ◌==◌, arith, bytes, ==-append_left, some, none,
  Option-cases, inl, inr, if◌then◌else◌, ltb, Option,
}
use servora_iam.Errors.{ok, err, failure}
use servora_iam.Platform.World.{Env, World, redis_set, redis_get_del}
use servora_iam.Data.RefreshTokens.Index.{elapse}
use servora_iam.Data.Otp.{otp_key, set_token, consume_token}

-- The keys of one purpose differ as their tokens do.
pub ==-otp_key : (p s t : Str) → (otp_key p s == otp_key p t) ≡ (s == t)
unfolding otp_key
==-otp_key p s t =
    ==-append_left (bytes "iam:") (p ++ (bytes ":" ++ s)) (p ++ (bytes ":" ++ t))
    ∙ (==-append_left p (bytes ":" ++ s) (bytes ":" ++ t) ∙ ==-append_left (bytes ":") s t)

module _ ⦃e : Env⦄ where
  -- the user that a token stands for at a time from now on
  abbrev pub holder : World e → ℕ → (purpose hashed : Str) → Option Str
  holder w n p t = (e.redis.slot w.kv (otp_key p t)).value n

  -- While the server answers, a token that was stored is consumed with its user exactly until its
  -- time has passed.
  pub consume-set :
      (p t user_id : Str) (ttl d : ℕ) (w : World e)
      → e.redis.up w.kv ≡ true
      → 0 < ttl
      → (consume_token p t (elapse d (set_token p t user_id ttl w).1)).0
        ≡ (if ltb d ttl then ok user_id else err failure)
  unfolding consume_token set_token redis_set redis_get_del
  consume-set p t user_id ttl d w up pos =
      let key = otp_key p t in
      let stored = e.redis.set_up key user_id ttl w.clock w.kv up in
      ground (
        arith,
        e.redis.set_hit key user_id ttl w.clock (w.clock + d) w.kv stored.0 pos (omega arith),
        e.redis.get_del_up key (w.clock + d) (e.redis.set key user_id ttl w.clock w.kv).1 stored.1,
      )

  pub consume-holder :
      (p t : Str) (w : World e) {u : Str}
      → (consume_token p t w).0 ≡ ok u
      → (holder w w.clock p t ≡ some u) × ((n : ℕ) → holder (consume_token p t w).1 n p t ≡ none)
  unfolding consume_token redis_get_del
  consume-holder p t w {u} h =
      let found : (e.redis.get_del (otp_key p t) w.clock w.kv).0 ≡ some u = ground arith in
      (
        e.redis.get_del_sound (otp_key p t) w.clock w.kv found,
        λ n. e.redis.get_del_hit (otp_key p t) w.clock n w.kv found,
      )

  -- No token is consumed twice, however much later.
  pub consume_twice :
      (p t : Str) (d : ℕ) (w : World e) {u : Str}
      → (consume_token p t w).0 ≡ ok u
      → (consume_token p t (elapse d (consume_token p t w).1)).0 ≡ err failure
  unfolding consume_token redis_get_del
  consume_twice p t d w {u} h =
      let key = otp_key p t in
      let found : (e.redis.get_del key w.clock w.kv).0 ≡ some u = ground arith in
      let kv = (e.redis.get_del key w.clock w.kv).1 in
      let gone = e.redis.get_del_hit key w.clock (w.clock + d) w.kv found in
      elim (Option-cases (e.redis.get_del key (w.clock + d) kv).0) [
        | inl missing ↦ ground arith
        | inr (v, again) ↦ cc (gone, e.redis.get_del_sound key (w.clock + d) kv again)
      ]

  -- Storing or consuming a token touches no other key of Redis.
  pub slot-set_token :
      (p t user_id : Str) (ttl : ℕ) (w : World e) (j : Str)
      → (otp_key p t == j) ≡ false
      → e.redis.slot (set_token p t user_id ttl w).1.kv j ≡ e.redis.slot w.kv j
  unfolding set_token redis_set
  slot-set_token p t user_id ttl w j ne =
      e.redis.set_frame (otp_key p t) user_id ttl w.clock w.kv j ne

  pub slot-consume_token :
      (p t : Str) (w : World e) (j : Str)
      → (otp_key p t == j) ≡ false
      → e.redis.slot (consume_token p t w).1.kv j ≡ e.redis.slot w.kv j
  unfolding consume_token redis_get_del
  slot-consume_token p t w j ne = e.redis.get_del_frame (otp_key p t) w.clock w.kv j ne
