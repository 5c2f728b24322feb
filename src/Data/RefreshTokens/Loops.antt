-- ===== src/Data/RefreshTokens/Loops.antt =====
-- The loops of DeleteRefreshToken and DeleteUserRefreshTokens over the members of a set.
use servora_iam.Prelude.{
  ℕ, ◌≤◌, ◌≡◌, refl, true, false, not, ◌&&◌, ◌||◌, List, [], ◌∷◌, Str, ◌==◌, eq_iff, arith, none,
  Bool-cases, inl, inr, if◌then◌else◌,
}
use servora_iam.Errors.{ok}
use servora_iam.Exec.{◌>>=◌}
use servora_iam.Platform.Redis.{contains}
use servora_iam.Platform.World.{Env, World, redis_del, redis_s_add}
use servora_iam.Platform.Frames.{OnRedis}
use servora_iam.Data.RefreshTokens.{refresh_key, user_tokens_key, re_add, del_all}
use servora_iam.Data.RefreshTokens.Keys.{refresh_key-ne-user_tokens_key, ==-refresh_key}

module _ ⦃e : Env⦄ where
  -- The loop writes one key only.
  pub slot-re_add :
      (key token : Str) (ts : List Str) (w : World e) (j : Str)
      → (key == j) ≡ false
      → e.redis.slot (re_add key token ts w).1.kv j ≡ e.redis.slot w.kv j
  unfolding re_add redis_s_add ◌>>=◌
  slot-re_add key token [] w j ne = refl
  slot-re_add key token (t ∷ ts) w j ne = ground (
    arith,
    slot-re_add key token ts w j ne,
    slot-re_add key token ts (redis_s_add key t w).1 j ne,
    e.redis.s_add_frame key t w.clock w.kv j ne,
  )

  pub clock-re_add :
      (key token : Str) (ts : List Str) (w : World e) → (re_add key token ts w).1.clock ≡ w.clock
  unfolding re_add redis_s_add ◌>>=◌
  clock-re_add key token [] w = refl
  clock-re_add key token (t ∷ ts) w =
      ground (arith, clock-re_add key token ts w, clock-re_add key token ts (redis_s_add key t w).1)

  -- What SADD finds after DEL: a set that is written now stays, and the members do not depend on
  -- the time.
  pub record IsLasting (w : World e) (key : Str) : Type 0 where
    pub lasts : (n : ℕ) → w.clock ≤ n → (e.redis.slot w.kv key).lasts w.clock n ≡ true
    pub flat :
        (n : ℕ) (x : Str)
        → w.clock ≤ n
        → (e.redis.slot w.kv key).member n x ≡ (e.redis.slot w.kv key).member w.clock x

  IsLasting-s_add :
      (key x : Str) (w : World e)
      → IsLasting w key
      → (redis_s_add key x w).0 ≡ ok tt
      → IsLasting (redis_s_add key x w).1 key
  unfolding redis_s_add
  IsLasting-s_add key x w h done = record {
    lasts = λ n le. ground (arith, h.lasts n le, e.redis.s_add_lasts key x w.clock n w.kv);
    flat = λ n y le. ground (
      arith,
      h.lasts n le,
      h.flat n y le,
      h.lasts w.clock (omega arith),
      e.redis.s_add_member key x w.clock n w.kv y,
      e.redis.s_add_member key x w.clock w.clock w.kv y,
    );
  }

  -- The loop adds every token of the list but the one.
  pub member-re_add :
      (key token : Str) (ts : List Str) (w : World e)
      → IsLasting w key
      → (re_add key token ts w).0 ≡ ok tt
      → (n : ℕ) (y : Str) → w.clock ≤ n
      → (e.redis.slot (re_add key token ts w).1.kv key).member n y
        ≡ (contains ts y && not (y == token) || (e.redis.slot w.kv key).member w.clock y)
  unfolding re_add redis_s_add ◌>>=◌
  member-re_add key token [] w h done n y le = h.flat n y le
  member-re_add key token (t ∷ ts) w h done n y le = elim (Bool-cases (t == token)) [
    | inl same ↦
        let rest : (re_add key token ts w).0 ≡ ok tt = ground arith in
        ground (
          arith,
          eq_iff t y,
          eq_iff t token,
          eq_iff y token,
          member-re_add key token ts w h rest n y le,
        )
    | inr other ↦
        let first : (redis_s_add key t w).0 ≡ ok tt = ground arith in
        let w' : World e = (redis_s_add key t w).1 in
        let rest : (re_add key token ts w').0 ≡ ok tt = ground arith in
        ground (
          arith,
          eq_iff t y,
          eq_iff t token,
          eq_iff y token,
          h.lasts w.clock (omega arith),
          e.redis.s_add_member key t w.clock w.clock w.kv y,
          member-re_add key token ts w' (IsLasting-s_add key t w h first) rest n y le,
        )
  ]

  pub clock-del_all : (ts : List Str) (w : World e) → (del_all ts w).1.clock ≡ w.clock
  unfolding del_all redis_del ◌>>=◌
  clock-del_all [] w = refl
  clock-del_all (t ∷ ts) w = ground (arith, clock-del_all ts (redis_del (refresh_key t) w).1)

  pub slot-del_all :
      (ts : List Str) (w : World e) (u : Str)
      → e.redis.slot (del_all ts w).1.kv (user_tokens_key u) ≡ e.redis.slot w.kv (user_tokens_key u)
  unfolding del_all redis_del ◌>>=◌
  slot-del_all [] w u = refl
  slot-del_all (t ∷ ts) w u = ground (
    arith,
    e.redis.del_frame (refresh_key t) w.kv (user_tokens_key u),
    refresh_key-ne-user_tokens_key t u,
    slot-del_all ts (redis_del (refresh_key t) w).1 u,
  )

  -- The loop deletes the tokens of the list and no other.
  pub value-del_all :
      (ts : List Str) (w : World e)
      → (del_all ts w).0 ≡ ok tt
      → (t : Str) (n : ℕ)
      → (e.redis.slot (del_all ts w).1.kv (refresh_key t)).value n
        ≡ (if contains ts t then none else (e.redis.slot w.kv (refresh_key t)).value n)
  unfolding del_all redis_del ◌>>=◌
  value-del_all [] w done t n = refl
  value-del_all (x ∷ ts) w done t n =
      let w' : World e = (redis_del (refresh_key x) w).1 in
      let first : (e.redis.del (refresh_key x) w.kv).0 ≡ true = ground arith in
      let rest : (del_all ts w').0 ≡ ok tt = ground arith in
      ground (
        arith,
        value-del_all ts w' rest t n,
        eq_iff x t,
        ==-refresh_key x t,
        e.redis.del_value (refresh_key x) n w.kv first,
        e.redis.del_frame (refresh_key x) w.kv (refresh_key t),
      )

  pub OnRedis-re_add :
      (key token : Str) (ts : List Str) (w : World e) → OnRedis w (re_add key token ts w).1
  unfolding re_add redis_s_add ◌>>=◌
  OnRedis-re_add key token [] w = record {
    users = refl;
    applications = refl;
    source = refl;
    outbox = refl;
    clock = refl;
  }
  OnRedis-re_add key token (t ∷ ts) w =
      let skip = OnRedis-re_add key token ts w in
      let add = OnRedis-re_add key token ts (redis_s_add key t w).1 in
      record {
        users = ground (arith, skip.users, add.users);
        applications = ground (arith, skip.applications, add.applications);
        source = ground (arith, skip.source, add.source);
        outbox = ground (arith, skip.outbox, add.outbox);
        clock = ground (arith, skip.clock, add.clock);
      }

  pub OnRedis-del_all : (ts : List Str) (w : World e) → OnRedis w (del_all ts w).1
  unfolding del_all redis_del ◌>>=◌
  OnRedis-del_all [] w = record {
    users = refl;
    applications = refl;
    source = refl;
    outbox = refl;
    clock = refl;
  }
  OnRedis-del_all (t ∷ ts) w =
      let rest = OnRedis-del_all ts (redis_del (refresh_key t) w).1 in
      record {
        users = ground (arith, rest.users);
        applications = ground (arith, rest.applications);
        source = ground (arith, rest.source);
        outbox = ground (arith, rest.outbox);
        clock = ground (arith, rest.clock);
      }
