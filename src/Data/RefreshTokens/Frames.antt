-- ===== src/Data/RefreshTokens/Frames.antt =====
-- What the functions of app/iam/service/internal/data/authn.go on refresh tokens leave alone.
use servora_iam.Prelude.{ℕ, refl, ◌∙◌, Str, arith, inl, inr}
use servora_iam.Errors.{Result, ok, err}
use servora_iam.Exec.{◌>>=◌, Result-cases}
use servora_iam.Platform.World.{
  Env, World, redis_set, redis_get, redis_del, redis_s_add, redis_s_members, redis_expire,
}
use servora_iam.Platform.Frames.{OnRedis}
use servora_iam.Data.RefreshTokens.{
  refresh_key, user_tokens_key, save_refresh_token, get_refresh_token, delete_refresh_token,
  delete_found, delete_user_refresh_tokens,
}
use servora_iam.Data.RefreshTokens.Loops.{OnRedis-re_add, OnRedis-del_all}

module _ ⦃e : Env⦄ where
  pub OnRedis-save :
      (user_id token : Str) (ttl : ℕ) (w : World e)
      → OnRedis w (save_refresh_token user_id token ttl w).1
  unfolding save_refresh_token redis_set redis_s_add redis_expire ◌>>=◌
  OnRedis-save user_id token ttl w = record {
    users = ground arith;
    applications = ground arith;
    source = ground arith;
    outbox = ground arith;
    clock = ground arith;
  }

  pub OnRedis-get : (token : Str) (w : World e) → OnRedis w (get_refresh_token token w).1
  unfolding get_refresh_token redis_get
  OnRedis-get token w = record {
    users = refl;
    applications = refl;
    source = refl;
    outbox = refl;
    clock = refl;
  }

  OnRedis-delete_found :
      (token : Str) (r : Result Str) (w : World e) → OnRedis w (delete_found token r w).1
  unfolding delete_found redis_del redis_s_members ◌>>=◌
  OnRedis-delete_found token (err x) w = record {
    users = refl;
    applications = refl;
    source = refl;
    outbox = refl;
    clock = refl;
  }
  OnRedis-delete_found token (ok u) w =
      let key = user_tokens_key u in
      let w_members : World e = (redis_s_members key (redis_del (refresh_key token) w).1).1 in
      let w_emptied : World e = (redis_del key w_members).1 in
      elim (Result-cases (redis_s_members key (redis_del (refresh_key token) w).1).0) [
        | inl (x, failed) ↦ record {
          users = ground arith;
          applications = ground arith;
          source = ground arith;
          outbox = ground arith;
          clock = ground arith;
        }
        | inr (ts, read) ↦
            let looped = OnRedis-re_add key token ts w_emptied in
            record {
              users = ground (arith, looped.users);
              applications = ground (arith, looped.applications);
              source = ground (arith, looped.source);
              outbox = ground (arith, looped.outbox);
              clock = ground (arith, looped.clock);
            }
      ]

  pub OnRedis-delete : (token : Str) (w : World e) → OnRedis w (delete_refresh_token token w).1
  unfolding delete_refresh_token ◌>>=◌
  OnRedis-delete token w =
      let got = OnRedis-get token w in
      let gone =
        OnRedis-delete_found token (get_refresh_token token w).0 (get_refresh_token token w).1 in
      record {
        users = gone.users ∙ got.users;
        applications = gone.applications ∙ got.applications;
        source = gone.source ∙ got.source;
        outbox = gone.outbox ∙ got.outbox;
        clock = gone.clock ∙ got.clock;
      }

  pub OnRedis-delete_user :
      (user_id : Str) (w : World e) → OnRedis w (delete_user_refresh_tokens user_id w).1
  unfolding delete_user_refresh_tokens redis_del redis_s_members ◌>>=◌
  OnRedis-delete_user user_id w =
      let key = user_tokens_key user_id in
      let w_read : World e = (redis_s_members key w).1 in
      elim (Result-cases (redis_s_members key w).0) [
        | inl (x, failed) ↦ record {
          users = ground arith;
          applications = ground arith;
          source = ground arith;
          outbox = ground arith;
          clock = ground arith;
        }
        | inr (ts, read) ↦
            let looped = OnRedis-del_all ts w_read in
            record {
              users = ground (arith, looped.users);
              applications = ground (arith, looped.applications);
              source = ground (arith, looped.source);
              outbox = ground (arith, looped.outbox);
              clock = ground (arith, looped.clock);
            }
      ]
