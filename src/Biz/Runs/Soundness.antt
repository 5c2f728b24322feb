-- ===== src/Biz/Runs/Soundness.antt =====
-- The sets of tokens after any requests of app/iam/service/internal/biz/authn.go.
use servora_iam.Prelude.{◌<◌, ◌≡◌, refl, Str, arith}
use servora_iam.Errors.{ok}
use servora_iam.Platform.World.{Env, World}
use servora_iam.Data.RefreshTokens.Answers.{delete_user-Answers}
use servora_iam.Data.RefreshTokens.Revocation.{delete_user_revokes}
use servora_iam.Data.RefreshTokens.Frames.{OnRedis-delete_user}
use servora_iam.Biz.Config.{Config}
use servora_iam.Biz.Sessions.{logout_all_devices, refresh_lifetime}
use servora_iam.Biz.Sessions.Passwords.{IsSignedOut}
use servora_iam.Biz.Runs.{
  Request, login, renew, leave, leave_all, change, confirm, reset, wait, run, Reaches, start, next,
}
use servora_iam.Biz.Runs.Store.{IsSound}
use servora_iam.Biz.Runs.Requests.{
  IsSound-login, IsSound-refresh, IsSound-logout, IsSound-logout_all, IsSound-change,
  IsSound-confirm, IsSound-reset, IsSound-wait,
}

module _ ⦃e : Env⦄ (cfg : Config) (positive : 0 < refresh_lifetime cfg) where
  run-IsSound : (r : Request) (w : World e) → IsSound cfg w → IsSound cfg (run cfg r w)
  unfolding run
  run-IsSound (login email password) w s = IsSound-login cfg positive email password w s
  run-IsSound (renew token) w s = IsSound-refresh cfg positive token w s
  run-IsSound (leave token) w s = IsSound-logout cfg positive token w s
  run-IsSound (leave_all user_id) w s = IsSound-logout_all cfg positive user_id w s
  run-IsSound (change user_id old new) w s = IsSound-change cfg positive user_id old new w s
  run-IsSound (confirm token) w s = IsSound-confirm cfg positive token w s
  run-IsSound (reset token new) w s = IsSound-reset cfg positive token new w s
  run-IsSound (wait d) w s = IsSound-wait cfg positive d w s

  -- While Redis answers and the lifetime of refresh tokens is positive, the sets of tokens stay
  -- complete whatever requests come: logins, refreshes, logouts, changes and resets of passwords and
  -- verifications, with or without success, and time between them.
  pub Reaches-IsSound : {w v : World e} → Reaches cfg w v → IsSound cfg w → IsSound cfg v
  Reaches-IsSound start s = s
  Reaches-IsSound (next {v = v} before r) s = run-IsSound r v (Reaches-IsSound before s)

  -- While Redis answers and the lifetime of refresh tokens is positive, a LogoutAllDevices after any
  -- such requests succeeds and ends every session of the user.
  pub logout_all-Reaches :
      {w v : World e} (user_id : Str)
      → Reaches cfg w v
      → IsSound cfg w
      → ((logout_all_devices cfg user_id v).0 ≡ ok tt)
        × IsSignedOut user_id (logout_all_devices cfg user_id v).1
  unfolding logout_all_devices
  logout_all-Reaches {w} {v} user_id before s =
      let sound = Reaches-IsSound before s in
      let (done, _) = delete_user-Answers user_id v sound.ready in
      let only_redis = OnRedis-delete_user user_id v in
      (
        rw done refl,
        λ n t le.
            delete_user_revokes (refresh_lifetime cfg) user_id v sound.indexed done n t
              (omega (arith, only_redis.clock)),
      )
