-- ===== src/Biz/Runs.antt =====
-- Requests in any order, with time between them: what the sessions of
-- app/iam/service/internal/biz/authn.go go through.
pub mod Store
pub mod Requests
pub mod Soundness
use servora_iam.Prelude.{ℕ, Str}
use servora_iam.Platform.World.{Env, World}
use servora_iam.Data.RefreshTokens.Index.{elapse}
use servora_iam.Biz.Config.{Config}
use servora_iam.Biz.Sessions.{
  login_by_email_password, refresh, logout, change_password, logout_all_devices,
}
use servora_iam.Biz.Links.{reset_password, verify_email}

pub data Request : Type 0 where
  login : (email password : Str) → Request
  renew : (refresh_token : Str) → Request
  leave : (refresh_token : Str) → Request
  leave_all : (user_id : Str) → Request
  change : (user_id current_password new_password : Str) → Request
  confirm : (token : Str) → Request
  reset : (token new_password : Str) → Request
  wait : ℕ → Request

module _ ⦃e : Env⦄ (cfg : Config) where
  -- The state after a request, whether it succeeds or not.
  unfoldable pub run : Request → World e → World e
  run (login email password) w = (login_by_email_password cfg email password w).1
  run (renew refresh_token) w = (refresh cfg refresh_token w).1
  run (leave refresh_token) w = (logout cfg refresh_token w).1
  run (leave_all user_id) w = (logout_all_devices cfg user_id w).1
  run (change user_id current_password new_password) w =
      (change_password cfg user_id current_password new_password w).1
  run (confirm token) w = (verify_email cfg token w).1
  run (reset token new_password) w = (reset_password cfg token new_password w).1
  run (wait d) w = elapse d w

  -- The states that requests lead to.
  pub data Reaches (w : World e) : World e → Type 0 where
    start : Reaches w w
    next : {v : World e} → Reaches w v → (r : Request) → Reaches w (run r v)
