-- ===== src/Server.antt =====
-- The gateway's ForwardAuth endpoint: forwardAuthVerify of
-- app/iam/service/internal/server/http.go. A response is its status with the X-User-ID header.
pub mod Gateway
pub mod Operations
pub mod Access
use servora_iam.Prelude.{ℕ, Option, none, some, Str}
use servora_iam.Errors.{Result, ok, err}
use servora_iam.Platform.World.{Env, World}
use servora_iam.Biz.Config.{Config}
use servora_iam.Service.Header.{verify_authorization_header}

pub data Method : Type 0 where
  get head post other : Method

pub record Response : Type 0 where
  pub status : ℕ
  pub x_user_id : Option Str

abbrev pub bare : ℕ → Response
bare status = record { status = status; x_user_id = none }

unfoldable pub response_of : Result Str → Response
response_of (ok user_id) = record { status = 204; x_user_id = some user_id }
response_of (err x) = bare 401

module _ ⦃e : Env⦄ (cfg : Config) where
  unfoldable pub answer : (authorization : Str) → World e → Response × World e
  answer authorization w =
      let (r, w') = verify_authorization_header cfg authorization w in (response_of r, w')

  -- GET and HEAD /v1/auth/verify
  unfoldable pub forward_auth_verify : Method → (authorization : Str) → World e → Response × World e
  forward_auth_verify get authorization w = answer authorization w
  forward_auth_verify head authorization w = answer authorization w
  forward_auth_verify post authorization w = (bare 405, w)
  forward_auth_verify other authorization w = (bare 405, w)
