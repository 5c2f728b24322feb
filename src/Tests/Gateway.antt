-- ===== src/Tests/Gateway.antt =====
-- The gateway's endpoint, at the login of the tests.
use servora_iam.Prelude.{◌≡◌, refl, inl, some, ◌++◌, bytes}
use servora_iam.Data.Mapper.{to_proto}
use servora_iam.Data.RefreshTokens.Index.{elapse}
use servora_iam.Biz.Sessions.{login_by_email_password}
use servora_iam.Service.Header.{trim_right, is_space}
use servora_iam.Server.{Method, bare, get, forward_auth_verify}
use servora_iam.Server.Gateway.{forward_auth_verify-login}
use servora_iam.Biz.Authn.{access_claims}
use servora_iam.Platform.World.{hex}
use servora_iam.Tests.Memory.{memory}
use servora_iam.Tests.Worlds.{town, settings}
use servora_iam.Tests.Sessions.{pair, bob_user, login_done, lifetime_pos, bob_checked}

pair_tight : trim_right pair.access_token ≡ pair.access_token
unfolding trim_right is_space to_proto access_claims hex
pair_tight = refl

forward_auth_verify-login_example :
    (forward_auth_verify settings get
      (bytes "Bearer " ++ pair.access_token)
      (elapse 1 (login_by_email_password settings (bytes "bob@x") (bytes "secret") town).1)).0
    ≡ record { status = 204; x_user_id = some (bytes "b") }
unfolding to_proto
forward_auth_verify-login_example =
    forward_auth_verify-login settings get (bytes "bob@x") (bytes "secret") town pair bob_user 1
      (inl refl) lifetime_pos login_done bob_checked refl pair_tight refl

forward_auth_verify_post :
    (forward_auth_verify settings Method.post (bytes "Bearer x") town).0 ≡ bare 405
unfolding forward_auth_verify
forward_auth_verify_post = refl
