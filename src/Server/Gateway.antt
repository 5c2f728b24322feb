-- ===== src/Server/Gateway.antt =====
-- What the gateway learns of a request: forwardAuthVerify of
-- app/iam/service/internal/server/http.go on the tokens of a login of
-- app/iam/service/internal/biz/authn.go.
use servora_iam.Prelude.{
  ℕ, ◌+◌, ◌*◌, ◌<◌, ◌≡◌, refl, false, some, ◌⊎◌, inl, inr, Str, bytes, ltb, if◌then◌else◌, is_empty,
  ◌++◌, arith, ap,
}
use servora_iam.Errors.{ok}
use servora_iam.Platform.World.{Env, World}
use servora_iam.Data.Mapper.{User}
use servora_iam.Data.RefreshTokens.Index.{elapse}
use servora_iam.Biz.Config.{Config, second}
use servora_iam.Biz.Authn.{TokenPair}
use servora_iam.Biz.Sessions.{
  check_credentials, login_by_email_password, refresh_lifetime, verify_access_token,
}
use servora_iam.Biz.Sessions.Access.{verify_access_token-login}
use servora_iam.Service.Header.{trim_right, verify_authorization_header-bearer}
use servora_iam.Server.{Method, bare, response_of, answer, forward_auth_verify, get, head}

module _ ⦃e : Env⦄ (cfg : Config) where
  answer-bearer :
      (token : Str) (w : World e)
      → trim_right token ≡ token
      → is_empty token ≡ false
      → (answer cfg (bytes "Bearer " ++ token) w).0
        ≡ response_of (verify_access_token cfg token w).0
  unfolding answer
  answer-bearer token w tight full =
      ap response_of (verify_authorization_header-bearer cfg token w tight full)

  reads-answer :
      (m : Method) (authorization : Str) (w : World e)
      → (m ≡ get) ⊎ (m ≡ head)
      → forward_auth_verify cfg m authorization w ≡ answer cfg authorization w
  unfolding forward_auth_verify
  reads-answer m authorization w (inl h) = rw h refl
  reads-answer m authorization w (inr h) = rw h refl

  -- Where the lifetime of a refresh token is positive, and the access token that a login hands out
  -- is not empty and does not end in a space, a GET or HEAD with it as the bearer is answered 204
  -- with the id of the user with the credentials, which is not empty, until the time that the token
  -- names has passed, and 401 without an id from then on.
  pub forward_auth_verify-login :
      (m : Method) (email password : Str) (w : World e) (pair : TokenPair) (u : User) (d : ℕ)
      → (m ≡ get) ⊎ (m ≡ head)
      → 0 < refresh_lifetime cfg
      → (login_by_email_password cfg email password w).0 ≡ ok pair
      → (check_credentials cfg email password w).0 ≡ ok u
      → is_empty u.id ≡ false
      → trim_right pair.access_token ≡ pair.access_token
      → is_empty pair.access_token ≡ false
      → (forward_auth_verify cfg m
          (bytes "Bearer " ++ pair.access_token)
          (elapse d (login_by_email_password cfg email password w).1)).0
        ≡ (if ltb (w.clock + d) (e.jwt.numeric_date (w.clock + cfg.access_expire * second))
            then record { status = 204; x_user_id = some u.id }
            else bare 401)
  unfolding response_of
  forward_auth_verify-login m email password w pair u d reads positive done checked given tight
        full =
      let w' : World e = elapse d (login_by_email_password cfg email password w).1 in
      let judged =
        verify_access_token-login cfg email password w pair u d positive done checked given in
      rw
        (
          reads-answer m (bytes "Bearer " ++ pair.access_token) w' reads,
          answer-bearer pair.access_token w' tight full,
          judged,
        )
        (ground arith)
