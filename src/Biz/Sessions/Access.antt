-- ===== src/Biz/Sessions/Access.antt =====
-- The access token of a login of app/iam/service/internal/biz/authn.go, as VerifyAccessToken judges it.
use servora_iam.Prelude.{
  sym, ℕ, ◌+◌, ◌*◌, ◌<◌, ◌≡◌, false, Str, arith, ltb, if◌then◌else◌, is_empty,
}
use servora_iam.Errors.{Reason, ok, err, kratos}
use servora_iam.Exec.{◌>>=◌}
use servora_iam.Platform.World.{Env, World}
use servora_iam.Platform.Crypto.{valid, expired}
use servora_iam.Data.Mapper.{User}
use servora_iam.Data.RefreshTokens.Index.{elapse}
use servora_iam.Biz.Config.{Config, second}
use servora_iam.Biz.Authn.{TokenPair, access_claims, subject_of}
use servora_iam.Biz.Sessions.{
  check_credentials, login_by_email_password, verify_access_token, refresh_lifetime,
}
use servora_iam.Biz.Sessions.Login.{login-IsSession, clock-login}

module _ ⦃e : Env⦄ (cfg : Config) where
  -- What the verifier says of the claims of a user.
  subject_of-claims :
      (u : User) (nonce : Str) (at now : ℕ)
      → is_empty u.id ≡ false
      → subject_of (
          if ltb now (access_claims cfg u nonce at).expires_at
          then valid (access_claims cfg u nonce at)
          else expired)
        ≡ (if ltb now (e.jwt.numeric_date (at + cfg.access_expire * second))
            then ok u.id
            else err (kratos Reason.token_expired "token expired"))
  unfolding subject_of access_claims
  subject_of-claims u nonce at now given = ground arith

  -- Where the lifetime of a refresh token is positive, the access token of a login is accepted as one
  -- of the user with the credentials, whose id is not empty, until the time that it names has passed,
  -- and is TOKEN_EXPIRED from then on.
  pub verify_access_token-login :
      (email password : Str) (w : World e) (pair : TokenPair) (u : User) (d : ℕ)
      → 0 < refresh_lifetime cfg
      → (login_by_email_password cfg email password w).0 ≡ ok pair
      → (check_credentials cfg email password w).0 ≡ ok u
      → is_empty u.id ≡ false
      → (verify_access_token cfg pair.access_token
          (elapse d (login_by_email_password cfg email password w).1)).0
        ≡ (if ltb (w.clock + d) (e.jwt.numeric_date (w.clock + cfg.access_expire * second))
            then ok u.id
            else err (kratos Reason.token_expired "token expired"))
  unfolding verify_access_token ◌>>=◌
  verify_access_token-login email password w pair u d positive done checked given =
      let (v, checked', session) = login-IsSession cfg email password w pair done positive in
      let same : v ≡ u = cc in
      let (nonce, signed) = session.signed in
      let judged = subject_of-claims v nonce w.clock (w.clock + d) (rw same given) in
      let verified = e.jwt.verify-sign (access_claims cfg v nonce w.clock) (w.clock + d) signed in
      rw (clock-login cfg email password w pair done, verified, sym same) judged
