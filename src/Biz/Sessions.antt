-- ===== src/Biz/Sessions.antt =====
-- Sessions: the login, the refresh and the end of a session in
-- app/iam/service/internal/biz/authn.go.
pub mod Access
pub mod Credentials
pub mod Frames
pub mod Login
pub mod Passwords
pub mod Rotation
use servora_iam.Prelude.{ℕ, ◌*◌, Bool, Str}
use servora_iam.Errors.{Reason, kratos}
use servora_iam.Exec.{pure, lift, gets, on_error, attempt, ensure, as_reason, ◌>>=◌, ◌>>◌}
use servora_iam.Platform.World.{Env, World, Action, bcrypt_hash, bcrypt_check}
use servora_iam.Data.Mapper.{User}
use servora_iam.Data.AuthnRepo.{
  get_user_by_email, get_user_by_id, get_password_hash, update_password,
}
use servora_iam.Data.RefreshTokens.{
  save_refresh_token, get_refresh_token, delete_refresh_token, delete_user_refresh_tokens,
}
use servora_iam.Biz.Config.{Config, second}
use servora_iam.Biz.Authn.{
  TokenPair, internal, login_lookup_error, subject_of, generate_opaque_token, access_claims,
  generate_access_token,
}

module _ ⦃e : Env⦄ (cfg : Config) where
  unfoldable pub refresh_lifetime : ℕ
  refresh_lifetime = cfg.refresh_expire * second

  -- The credentials of a login: the user, if the password is right and the email is verified.
  unfoldable pub check_credentials : (email password : Str) → Action User
  check_credentials email password = do
    found_user ← on_error login_lookup_error (get_user_by_email email)
    hash ← on_error internal (get_password_hash found_user.id)
    ensure (bcrypt_check password hash)
        (kratos Reason.incorrect_password "invalid email or password")
    ensure found_user.email_verified
        (kratos Reason.email_not_verified "please verify your email before logging in")
    pure found_user

  -- A signed access token for a user.
  unfoldable pub new_access_token : User → Action Str
  new_access_token user = do
    nonce ← on_error internal (generate_opaque_token cfg)
    now ← gets (λ (w : World e). w.clock)
    on_error internal (generate_access_token cfg (access_claims cfg user nonce now))

  unfoldable pub login_by_email_password : (email password : Str) → Action TokenPair
  login_by_email_password email password = do
    found_user ← check_credentials email password
    access_token ← new_access_token found_user
    refresh_token ← on_error internal (generate_opaque_token cfg)
    on_error internal (save_refresh_token found_user.id refresh_token refresh_lifetime)
    pure (record {
      access_token = access_token;
      refresh_token = refresh_token;
      expires_in = cfg.access_expire;
    })

  -- `RefreshToken`
  unfoldable pub refresh : (refresh_token : Str) → Action TokenPair
  refresh refresh_token = do
    user_id ←
        on_error (as_reason Reason.invalid_refresh_token "invalid or expired refresh token")
          (get_refresh_token refresh_token)
    user ← on_error internal (get_user_by_id user_id)
    access_token ← new_access_token user
    new_refresh_token ← on_error internal (generate_opaque_token cfg)
    attempt (delete_refresh_token refresh_token)
    on_error internal (save_refresh_token user.id new_refresh_token refresh_lifetime)
    pure (record {
      access_token = access_token;
      refresh_token = new_refresh_token;
      expires_in = cfg.access_expire;
    })

  unfoldable pub logout : (refresh_token : Str) → Action Unit
  logout refresh_token = do attempt (delete_refresh_token refresh_token); pure tt

  unfoldable pub change_password : (user_id current_password new_password : Str) → Action Unit
  change_password user_id current_password new_password = do
    hash ← on_error internal (get_password_hash user_id)
    ensure (bcrypt_check current_password hash)
        (kratos Reason.incorrect_password "current password is incorrect")
    hashed ← on_error internal (bcrypt_hash new_password)
    on_error internal (update_password user_id hashed)
    attempt (delete_user_refresh_tokens user_id)
    pure tt

  unfoldable pub logout_all_devices : (user_id : Str) → Action Unit
  logout_all_devices user_id = on_error internal (delete_user_refresh_tokens user_id)

  -- VerifyAccessToken
  unfoldable pub verify_access_token : (token : Str) → Action Str
  verify_access_token token = do
    now ← gets (λ (w : World e). w.clock)
    lift (subject_of (e.jwt.verify token now))
