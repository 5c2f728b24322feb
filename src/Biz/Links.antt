-- ===== src/Biz/Links.antt =====
-- The links that are mailed, for the verification of an email address and for a new password, in
-- app/iam/service/internal/biz/authn.go.
pub mod Redeeming
pub mod MailedLinks
pub mod Mailing
use servora_iam.Prelude.{ℕ, Bool, true, false, Str, bytes}
use servora_iam.Errors.{Reason, Result, ok, err}
use servora_iam.Exec.{pure, lift, on_error, attempt, as_reason, ◌>>=◌, ◌>>◌}
use servora_iam.Platform.World.{Env, Action, bcrypt_hash, send_mail}
use servora_iam.Data.Mapper.{User}
use servora_iam.Data.AuthnRepo.{get_user_by_email, update_password, update_email_verified}
use servora_iam.Data.RefreshTokens.{delete_user_refresh_tokens}
use servora_iam.Data.Otp.{set_token, consume_token}
use servora_iam.Biz.Config.{Config}
use servora_iam.Biz.MailRender.{render_verify_email, render_reset_password}
use servora_iam.Biz.Authn.{
  internal, purpose_verify_email, purpose_reset_password, verify_email_ttl, reset_password_ttl,
  build_token_link, generate_opaque_token, token_hash, mail_to,
}

module _ ⦃e : Env⦄ (cfg : Config) where
  -- What RequestEmailVerification does for a user that it found and that is not verified yet.
  unfoldable pub mail_verification : User → Action Unit
  mail_verification user = do
    raw ← on_error internal (generate_opaque_token cfg)
    on_error internal
        (set_token purpose_verify_email (token_hash cfg raw) user.id (verify_email_ttl cfg.mail))
    mail ← on_error internal (
        lift (
          render_verify_email e.mailer cfg.mail
            (build_token_link cfg.mail (bytes "/verify-email") raw) (verify_email_ttl cfg.mail)))
    on_error (as_reason Reason.internal "failed to send email")
        (send_mail (mail_to cfg user.email mail))

  -- `if user.EmailVerified { return nil }`
  unfoldable pub mail_if_unverified : Bool → User → Action Unit
  mail_if_unverified true user = pure tt
  mail_if_unverified false user = mail_verification user

  unfoldable pub mail_verification_if_found : Result User → Action Unit
  mail_verification_if_found (err x) = pure tt
  mail_verification_if_found (ok user) = mail_if_unverified user.email_verified user

  unfoldable pub request_email_verification : (email : Str) → Action Unit
  request_email_verification email = do
    found ← attempt (get_user_by_email email)
    mail_verification_if_found found

  unfoldable pub verify_email : (token : Str) → Action Unit
  verify_email token = do
    user_id ←
        on_error (as_reason Reason.token_expired "invalid or expired verification token")
          (consume_token purpose_verify_email (token_hash cfg token))
    on_error internal (update_email_verified user_id true)

  unfoldable pub mail_reset_if_found : Result User → Action Unit
  mail_reset_if_found (err x) = pure tt
  mail_reset_if_found (ok user) = do
    raw ← on_error internal (generate_opaque_token cfg)
    on_error internal (
        set_token purpose_reset_password (token_hash cfg raw) user.id (reset_password_ttl cfg.mail))
    mail ← on_error internal (
        lift (
          render_reset_password e.mailer cfg.mail
            (build_token_link cfg.mail (bytes "/reset-password") raw)
            (reset_password_ttl cfg.mail)))
    on_error (as_reason Reason.internal "failed to send email")
        (send_mail (mail_to cfg user.email mail))

  unfoldable pub request_password_reset : (email : Str) → Action Unit
  request_password_reset email = do
    found ← attempt (get_user_by_email email)
    mail_reset_if_found found

  unfoldable pub reset_password : (token new_password : Str) → Action Unit
  reset_password token new_password = do
    user_id ←
        on_error (as_reason Reason.token_expired "invalid or expired reset token")
          (consume_token purpose_reset_password (token_hash cfg token))
    hashed ← on_error internal (bcrypt_hash new_password)
    on_error internal (update_password user_id hashed)
    attempt (delete_user_refresh_tokens user_id)
    pure tt
