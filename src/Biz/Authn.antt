-- ===== src/Biz/Authn.antt =====
-- The authentication use cases: app/iam/service/internal/biz/authn.go. An error that the source
-- logs and hands on as another error is replaced; one that it logs and drops is handed on as a value.
use servora_iam.Prelude.{
  ℕ, ◌+◌, ◌*◌, false, Option, none, some, [], ◌∷◌, ◌++◌, Str, String, bytes, is_empty, ℤ, pos,
  negsuc, ltb, if◌then◌else◌,
}
use servora_iam.Errors.{Error, Reason, Result, ok, err, not_found, failure, kratos}
use servora_iam.Exec.{pure, lift, or_raise, on_error, attempt, as_reason, ◌>>=◌, ◌>>◌}
use servora_iam.Platform.Crypto.{UserClaims, Verdict, valid, expired, invalid}
use servora_iam.Platform.Mailer.{Email}
use servora_iam.Platform.World.{Env, Action, rand_read, bcrypt_hash, send_mail, hex}
use servora_iam.Data.Mapper.{User}
use servora_iam.Data.AuthnRepo.{save_user, get_user_by_user_name, get_user_by_email, role_user}
use servora_iam.Data.Otp.{set_token}
use servora_iam.Biz.Config.{Config, MailConfig, second, hour, base_url}
use servora_iam.Biz.MailRender.{Rendered, render_verify_email, default_from}

pub record TokenPair : Type 0 where
  pub access_token : Str
  pub refresh_token : Str
  pub expires_in : ℕ

-- kerrors.InternalServer("INTERNAL", "internal error")
abbrev pub internal : Error → Error
internal = as_reason Reason.internal "internal error"

abbrev pub purpose_verify_email : Str
purpose_verify_email = bytes "verify_email"

abbrev pub purpose_reset_password : Str
purpose_reset_password = bytes "reset_password"

abbrev default_verify_email_ttl : ℕ
default_verify_email_ttl = 24 * hour

abbrev default_reset_password_ttl : ℕ
default_reset_password_ttl = hour

-- A configured duration if it is positive, else the default.
unfoldable pub positive_or : ℕ → Option ℤ → ℕ
positive_or default none = default
positive_or default (some (pos d)) = if ltb 0 d then d else default
positive_or default (some (negsuc d)) = default

unfoldable pub verify_email_ttl : Option MailConfig → ℕ
unfolding positive_or
verify_email_ttl none = default_verify_email_ttl
verify_email_ttl (some m) = positive_or default_verify_email_ttl m.verify_email_ttl

unfoldable pub reset_password_ttl : Option MailConfig → ℕ
unfolding positive_or
reset_password_ttl none = default_reset_password_ttl
reset_password_ttl (some m) = positive_or default_reset_password_ttl m.reset_password_ttl

unfoldable pub build_token_link : Option MailConfig → (path token : Str) → Str
build_token_link m path token = base_url m ++ (path ++ (bytes "?token=" ++ token))

-- `err != nil && !errors.Is(err, ErrNotFound)`: not found is no error, and finds nobody.
unfoldable pub check_free : Result User → String → Result Unit
check_free (ok u) taken = err (kratos Reason.user_already_exists taken)
check_free (err not_found) taken = ok tt
check_free (err failure) taken = err (internal failure)
check_free (err (kratos r m)) taken = err (internal failure)

-- The error of a login whose look-up by email failed.
unfoldable pub login_lookup_error : Error → Error
login_lookup_error not_found = kratos Reason.user_not_found "invalid email or password"
login_lookup_error failure = internal failure
login_lookup_error (kratos r m) = internal failure

-- How VerifyAccessToken reads the verifier's answer.
unfoldable pub subject_of : Verdict → Result Str
subject_of (valid c) =
    if is_empty c.subject
    then err (kratos Reason.invalid_credentials "token missing subject")
    else ok c.subject
subject_of expired = err (kratos Reason.token_expired "token expired")
subject_of invalid = err (kratos Reason.invalid_credentials "invalid token")

-- The user of SignupByEmail.
abbrev pub new_user : (username email : Str) → User
new_user username email = record {
  id = [];
  username = username;
  email = email;
  phone = [];
  phone_verified = false;
  role = role_user;
  status = [];
  email_verified = false;
  email_verified_at = none;
  profile = none;
}

module _ ⦃e : Env⦄ (cfg : Config) where
  unfoldable pub generate_opaque_token : Action Str
  generate_opaque_token = do bs ← rand_read 32; pure (hex bs)

  unfoldable pub token_hash : Str → Str
  token_hash raw = hex (e.crypto.sha256 raw)

  -- `mail.Email{From: …, To: …, Subject: …, HTML: …}`
  unfoldable pub mail_to : Str → Rendered → Email
  mail_to address r = record {
    from = default_from cfg.mail;
    to = address ∷ [];
    cc = [];
    bcc = [];
    subject = r.subject;
    text = [];
    html = r.html;
  }

  unfoldable pub send_verification_email : User → Action Unit
  send_verification_email user = do
    raw ← generate_opaque_token
    set_token purpose_verify_email (token_hash raw) user.id (verify_email_ttl cfg.mail)
    mail ← lift (
        render_verify_email e.mailer cfg.mail
          (build_token_link cfg.mail (bytes "/verify-email") raw) (verify_email_ttl cfg.mail))
    send_mail (mail_to user.email mail)

  unfoldable pub signup_by_email : (username email password : Str) → Action User
  signup_by_email username email password = do
    by_name ← attempt (get_user_by_user_name username)
    lift (check_free by_name "username already exists")
    by_email ← attempt (get_user_by_email email)
    lift (check_free by_email "email already exists")
    hashed_password ← on_error internal (bcrypt_hash password)
    created_user ← save_user (new_user username email) hashed_password
    attempt (send_verification_email created_user)
    pure created_user

  -- The claims of an access token for a user.
  unfoldable pub access_claims : User → (nonce : Str) (now : ℕ) → UserClaims
  access_claims user nonce now = record {
    id = user.id;
    username = user.username;
    role = user.role;
    nonce = nonce;
    subject = user.id;
    audience = cfg.audience;
    expires_at = e.jwt.numeric_date (now + cfg.access_expire * second);
    issued_at = e.jwt.numeric_date now;
    issuer = cfg.issuer;
  }

  unfoldable pub generate_access_token : UserClaims → Action Str
  generate_access_token claims = or_raise (e.jwt.sign claims) failure
