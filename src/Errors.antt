-- ===== src/Errors.antt =====
-- The errors of the service. Kratos errors carry a reason and a message, as the constructors of
-- api/gen/go/servora/*/service/v1/*_errors.pb.go and `kerrors.InternalServer` build them; the two
-- others are what the repositories return: an error that wraps `biz.ErrNotFound`
-- (app/iam/service/internal/biz/biz.go), and any other Go error.
use servora_iam.Prelude.{ℕ, String}

pub data Reason : Type 0 where
  internal bad_request missing_fields unauthenticated : Reason
  user_not_found user_already_exists incorrect_password invalid_credentials : Reason
  token_expired missing_token unauthorized invalid_refresh_token email_not_verified : Reason
  invalid_captcha delete_user_failed update_user_failed create_user_failed : Reason
  application_create_failed : Reason

pub data Error : Type 0 where
  not_found : Error
  failure : Error
  kratos : Reason → String → Error

pub data Result (A : Type 0) : Type 0 where
  ok : A → Result A
  err : Error → Result A

-- The HTTP status of a reason.
pub code : Reason → ℕ
code Reason.internal = 500
code Reason.bad_request = 400
code Reason.missing_fields = 400
code Reason.unauthenticated = 401
code Reason.user_not_found = 404
code Reason.user_already_exists = 400
code Reason.incorrect_password = 401
code Reason.invalid_credentials = 401
code Reason.token_expired = 401
code Reason.missing_token = 401
code Reason.unauthorized = 403
code Reason.invalid_refresh_token = 401
code Reason.email_not_verified = 403
code Reason.invalid_captcha = 400
code Reason.delete_user_failed = 500
code Reason.update_user_failed = 500
code Reason.create_user_failed = 500
code Reason.application_create_failed = 500

-- `kerrors.FromError(err).Code`: an error that is no Kratos error has code 500.
pub status_code : Error → ℕ
unfolding code
status_code not_found = 500
status_code failure = 500
status_code (kratos r m) = code r
