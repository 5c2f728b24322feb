-- ===== src/Service.antt =====
-- The handlers of app/iam/service/internal/service/authn.go and user.go that check something before
-- they call the use cases. The actor of a request is put into its context by the authentication
-- middleware.
pub mod Header
pub mod Signup
pub mod Callers
pub mod Handlers
use servora_iam.Prelude.{
  ℕ, Bool, true, false, not, Option, none, some, List, [], ◌∷◌, Str, ◌==◌, is_empty, if◌then◌else◌,
}
use servora_iam.Errors.{Error, Reason, Result, ok, err, kratos}
use servora_iam.Exec.{pure, lift, attempt, ensure, raise, ◌>>=◌, ◌>>◌}
use servora_iam.Platform.World.{Env, World, Action}
use servora_iam.Data.Mapper.{User}
use servora_iam.Cap.{validate_token}
use servora_iam.Biz.Config.{Config}
use servora_iam.Biz.Authn.{signup_by_email}
use servora_iam.Biz.Sessions
use servora_iam.Biz.Links
use servora_iam.Biz.Users

-- actor.Actor, by its type and id.
pub data Actor : Type 0 where
  user : Str → Actor
  other : Str → Actor

pub record SignupRequest : Type 0 where
  pub name : Str
  pub email : Str
  pub password : Str
  pub password_confirm : Str
  pub cap_token : Str

pub record SignupResponse : Type 0 where
  pub id : Str
  pub name : Str
  pub email : Str
  pub role : Str

pub record ChangePasswordRequest : Type 0 where
  pub current_password : Str
  pub new_password : Str
  pub new_password_confirm : Str

-- requireAuthenticatedUser of scope.go, with the message of the error.
unfoldable pub caller : Option Actor → Error → Result Str
caller none x = err x
caller (some (user id)) x = ok id
caller (some (other id)) x = err x

-- `err != nil || !valid`
unfoldable pub captcha_valid : Result Bool → Bool
captcha_valid (ok b) = b
captcha_valid (err x) = false

module _ ⦃e : Env⦄ (cfg : Config) where
  -- SignupByEmail
  unfoldable pub signup : SignupRequest → Action SignupResponse
  signup req = do
    ensure (req.password == req.password_confirm)
        (kratos Reason.bad_request "password and confirm password do not match")
    ensure (not (is_empty req.cap_token))
        (kratos Reason.invalid_captcha "captcha token is required")
    valid ← attempt (validate_token req.cap_token)
    ensure (captcha_valid valid) (kratos Reason.invalid_captcha "invalid or expired captcha token")
    u ← signup_by_email cfg req.name req.email req.password
    pure (record { id = u.id; name = u.username; email = u.email; role = u.role })

  -- ChangePassword
  unfoldable pub change_password : Option Actor → ChangePasswordRequest → Action Unit
  change_password actor req = do
    ensure (req.new_password == req.new_password_confirm)
        (kratos Reason.bad_request "new password and confirm password do not match")
    id ← lift (caller actor (kratos Reason.unauthenticated "user not authenticated"))
    Sessions.change_password cfg id req.current_password req.new_password

  -- LogoutAllDevices
  unfoldable pub logout_all_devices : Option Actor → Action Unit
  logout_all_devices actor = do
    id ← lift (caller actor (kratos Reason.unauthenticated "user not authenticated"))
    Sessions.logout_all_devices cfg id

  -- ResetPassword
  unfoldable pub reset_password : (token new_password new_password_confirm : Str) → Action Unit
  reset_password token new_password new_password_confirm = do
    ensure (new_password == new_password_confirm)
        (kratos Reason.bad_request "new password and confirm password do not match")
    Links.reset_password cfg token new_password

  -- CurrentUserInfo
  unfoldable pub current_user_info : Option Actor → Action User
  current_user_info actor = do
    id ← lift (caller actor (kratos Reason.unauthenticated "unauthorized"))
    Users.current_user_info id

  -- UpdateUser, for a request that has data.
  unfoldable pub update_user : Option Actor → (id : Str) → User → Action User
  update_user actor id data_of = do
    caller_id ← lift (caller actor (kratos Reason.unauthenticated "unauthorized"))
    Users.update_user caller_id (record data_of { id = id })
