-- ===== src/Biz/Users.antt =====
-- The administration of users: app/iam/service/internal/biz/user.go. The authentication use case is
-- always there, as app/iam/service/cmd/server/wire_gen.go builds it.
pub mod Frames
pub mod Updating
pub mod Enrolled
pub mod Creating
pub mod Deleting
pub mod Pages
use servora_iam.Prelude.{
  ℕ, Bool, List, true, false, not, ◌&&◌, Str, String, ◌==◌, bytes, is_empty, if◌then◌else◌,
}
use servora_iam.Errors.{Error, Reason, Result, ok, err, kratos, failure, not_found}
use servora_iam.Exec.{Exec, pure, lift, on_error, attempt, ensure, as_reason, ◌>>=◌, ◌>>◌}
use servora_iam.Platform.World.{Env, World, Action, bcrypt_hash}
use servora_iam.Data.Mapper.{User}
use servora_iam.Data.AuthnRepo.{get_user_by_user_name, get_user_by_email, role_user}
use servora_iam.Data.RefreshTokens.{delete_user_refresh_tokens}
use servora_iam.Data.UserRepo
use servora_iam.Biz.Config.{Config}
use servora_iam.Biz.Authn.{check_free, internal, send_verification_email}

abbrev absent : Error → Error
absent = as_reason Reason.user_not_found "user not found"

-- `value != "" && value != old`
unfoldable pub is_new : Str → Str → Bool
is_new value old = not (is_empty value) && not (value == old)

module _ ⦃e : Env⦄ where
  unfoldable pub current_user_info : (caller_id : Str) → Action User
  current_user_info caller_id = do
    ensure (not (is_empty caller_id)) (kratos Reason.unauthorized "user not authenticated")
    on_error absent (UserRepo.get_user_by_id caller_id)

  unfoldable pub get_user : (id : Str) → Action User
  get_user id = on_error absent (UserRepo.get_user_by_id id)

  -- The names that an update may not take from another user.
  unfoldable pub check_user_name : Bool → Str → Action Unit
  check_user_name false name = pure tt
  check_user_name true name = do
    found ← attempt (get_user_by_user_name name)
    lift (check_free found "username already exists")

  unfoldable pub check_email : Bool → Str → Action Unit
  check_email false email = pure tt
  check_email true email = do
    found ← attempt (get_user_by_email email)
    lift (check_free found "email already exists")

  unfoldable pub update_user : (caller_id : Str) → User → Action User
  update_user caller_id user = do
    ensure (not (is_empty caller_id)) (kratos Reason.unauthorized "user not authenticated")
    orig_user ← on_error absent (UserRepo.get_user_by_id user.id)
    ensure (caller_id == user.id)
        (kratos Reason.unauthorized "you can only update your own information")
    check_user_name (is_new user.username orig_user.username) user.username
    check_email (is_new user.email orig_user.email) user.email
    on_error (as_reason Reason.update_user_failed "failed to update user")
        (UserRepo.update_user user)

  unfoldable pub check_user_exists : (username email : Str) → Action Unit
  check_user_exists username email = do
    by_name ← attempt (get_user_by_user_name username)
    lift (check_free by_name "username already exists")
    by_email ← attempt (get_user_by_email email)
    lift (check_free by_email "email already exists")

  -- The defaults that CreateUser fills in.
  unfoldable pub with_defaults : User → User
  with_defaults user = record user {
    role = if is_empty user.role then role_user else user.role;
    email_verified = false;
  }

  unfoldable pub create_user : Config → User → (password : Str) → Action User
  create_user cfg user password = do
    check_user_exists user.username user.email
    hashed_password ←
        on_error (as_reason Reason.create_user_failed "failed to create user")
          (bcrypt_hash password)
    saved_user ←
        on_error (as_reason Reason.create_user_failed "failed to create user")
          (UserRepo.save_user (with_defaults user) hashed_password)
    attempt (send_verification_email cfg saved_user)
    pure saved_user

  unfoldable pub list_users : (page page_size : ℕ) → Action (List User × ℕ)
  list_users page page_size = on_error internal (UserRepo.list_users page page_size)

  unfoldable pub delete_user : (id : Str) → Action Bool
  delete_user id = do
    on_error absent (UserRepo.get_user_by_id id)
    on_error (as_reason Reason.delete_user_failed "failed to delete user") (UserRepo.delete_user id)
    pure true

  unfoldable pub purge_user : (id : Str) → Action Bool
  purge_user id = do
    on_error (as_reason Reason.delete_user_failed "failed to delete user")
        (UserRepo.purge_cascade id)
    attempt (delete_user_refresh_tokens id)
    pure true

  unfoldable pub restore_user : (id : Str) → Action User
  restore_user id = do
    on_error absent (UserRepo.get_user_by_id_including_deleted id)
    UserRepo.restore_user id
