-- ===== src/Biz/Users/Enrolled.antt =====
-- What CreateUser of app/iam/service/internal/biz/user.go and SignupByEmail of
-- app/iam/service/internal/biz/authn.go have in common: the row that is added.
use servora_iam.Prelude.{◌≡◌, ap, ◌∙◌, refl, true, false, [], ◌∷◌, ◌++◌, Str, arith, none, any}
use servora_iam.Errors.{ok}
use servora_iam.Exec.{◌>>=◌}
use servora_iam.Platform.Rows.{UserRow, users_schema}
use servora_iam.Platform.World.{
  Env, World, bcrypt_hash, bcrypt_check, users_insert, new_uuid, redis_set, send_mail, rand_read,
}
use servora_iam.Data.Mapper.{User, to_proto}
use servora_iam.Data.AuthnRepo.{parse_id, get_user_by_user_name}
use servora_iam.Data.AuthnRepo.Updates.{rows_of, users_insert-eq-ok}
use servora_iam.Data.Otp.{set_token}
use servora_iam.Data.UserRepo.{id_or_new}
use servora_iam.Biz.Config.{Config}
use servora_iam.Biz.Authn.{send_verification_email, generate_opaque_token}
use servora_iam.Biz.Users.{check_user_exists}
use servora_iam.Biz.Users.Frames.{rows-get_user_by_user_name, rows-get_user_by_email}

module _ ⦃e : Env⦄ where
  -- A row was added that collides with none, is not verified, and has a hash of the password.
  pub record IsEnrolled (name address secret role_name : Str) (u : User) (w w' : World e)
      : Type 0 where
    pub row : UserRow
    pub message : u ≡ to_proto e.crypto row
    pub username : row.username ≡ name
    pub email : row.email ≡ address
    pub role : row.role ≡ role_name
    pub email_verified : row.email_verified ≡ false
    pub deleted_at : row.deleted_at ≡ none
    pub checks : bcrypt_check secret row.password ≡ true
    pub unique : any (users_schema.clash row) (rows_of w) ≡ false
    pub rows : rows_of w' ≡ rows_of w ++ row ∷ []

  pub rows-bcrypt_hash :
      (password : Str) (w : World e) → rows_of (bcrypt_hash password w).1 ≡ rows_of w
  unfolding bcrypt_hash
  rows-bcrypt_hash password w = refl

  pub rows-send :
      (cfg : Config) (u : User) (w : World e)
      → rows_of (send_verification_email cfg u w).1 ≡ rows_of w
  unfolding send_verification_email generate_opaque_token rand_read set_token redis_set send_mail
      ◌>>=◌
  rows-send cfg u w = ground arith

  pub rows-check_user_exists :
      (username email : Str) (w : World e)
      → rows_of (check_user_exists username email w).1 ≡ rows_of w
  unfolding check_user_exists ◌>>=◌
  rows-check_user_exists username email w =
      let first = rows-get_user_by_user_name username w in
      let second = rows-get_user_by_email email (get_user_by_user_name username w).1 in ground arith

  pub rows-id_or_new : (id : Str) (w : World e) → rows_of (id_or_new id w).1 ≡ rows_of w
  unfolding id_or_new new_uuid parse_id
  rows-id_or_new id w = ground arith

  pub inserted :
      (row : UserRow) (w : World e)
      → (users_insert row w).0 ≡ ok tt
      → (any (users_schema.clash row) (rows_of w) ≡ false)
        × (rows_of (users_insert row w).1 ≡ rows_of w ++ row ∷ [])
  inserted row w h =
      let (_, done, moved) = users_insert-eq-ok row w h in
      (
        e.users.insert_unique row w.users done,
        ap rows_of moved ∙ e.users.insert_rows row w.users done,
      )
