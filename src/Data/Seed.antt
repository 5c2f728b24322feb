-- ===== src/Data/Seed.antt =====
-- What the service writes before it starts: app/iam/service/internal/data/seed.go. The client of the
-- relationship store is none where it is nil.
pub mod Admin
pub mod Starts
use servora_iam.Prelude.{
  Bool, true, false, Option, none, some, [], ◌∷◌, ◌++◌, Str, bytes, is_empty, if◌then◌else◌,
}
use servora_iam.Errors.{Error, Result, ok, err, not_found, failure, kratos}
use servora_iam.Exec.{Exec, pure, raise, attempt, ◌>>=◌, ◌>>◌}
use servora_iam.Platform.Fga.{Fga, FgaTuple}
use servora_iam.Platform.Rows.{UserRow}
use servora_iam.Platform.World.{
  Env, World, Action, users_insert, users_update, bcrypt_hash, new_uuid,
}
use servora_iam.Data.AuthnRepo.{the_user}
use servora_iam.Data.AuthnRepo.Queries.{with_email}

-- iamconf.Biz_Seed
pub record Seed : Type 0 where
  pub admin_email : Str
  pub admin_password : Str
  pub admin_name : Str

abbrev pub platform_object_id : Str
platform_object_id = bytes "default"

-- `if username == "" { username = "admin" }`
unfoldable pub admin_name_of : Seed → Str
admin_name_of seed = if is_empty seed.admin_name then bytes "admin" else seed.admin_name

-- The columns of a new administrator, the others at their defaults.
unfoldable pub admin_row : Seed → (pw id : Str) → UserRow
admin_row seed pw id = record {
  id = id;
  username = admin_name_of seed;
  email = seed.admin_email;
  password = pw;
  phone = [];
  phone_verified = false;
  role = bytes "admin";
  status = bytes "active";
  email_verified = true;
  email_verified_at = none;
  profile = none;
  deleted_at = none;
}

-- SetEmailVerified(true)
abbrev pub set_email_verified : UserRow → UserRow
set_email_verified r = record r { email_verified = true }

unfoldable pub updated_or : UserRow → Result UserRow → UserRow
updated_or existing (ok updated) = updated
updated_or existing (err x) = existing

-- The tuple of the administrator of the platform.
unfoldable pub admin_tuple : (user_id : Str) → FgaTuple
admin_tuple user_id = record {
  user = bytes "user:" ++ user_id;
  relation = bytes "admin";
  object = bytes "platform:" ++ platform_object_id;
}

module _ ⦃e : Env⦄ where
  -- The part of ensureAdminUser for a user who exists.
  unfoldable pub verify_admin : UserRow → Action UserRow
  verify_admin existing = if existing.email_verified then pure existing else (do
    updated ← attempt (users_update existing.id set_email_verified)
    pure (updated_or existing updated))

  unfoldable pub create_admin : Seed → Action UserRow
  create_admin seed = do
    pw ← bcrypt_hash seed.admin_password
    id ← new_uuid
    users_insert (admin_row seed pw id)
    pure (admin_row seed pw id)

  unfoldable pub existing_or_new : Seed → Result UserRow → Action UserRow
  existing_or_new seed (ok existing) = verify_admin existing
  existing_or_new seed (err not_found) = create_admin seed
  existing_or_new seed (err failure) = raise failure
  existing_or_new seed (err (kratos r m)) = raise (kratos r m)

  unfoldable pub ensure_admin_user : Seed → Action UserRow
  ensure_admin_user seed = do
    existing ← attempt (the_user (with_email seed.admin_email))
    existing_or_new seed existing

module _ (f : Fga) where
  -- An error is only logged.
  unfoldable pub ensure_platform_admin : (user_id : Str) → Option f.State → Option f.State
  ensure_platform_admin user_id none = none
  ensure_platform_admin user_id (some s) = some (f.ensure_tuples (admin_tuple user_id ∷ []) s).1

  module _ ⦃e : Env⦄ where
    -- Run behind the user, and the tuple of who it is.
    unfoldable pub grant :
        Result UserRow × World e → Option f.State → Result Unit × World e × Option f.State
    grant (ok admin_user, w) fga =
        (ok tt, w, ensure_platform_admin (e.crypto.uuid_string admin_user.id) fga)
    grant (err x, w) fga = (err x, w, fga)

    unfoldable pub run :
        Option Seed → World e → Option f.State → Result Unit × World e × Option f.State
    run none w fga = (ok tt, w, fga)
    run (some seed) w fga =
        if is_empty seed.admin_email then (ok tt, w, fga) else grant (ensure_admin_user seed w) fga
