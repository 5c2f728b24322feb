-- ===== src/Data/AuthnRepo.antt =====
-- The users as the authentication reads and writes them: app/iam/service/internal/data/authn.go.
-- None of these queries looks at the deletion mark of a row.
pub mod Queries
pub mod Updates
pub mod Keys
use servora_iam.Prelude.{ℕ, Bool, true, false, Option, none, some, [], Str, ◌==◌, bytes}
use servora_iam.Errors.{failure, not_found}
use servora_iam.Exec.{pure, lift, gets, or_raise, ensure, ◌>>=◌, ◌>>◌}
use servora_iam.Platform.Table.{only}
use servora_iam.Platform.Rows.{UserRow, within}
use servora_iam.Platform.World.{
  Env, World, Action, users_select, users_insert, users_update, new_uuid,
}
use servora_iam.Data.Mapper.{User, to_proto}

abbrev pub role_user : Str
role_user = bytes "user"

abbrev pub status_active : Str
status_active = bytes "active"

-- The row that SaveUser creates, the columns that it leaves out at their defaults.
abbrev pub new_row : User → (hashed_password id : Str) → UserRow
new_row u hashed_password id = record {
  id = id;
  username = u.username;
  email = u.email;
  password = hashed_password;
  phone = [];
  phone_verified = false;
  role = u.role;
  status = status_active;
  email_verified = false;
  email_verified_at = none;
  profile = none;
  deleted_at = none;
}

module _ ⦃e : Env⦄ where
  -- uuid.Parse
  unfoldable pub parse_id : Str → Action Str
  parse_id id = or_raise (e.crypto.parse_uuid id) failure

  -- `Query().Where(test).Only`
  unfoldable pub the_user : (UserRow → Bool) → Action UserRow
  the_user test = do rows ← users_select test; lift (only rows)

  unfoldable pub save_user : User → (hashed_password : Str) → Action User
  save_user u hashed_password = do
    id ← new_uuid
    let row = new_row u hashed_password id
    users_insert row
    pure (to_proto e.crypto row)

  unfoldable pub get_user_by_user_name : Str → Action User
  unfolding the_user
  get_user_by_user_name name = do
    row ← the_user (λ r. r.username == name)
    pure (to_proto e.crypto row)

  unfoldable pub get_user_by_email : Str → Action User
  unfolding the_user
  get_user_by_email email = do row ← the_user (λ r. r.email == email); pure (to_proto e.crypto row)

  unfoldable pub get_user_by_id : Str → Action User
  unfolding the_user parse_id
  get_user_by_id id = do
    uid ← parse_id id
    row ← the_user (λ r. r.id == uid)
    pure (to_proto e.crypto row)

  unfoldable pub get_password_hash : Str → Action Str
  unfolding the_user parse_id
  get_password_hash user_id = do
    uid ← parse_id user_id
    row ← the_user (λ r. r.id == uid)
    pure row.password

  unfoldable pub update_password : (user_id hashed_password : Str) → Action Unit
  unfolding parse_id
  update_password user_id hashed_password = do
    uid ← parse_id user_id
    ensure (within 255 hashed_password) failure
    users_update uid (λ r. record r { password = hashed_password })
    pure tt

  -- SetEmailVerified, with the time of the verification set or cleared.
  abbrev pub mark_verified : Bool → ℕ → UserRow → UserRow
  mark_verified true now r = record r { email_verified = true; email_verified_at = some now }
  mark_verified false now r = record r { email_verified = false; email_verified_at = none }

  unfoldable pub update_email_verified : (user_id : Str) (verified : Bool) → Action Unit
  unfolding parse_id
  update_email_verified user_id verified = do
    uid ← parse_id user_id
    now ← gets (λ (w : World e). w.clock)
    users_update uid (mark_verified verified now)
    pure tt
