-- ===== src/Data/UserRepo.antt =====
-- The users as the administration reads and writes them:
-- app/iam/service/internal/data/user.go. A row with a deletion mark is not found.
pub mod Changes
pub mod SoftDelete
use servora_iam.Prelude.{
  ℕ, Bool, true, false, Option, none, some, List, Str, str_lt, ◌==◌, ◌&&◌, is_empty, if◌then◌else◌,
}
use servora_iam.Errors.{failure}
use servora_iam.Exec.{pure, gets, ensure, ◌>>=◌, ◌>>◌}
use servora_iam.Platform.Rows.{UserRow, within}
use servora_iam.Platform.World.{
  Env, World, Action, users_insert, users_update, users_delete, new_uuid, users_count, users_page,
}
use mathlib.Core.List.{map}
use servora_iam.Data.Paging.{offset_of, limit_of}
use servora_iam.Data.Mapper.{User, to_proto, profile_to_json}
use servora_iam.Data.AuthnRepo.{parse_id, the_user, status_active}

-- user.DeletedAtIsNil()
abbrev pub not_deleted : UserRow → Bool
not_deleted r = elim r.deleted_at [ none ↦ true | some t ↦ false ]

-- user.ByID(sql.OrderDesc())
abbrev pub by_id : UserRow → UserRow → Bool
by_id r s = str_lt s.id r.id

-- `if value != "" { Set(value) }`
abbrev pub or_old : Str → Str → Str
or_old value old = if is_empty value then old else value

-- The columns that UpdateUser sets.
unfoldable pub update_columns : User → UserRow → UserRow
update_columns u r = record r {
  profile = profile_to_json u.profile;
  username = or_old u.username r.username;
  email = or_old u.email r.email;
  phone = or_old u.phone r.phone;
  role = or_old u.role r.role;
  status = or_old u.status r.status;
}

-- UserUpdateOne.check, for the columns that UpdateUser sets; an empty one is within every length.
unfoldable pub columns_fit : User → Bool
columns_fit u =
    within 64 u.username
    && (within 128 u.email && (within 32 u.phone && (within 32 u.role && within 32 u.status)))

module _ ⦃e : Env⦄ where
  -- The id of the message, else a new one.
  unfoldable pub id_or_new : Str → Action Str
  id_or_new id = if is_empty id then new_uuid else parse_id id

  -- The row that SaveUser creates.
  unfoldable pub row_of : User → (hashed_password id : Str) → UserRow
  row_of u hashed_password id = record {
    id = id;
    username = u.username;
    email = u.email;
    password = hashed_password;
    phone = u.phone;
    phone_verified = u.phone_verified;
    role = u.role;
    status = or_old u.status status_active;
    email_verified = u.email_verified;
    email_verified_at = u.email_verified_at;
    profile = profile_to_json u.profile;
    deleted_at = none;
  }

  unfoldable pub save_user : User → (hashed_password : Str) → Action User
  save_user u hashed_password = do
    id ← id_or_new u.id
    users_insert (row_of u hashed_password id)
    pure (to_proto e.crypto (row_of u hashed_password id))

  unfoldable pub get_user_by_id : Str → Action User
  get_user_by_id id = do
    uid ← parse_id id
    row ← the_user (λ r. r.id == uid && not_deleted r)
    pure (to_proto e.crypto row)

  unfoldable pub delete_user : Str → Action Unit
  delete_user id = do
    uid ← parse_id id
    now ← gets (λ (w : World e). w.clock)
    users_update uid (λ r. record r { deleted_at = some now })
    pure tt

  unfoldable pub purge_user : Str → Action Unit
  purge_user id = do uid ← parse_id id; users_delete uid

  unfoldable pub purge_cascade : Str → Action Unit
  purge_cascade id = do uid ← parse_id id; users_delete uid

  unfoldable pub restore_user : Str → Action User
  restore_user id = do
    uid ← parse_id id
    row ← users_update uid (λ r. record r { deleted_at = none })
    pure (to_proto e.crypto row)

  unfoldable pub get_user_by_id_including_deleted : Str → Action User
  get_user_by_id_including_deleted id = do
    uid ← parse_id id
    row ← the_user (λ r. r.id == uid)
    pure (to_proto e.crypto row)

  unfoldable pub update_user : User → Action User
  update_user u = do
    uid ← parse_id u.id
    ensure (columns_fit u) failure
    row ← users_update uid (update_columns u)
    pure (to_proto e.crypto row)

  -- ListUsers, with the number of the users.
  unfoldable pub list_users : (page page_size : ℕ) → Action (List User × ℕ)
  list_users page page_size = do
    total ← users_count not_deleted
    rows ← users_page not_deleted by_id (offset_of page page_size) (limit_of page_size)
    pure (map (to_proto e.crypto) rows, total)
