-- ===== src/Tests/Users.antt =====
-- The theorems on the administration of users, at concrete inputs.
use servora_iam.Prelude.{
  ◌≡◌, refl, true, false, not, none, some, [], ◌∷◌, Str, bytes, ◌==◌, In, here, filter, modify,
}
use servora_iam.Errors.{ok, err, not_found}
use servora_iam.Exec.{◌>>=◌}
use servora_iam.Platform.Table.{only, with_id}
use servora_iam.Platform.Rows.{user_fits, within, UserRow, users_schema}
use servora_iam.Platform.World.{
  users_select, users_update, users_insert, users_delete, new_uuid, bcrypt_hash,
}
use servora_iam.Data.Mapper.{User, to_proto, profile_of_row, profile_to_json}
use servora_iam.Data.AuthnRepo
use servora_iam.Data.AuthnRepo.{
  the_user, get_user_by_email, get_user_by_user_name, parse_id, role_user,
}
use servora_iam.Data.AuthnRepo.Updates.{rows_of}
use servora_iam.Data.UserRepo
use servora_iam.Data.UserRepo.{columns_fit, update_columns, id_or_new, row_of}
use servora_iam.Data.UserRepo.SoftDelete.{get-delete}
use servora_iam.Biz.Authn.{check_free, signup_by_email, send_verification_email}
use servora_iam.Biz.Sessions.{check_credentials}
use servora_iam.Biz.Sessions.Passwords.{IsSignedOut}
use servora_iam.Biz.Users.{
  update_user, check_user_name, check_email, is_new, create_user, check_user_exists, with_defaults,
  delete_user, purge_user,
}
use servora_iam.Biz.Users.Updating.{update_user_lem, update_user_grants_role}
use servora_iam.Biz.Users.Creating.{signup_by_email-IsEnrolled}
use servora_iam.Biz.Users.Enrolled.{IsEnrolled}
use servora_iam.Biz.Users.Deleting.{check_credentials-delete_user, purge_user_lem}
use servora_iam.Tests.Memory.{memory}
use servora_iam.Tests.Worlds.{
  bob, settings, town, town-IsKeyed, lifetime, logged_in, logged_in-IsReady, logged_in-IsIndexed,
}

-- Bob asks for another role.
abbrev request : User
request = record {
  id = bytes "b";
  username = [];
  email = [];
  phone = bytes "1";
  phone_verified = false;
  role = bytes "admin";
  status = [];
  email_verified = false;
  email_verified_at = none;
  profile = none;
}

abbrev promoted : UserRow
promoted = record bob { phone = bytes "1"; role = bytes "admin" }

update_done : (update_user (bytes "b") request town).0 ≡ ok (to_proto memory.crypto promoted)
unfolding columns_fit within update_user UserRepo.get_user_by_id UserRepo.update_user update_columns
    check_user_name check_email is_new parse_id the_user users_select users_update only ◌==◌ ◌>>=◌
    to_proto profile_of_row profile_to_json
update_done = refl

update_user_lem_example :
    (bytes "b" ≡ request.id)
    × (uid : Str) × (memory.crypto.parse_uuid request.id ≡ some uid)
    × (rows_of (update_user (bytes "b") request town).1
        ≡ modify (with_id users_schema uid) (update_columns request) (rows_of town))
update_user_lem_example = update_user_lem (bytes "b") request town update_done

promoted_stored : In promoted (rows_of (update_user (bytes "b") request town).1)
unfolding columns_fit within update_user UserRepo.get_user_by_id UserRepo.update_user update_columns
    check_user_name check_email is_new parse_id the_user users_select users_update only ◌==◌ ◌>>=◌
    profile_of_row profile_to_json
promoted_stored = here refl

update_user_grants_role_example : promoted.role ≡ bytes "admin"
update_user_grants_role_example =
    update_user_grants_role (bytes "b") request town promoted update_done refl promoted_stored refl

others : (bytes "c" == bytes "b") ≡ false
unfolding ◌==◌
others = refl

abbrev dave : User
dave = record request { id = []; username = bytes "dave"; email = bytes "dave@x"; role = [] }

abbrev dave_stored : User
dave_stored = record dave { id = 1 ∷ []; role = bytes "user"; status = bytes "active" }

create_done : (create_user settings dave (bytes "pw") town).0 ≡ ok dave_stored
unfolding user_fits within create_user check_user_exists check_free with_defaults UserRepo.save_user
    id_or_new row_of new_uuid bcrypt_hash get_user_by_user_name get_user_by_email the_user
    users_select users_insert only send_verification_email ◌==◌ ◌>>=◌ to_proto profile_of_row
    profile_to_json
create_done = refl

abbrev signed_up : User
signed_up = record dave_stored { phone = [] }

signup_done :
    (signup_by_email settings (bytes "dave") (bytes "dave@x") (bytes "pw") town).0 ≡ ok signed_up
unfolding user_fits within signup_by_email check_free AuthnRepo.save_user new_uuid bcrypt_hash
    get_user_by_user_name get_user_by_email the_user users_select users_insert only
    send_verification_email ◌==◌ ◌>>=◌ to_proto
signup_done = refl

signup_by_email-IsEnrolled_example :
    IsEnrolled
      (bytes "dave")
      (bytes "dave@x")
      (bytes "pw")
      role_user
      signed_up
      town
      (signup_by_email settings (bytes "dave") (bytes "dave@x") (bytes "pw") town).1
signup_by_email-IsEnrolled_example =
    signup_by_email-IsEnrolled settings (bytes "dave") (bytes "dave@x") (bytes "pw") town
      signup_done

repo_deleted : (UserRepo.delete_user (bytes "b") town).0 ≡ ok tt
unfolding UserRepo.delete_user parse_id users_update ◌==◌ ◌>>=◌
repo_deleted = refl

get-delete_example :
    (UserRepo.get_user_by_id (bytes "b") (UserRepo.delete_user (bytes "b") town).1).0
    ≡ err not_found
get-delete_example = get-delete (bytes "b") town refl repo_deleted

repo_restored :
    (UserRepo.restore_user (bytes "b") (UserRepo.delete_user (bytes "b") town).1).0
    ≡ ok (to_proto memory.crypto bob)
unfolding UserRepo.delete_user UserRepo.restore_user parse_id users_update ◌==◌ ◌>>=◌
repo_restored = refl

delete_done : (delete_user (bytes "b") town).0 ≡ ok true
unfolding delete_user UserRepo.get_user_by_id UserRepo.delete_user parse_id the_user users_select
    users_update only ◌==◌ ◌>>=◌
delete_done = refl

check_credentials-delete_user_example :
    (check_credentials settings (bytes "bob@x") (bytes "secret") (delete_user (bytes "b") town).1).0
    ≡ (check_credentials settings (bytes "bob@x") (bytes "secret") town).0
check_credentials-delete_user_example =
    check_credentials-delete_user (bytes "b") town delete_done settings (bytes "bob@x")
      (bytes "secret") refl town-IsKeyed

purge_done : (purge_user (bytes "b") logged_in).0 ≡ ok true
unfolding purge_user UserRepo.purge_cascade parse_id users_delete ◌==◌ ◌>>=◌
purge_done = refl

purge_user_lem_example :
    let w' = (purge_user (bytes "b") logged_in).1 in
    (rows_of w' ≡ filter (λ r. not (with_id users_schema (bytes "b") r)) (rows_of logged_in))
    × IsSignedOut (bytes "b") w'
purge_user_lem_example =
    purge_user_lem (bytes "b") lifetime logged_in logged_in-IsReady logged_in-IsIndexed purge_done
