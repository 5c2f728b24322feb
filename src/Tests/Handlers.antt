-- ===== src/Tests/Handlers.antt =====
-- The theorems on the handlers, at concrete inputs.
use servora_iam.Prelude.{◌≡◌, ◌≢◌, refl, false, none, some, [], ◌∷◌, Str, bytes, ◌==◌, modify}
use servora_iam.Errors.{ok}
use servora_iam.Exec.{◌>>=◌}
use servora_iam.Platform.Table.{only, with_id}
use servora_iam.Platform.Rows.{user_fits, within, users_schema}
use servora_iam.Platform.World.{
  World, redis_set, redis_get_del, users_select, users_update, users_insert, new_uuid, bcrypt_hash,
  hex,
}
use servora_iam.Data.Mapper.{User, to_proto, profile_of_row, profile_to_json}
use servora_iam.Data.RefreshTokens.Index.{elapse}
use servora_iam.Data.AuthnRepo
use servora_iam.Data.AuthnRepo.{the_user, get_user_by_email, get_user_by_user_name, parse_id}
use servora_iam.Data.AuthnRepo.Updates.{rows_of}
use servora_iam.Data.UserRepo
use servora_iam.Data.UserRepo.{columns_fit, update_columns}
use servora_iam.Cap.{
  token_key, hash_sha256, is_marked, split_colon, validate_parts, validate_split, validate_token,
}
use servora_iam.Biz.Authn.{check_free, signup_by_email, send_verification_email}
use servora_iam.Biz.Users
use servora_iam.Biz.Users.{check_user_name, check_email, is_new}
use servora_iam.Service.{
  user, caller, SignupRequest, SignupResponse, captcha_valid, signup, update_user,
}
use servora_iam.Service.Header.{trim_right, is_space}
use servora_iam.Service.Callers.{update_user-own}
use servora_iam.Service.Signup.{signup_twice}
use servora_iam.Tests.Memory.{memory}
use servora_iam.Tests.Worlds.{bob, settings, town}

no_space_ends : trim_right (bytes "a.b") ≡ bytes "a.b"
unfolding trim_right is_space
no_space_ends = refl

abbrev request : User
request = record {
  id = [];
  username = [];
  email = [];
  phone = bytes "1";
  phone_verified = false;
  role = [];
  status = [];
  email_verified = false;
  email_verified_at = none;
  profile = none;
}

update_done :
    (update_user settings (some (user (bytes "b"))) (bytes "b") request town).0
    ≡ ok (to_proto memory.crypto (record bob { phone = bytes "1" }))
unfolding columns_fit within update_user caller Users.update_user UserRepo.get_user_by_id
    UserRepo.update_user update_columns check_user_name check_email is_new parse_id the_user
    users_select users_update only ◌==◌ ◌>>=◌ to_proto profile_of_row profile_to_json
update_done = refl

update_user-own_example :
    (some (user (bytes "b")) ≡ some (user (bytes "b")))
    × (uid : Str) × (memory.crypto.parse_uuid (bytes "b") ≡ some uid)
    × (rows_of (update_user settings (some (user (bytes "b"))) (bytes "b") request town).1
        ≡ modify
            (with_id users_schema uid)
            (update_columns (record request { id = bytes "b" }))
            (rows_of town))
update_user-own_example =
    update_user-own settings (some (user (bytes "b"))) (bytes "b") request town update_done

-- A captcha token was issued.
abbrev solved : World memory
solved = (redis_set (token_key (bytes "a") (hash_sha256 (bytes "z"))) (bytes "1") 60 town).1

abbrev signup_request : SignupRequest
signup_request = record {
  name = bytes "dave";
  email = bytes "dave@x";
  password = bytes "pw";
  password_confirm = bytes "pw";
  cap_token = bytes "a:z";
}

abbrev signup_response : SignupResponse
signup_response = record {
  id = 1 ∷ [];
  name = bytes "dave";
  email = bytes "dave@x";
  role = bytes "user";
}

signup_done : (signup settings signup_request solved).0 ≡ ok signup_response
unfolding user_fits within signup captcha_valid validate_token validate_split validate_parts
    split_colon is_marked redis_set redis_get_del hash_sha256 hex token_key signup_by_email
    check_free AuthnRepo.save_user new_uuid bcrypt_hash get_user_by_user_name get_user_by_email
    the_user users_select users_insert only send_verification_email ◌==◌ ◌>>=◌ to_proto
signup_done = refl

signup_twice_example :
    (signup settings
      (record signup_request { name = bytes "eve"; email = bytes "eve@x" })
      (elapse 1 (signup settings signup_request solved).1)).0
    ≢ ok signup_response
signup_twice_example =
    signup_twice settings signup_request
      (record signup_request { name = bytes "eve"; email = bytes "eve@x" }) solved 1 signup_done
      refl signup_response
