-- ===== src/Biz/Sessions/Frames.antt =====
-- Which state the steps of a login and of a refresh in app/iam/service/internal/biz/authn.go leave
-- alone: they reach Redis and the clock only where they handle refresh tokens.
use servora_iam.Prelude.{Str, arith}
use servora_iam.Exec.{◌>>=◌}
use servora_iam.Platform.World.{Env, World, users_select, rand_read}
use servora_iam.Platform.Frames.{Offline}
use servora_iam.Data.Mapper.{User}
use servora_iam.Data.AuthnRepo.{get_user_by_email, get_user_by_id, get_password_hash}
use servora_iam.Biz.Config.{Config}
use servora_iam.Biz.Authn.{generate_opaque_token, generate_access_token}
use servora_iam.Biz.Sessions.{check_credentials, new_access_token}

module _ ⦃e : Env⦄ where
  pub Offline-get_user_by_email :
      (email : Str) (w : World e) → Offline w (get_user_by_email email w).1
  unfolding get_user_by_email users_select ◌>>=◌
  Offline-get_user_by_email email w = record { kv = ground arith; clock = ground arith }

  pub Offline-get_user_by_id : (id : Str) (w : World e) → Offline w (get_user_by_id id w).1
  unfolding get_user_by_id users_select ◌>>=◌
  Offline-get_user_by_id id w = record { kv = ground arith; clock = ground arith }

  pub Offline-get_password_hash : (id : Str) (w : World e) → Offline w (get_password_hash id w).1
  unfolding get_password_hash users_select ◌>>=◌
  Offline-get_password_hash id w = record { kv = ground arith; clock = ground arith }

  module _ (cfg : Config) where
    pub Offline-check_credentials :
        (email password : Str) (w : World e) → Offline w (check_credentials cfg email password w).1
    unfolding check_credentials get_user_by_email get_password_hash users_select ◌>>=◌
    Offline-check_credentials email password w = record { kv = ground arith; clock = ground arith }

    pub Offline-generate_opaque_token : (w : World e) → Offline w (generate_opaque_token cfg w).1
    unfolding generate_opaque_token rand_read ◌>>=◌
    Offline-generate_opaque_token w = record { kv = ground arith; clock = ground arith }

    pub Offline-new_access_token : (u : User) (w : World e) → Offline w (new_access_token cfg u w).1
    unfolding new_access_token generate_opaque_token generate_access_token rand_read ◌>>=◌
    Offline-new_access_token u w = record { kv = ground arith; clock = ground arith }
