-- ===== src/Service/Callers.antt =====
-- Who may change a user: UpdateUser of app/iam/service/internal/service/user.go.
use servora_iam.Prelude.{ap, ◌≡◌, Option, none, some, Str, arith, modify}
use servora_iam.Errors.{ok}
use servora_iam.Exec.{◌>>=◌}
use servora_iam.Platform.Table.{with_id}
use servora_iam.Platform.Rows.{users_schema}
use servora_iam.Platform.World.{Env, World}
use servora_iam.Data.Mapper.{User}
use servora_iam.Data.AuthnRepo.Updates.{rows_of}
use servora_iam.Data.UserRepo.{update_columns}
use servora_iam.Biz.Config.{Config}
use servora_iam.Biz.Users.Updating.{update_user_lem}
use servora_iam.Service.{Actor, user, other, caller, update_user}

module _ ⦃e : Env⦄ (cfg : Config) where
  -- An UpdateUser request that succeeds was made by the user whose id it names, and changes only the
  -- rows with that id.
  pub update_user-own :
      (actor : Option Actor) (id : Str) (u : User) (w : World e) {v : User}
      → (update_user cfg actor id u w).0 ≡ ok v
      → (actor ≡ some (user id))
        × (uid : Str) × (e.crypto.parse_uuid id ≡ some uid)
        × (rows_of (update_user cfg actor id u w).1
            ≡ modify (with_id users_schema uid) (update_columns (record u { id = id })) (rows_of w))
  unfolding update_user caller ◌>>=◌
  update_user-own none id u w {v} done = absurd (ground arith)
  update_user-own (some (other x)) id u w {v} done = absurd (ground arith)
  update_user-own (some (user x)) id u w {v} done =
      let (same, uid, parsed, changed) = update_user_lem x (record u { id = id }) w done in
      (ap (λ y. some (user y)) same, uid, parsed, changed)
