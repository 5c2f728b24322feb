-- ===== src/Tests/Seeds.antt =====
-- Starts with a seed, at concrete inputs.
use servora_iam.Prelude.{◌≡◌, refl, true, some, [], bytes, ◌==◌, ◌⊎◌, false}
use servora_iam.Errors.{ok}
use servora_iam.Exec.{◌>>=◌}
use servora_iam.Platform.Table.{only}
use servora_iam.Platform.World.{users_select, users_insert, users_update, bcrypt_hash, new_uuid}
use servora_iam.Platform.Rows.{user_fits, within, UserRow}
use servora_iam.Data.Mapper.{to_proto}
use servora_iam.Data.AuthnRepo.{the_user}
use servora_iam.Data.AuthnRepo.Updates.{rows_of}
use servora_iam.Data.Seed.{
  Seed, verify_admin, create_admin, admin_name_of, admin_row, existing_or_new, ensure_admin_user,
  admin_tuple, grant, run,
}
use servora_iam.Data.Seed.Admin.{IsSeeded}
use servora_iam.Data.Seed.Starts.{run_twice, check_credentials-run}
use servora_iam.Biz.Sessions.{check_credentials}
use servora_iam.Tests.Memory.{memory}
use servora_iam.Tests.Memory.Relations.{memory_fga}
use servora_iam.Tests.Worlds.{town, town-IsKeyed, settings}

-- Carol, whose email is not verified, as the administrator.
abbrev promoted : Seed
promoted = record { admin_email = bytes "carol@x"; admin_password = bytes "p"; admin_name = [] }

abbrev root : Seed
root = record { admin_email = bytes "root@x"; admin_password = bytes "p"; admin_name = [] }

promoted_done : (run memory_fga (some promoted) town (some [])).0 ≡ ok tt
unfolding run grant ensure_admin_user existing_or_new verify_admin the_user users_select only
    users_update ◌==◌ ◌>>=◌
promoted_done = refl

root_done : (run memory_fga (some root) town (some [])).0 ≡ ok tt
unfolding user_fits within run grant ensure_admin_user existing_or_new create_admin the_user
    users_select only users_insert bcrypt_hash new_uuid admin_row admin_name_of ◌==◌ ◌>>=◌
root_done = refl

run_twice_example :
    let (_, w₁, f₁) = run memory_fga (some promoted) town (some []) in
    let (r₂, w₂, f₂) = run memory_fga (some promoted) w₁ f₁ in
    (row : UserRow) × IsSeeded promoted row w₁
    × (r₂ ≡ ok tt)
    × (rows_of w₂ ≡ rows_of w₁)
    × ((true ≡ false)
        ⊎ ((s₂ : memory_fga.State) × (f₂ ≡ some s₂)
            × (memory_fga.holds s₂ (admin_tuple (memory.crypto.uuid_string row.id)) ≡ true)))
run_twice_example = run_twice memory_fga promoted refl town refl town-IsKeyed [] promoted_done

check_credentials-run_example :
    (row : UserRow) × (row.role ≡ bytes "admin")
    × ((check_credentials settings
          (bytes "root@x")
          (bytes "p")
          (run memory_fga (some root) town (some [])).1).0
        ≡ ok (to_proto memory.crypto row))
unfolding ◌==◌
check_credentials-run_example =
    check_credentials-run memory_fga root refl town refl town-IsKeyed settings (some []) refl
      root_done
