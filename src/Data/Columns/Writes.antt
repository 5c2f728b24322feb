-- ===== src/Data/Columns/Writes.antt =====
-- The writes of users in any order: app/iam/service/internal/data/authn.go, user.go and seed.go.
use servora_iam.Prelude.{Bool, Str}
use servora_iam.Platform.World.{Env, World}
use servora_iam.Data.Mapper.{User}
use servora_iam.Data.AuthnRepo
use servora_iam.Data.AuthnRepo.{update_password, update_email_verified}
use servora_iam.Data.UserRepo
use servora_iam.Data.UserRepo.{delete_user, purge_cascade, restore_user, update_user}
use servora_iam.Data.Seed.{Seed, ensure_admin_user}

module _ ⦃e : Env⦄ where
  -- A write of users.
  pub data Write : Type 0 where
    sign_up create : (u : User) (hashed : Str) → Write
    update : User → Write
    set_password : (user_id hashed : Str) → Write
    set_verified : (user_id : Str) (verified : Bool) → Write
    delete restore purge : (id : Str) → Write
    ensure_admin : Seed → Write

  -- The state after a write, whether it succeeds or not.
  unfoldable pub write : Write → World e → World e
  write (sign_up u hashed) w = (AuthnRepo.save_user u hashed w).1
  write (create u hashed) w = (UserRepo.save_user u hashed w).1
  write (update u) w = (update_user u w).1
  write (set_password user_id hashed) w = (update_password user_id hashed w).1
  write (set_verified user_id verified) w = (update_email_verified user_id verified w).1
  write (delete id) w = (delete_user id w).1
  write (restore id) w = (restore_user id w).1
  write (purge id) w = (purge_cascade id w).1
  write (ensure_admin seed) w = (ensure_admin_user seed w).1

  -- The states that writes lead to.
  pub data Writes (w : World e) : World e → Type 0 where
    start : Writes w w
    next : {v : World e} → Writes w v → (x : Write) → Writes w (write x v)
