-- ===== src/Biz/Applications.antt =====
-- The OIDC clients: app/iam/service/internal/biz/application.go, and the defaults that
-- CreateApplication of app/iam/service/internal/service/application.go fills in. Where the message of
-- an error is the text of another, it is written %v.
pub mod Secrets
use servora_iam.Prelude.{
  ℕ, List, ℤ, pos, negsuc, Bool, true, false, Str, bytes, is_empty, ltb, if◌then◌else◌,
}
use servora_iam.Errors.{Error, Reason}
use servora_iam.Exec.{pure, on_error, as_reason, ◌>>=◌, ◌>>◌}
use servora_iam.Platform.World.{Env, Action, rand_read, bcrypt_hash, hex}
use servora_iam.Data.ApplicationRepo
use servora_iam.Data.ApplicationRepo.{Application}

-- `if data.IdTokenLifetime <= 0 { data.IdTokenLifetime = 3600 }`
unfoldable pub lifetime_or_default : ℤ → ℤ
lifetime_or_default (pos n) = if ltb 0 n then pos n else pos 3600
lifetime_or_default (negsuc n) = pos 3600

unfoldable pub or_text : Str → Str → Str
or_text default value = if is_empty value then default else value

unfoldable pub application_defaults : Application → Application
application_defaults app = record app {
  application_type = or_text (bytes "web") app.application_type;
  type = or_text (bytes "web") app.type;
  access_token_type = or_text (bytes "jwt") app.access_token_type;
  id_token_lifetime = lifetime_or_default app.id_token_lifetime;
}

module _ ⦃e : Env⦄ where
  unfoldable pub generate_random_hex : ℕ → Action Str
  generate_random_hex n = do b ← rand_read n; pure (hex b)

  -- The created application and its secret.
  unfoldable pub create : Application → Action (Application × Str)
  create app = do
    client_id ←
        on_error (as_reason Reason.application_create_failed "failed to create application")
          (generate_random_hex 16)
    plain_secret ←
        on_error (as_reason Reason.application_create_failed "failed to create application")
          (generate_random_hex 32)
    hash ←
        on_error (as_reason Reason.application_create_failed "failed to create application")
          (bcrypt_hash plain_secret)
    created ←
        on_error (as_reason Reason.application_create_failed "%v")
          (ApplicationRepo.create (record app { client_id = client_id }) hash)
    pure (created, plain_secret)

  -- CreateApplication
  unfoldable pub create_application : Application → Action (Application × Str)
  create_application app = create (application_defaults app)

  unfoldable pub get : (id : Str) → Action Application
  get id = ApplicationRepo.get_by_id id

  unfoldable pub get_by_client_id : (client_id : Str) → Action Application
  get_by_client_id client_id = ApplicationRepo.get_by_client_id client_id

  unfoldable pub list : (page page_size : ℕ) → Action (List Application × ℕ)
  list page page_size = ApplicationRepo.list page page_size

  unfoldable pub update : Application → Action Application
  update app = ApplicationRepo.update app

  unfoldable pub delete : (id : Str) → Action Unit
  delete id = ApplicationRepo.delete id

  unfoldable pub regenerate_client_secret : (id : Str) → Action Str
  regenerate_client_secret id = do
    plain_secret ←
        on_error (as_reason Reason.application_create_failed "failed to regenerate client secret")
          (generate_random_hex 32)
    hash ←
        on_error (as_reason Reason.application_create_failed "failed to regenerate client secret")
          (bcrypt_hash plain_secret)
    on_error (as_reason Reason.application_create_failed "%v")
        (ApplicationRepo.update_client_secret_hash id hash)
    pure plain_secret
