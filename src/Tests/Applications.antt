-- ===== src/Tests/Applications.antt =====
-- The theorems on OIDC clients, at concrete inputs.
use servora_iam.Prelude.{
  ◌<◌, ◌≡◌, refl, true, false, none, some, [], ◌∷◌, ◌++◌, Str, bytes, ◌==◌, modify, any, length,
  replicate, pos,
}
use servora_iam.Errors.{ok}
use servora_iam.Exec.{◌>>=◌}
use servora_iam.Platform.Table.{count}
use servora_iam.Platform.Rows.{application_fits, within, ApplicationRow, applications_schema}
use servora_iam.Platform.World.{
  World, applications_insert, applications_update_where, new_uuid, bcrypt_hash, bcrypt_check,
  rand_read, hex,
}
use servora_iam.Data.AuthnRepo.{parse_id}
use servora_iam.Data.ApplicationRepo
use servora_iam.Data.ApplicationRepo.{
  Application, application_to_proto, application_row, present_application, some_changed,
  update_client_secret_hash,
}
use servora_iam.Biz.Applications.{generate_random_hex, create, regenerate_client_secret}
use servora_iam.Biz.Applications.Secrets.{applications_of, regenerate_client_secret_lem, create_lem}
use servora_iam.Tests.Memory.{memory}
use servora_iam.Tests.Worlds.{town}

abbrev pub portal : Application
portal = record {
  id = [];
  client_id = [];
  name = bytes "portal";
  redirect_uris = bytes "https://p/cb" ∷ [];
  scopes = bytes "openid" ∷ [];
  grant_types = [];
  application_type = bytes "web";
  access_token_type = bytes "jwt";
  type = bytes "web";
  id_token_lifetime = pos 3600;
}

abbrev pub created : Application
created = record portal { id = 3 ∷ []; client_id = hex (replicate 16 0) }

abbrev pub secret : Str
secret = hex (replicate 32 1)

pub create_done : (create portal town).0 ≡ ok (created, secret)
unfolding hex application_fits within create generate_random_hex rand_read bcrypt_hash
    ApplicationRepo.create application_row application_to_proto new_uuid applications_insert ◌>>=◌
create_done = refl

create_lem_example :
    (length created.client_id ≡ 32)
    × (length secret ≡ 64)
    × (row : ApplicationRow) × (created ≡ application_to_proto memory.crypto row)
    × (bcrypt_check secret row.client_secret_hash ≡ true)
    × (row.deleted_at ≡ none)
    × (any (applications_schema.clash row) (applications_of town) ≡ false)
    × (applications_of (create portal town).1 ≡ applications_of town ++ row ∷ [])
create_lem_example = create_lem portal created secret town create_done

abbrev pub with_portal : World memory
with_portal = record town { applications = application_row portal (bytes "h") (bytes "p") 5 ∷ [] }

abbrev new_secret : Str
new_secret = hex (replicate 32 0)

regenerate_done : (regenerate_client_secret (bytes "p") with_portal).0 ≡ ok new_secret
unfolding hex within regenerate_client_secret generate_random_hex rand_read bcrypt_hash
    update_client_secret_hash parse_id applications_update_where some_changed application_row ◌==◌
    ◌>>=◌
regenerate_done = refl

regenerate_client_secret_lem_example :
    (length new_secret ≡ 64)
    × (uid hash : Str) × (memory.crypto.parse_uuid (bytes "p") ≡ some uid)
    × (bcrypt_check new_secret hash ≡ true)
    × (0 < count (present_application uid) (applications_of with_portal))
    × (applications_of (regenerate_client_secret (bytes "p") with_portal).1
        ≡ modify
            (present_application uid)
            (λ r. record r { client_secret_hash = hash })
            (applications_of with_portal))
regenerate_client_secret_lem_example =
    regenerate_client_secret_lem (bytes "p") with_portal regenerate_done
