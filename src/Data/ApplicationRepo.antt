-- ===== src/Data/ApplicationRepo.antt =====
-- The applications, which are the OIDC clients: app/iam/service/internal/data/application.go, and
-- newApplicationMapper of app/iam/service/internal/data/mapper.go.
use servora_iam.Prelude.{ℕ, ℤ, zero, suc, Bool, true, false, ◌&&◌, none, some, List, Str, ◌==◌, ltb}
use servora_iam.Errors.{failure}
use servora_iam.Exec.{pure, raise, lift, gets, ensure, ◌>>=◌, ◌>>◌}
use servora_iam.Platform.Crypto.{Crypto}
use servora_iam.Platform.Table.{only}
use servora_iam.Platform.Rows.{ApplicationRow, within}
use servora_iam.Platform.World.{
  Env, World, Action, applications_select, applications_insert, applications_update_where, new_uuid,
  applications_count, applications_page,
}
use mathlib.Core.List.{map}
use servora_iam.Data.Paging.{offset_of, limit_of}
use servora_iam.Data.AuthnRepo.{parse_id}

-- apppb.Application
pub record Application : Type 0 where
  pub id : Str
  pub client_id : Str
  pub name : Str
  pub redirect_uris : List Str
  pub scopes : List Str
  pub grant_types : List Str
  pub application_type : Str
  pub access_token_type : Str
  pub type : Str
  pub id_token_lifetime : ℤ

unfoldable pub application_to_proto : Crypto → ApplicationRow → Application
application_to_proto c r = record {
  id = c.uuid_string r.id;
  client_id = r.client_id;
  name = r.name;
  redirect_uris = r.redirect_uris;
  scopes = r.scopes;
  grant_types = r.grant_types;
  application_type = r.application_type;
  access_token_type = r.access_token_type;
  type = r.type;
  id_token_lifetime = r.id_token_lifetime;
}

-- application.DeletedAtIsNil()
abbrev pub live_application : ApplicationRow → Bool
live_application r = elim r.deleted_at as (λ o. Bool) [ none ↦ true | some t ↦ false ]

-- application.ByCreatedAt(sql.OrderDesc())
abbrev pub by_created_at : ApplicationRow → ApplicationRow → Bool
by_created_at r s = ltb s.created_at r.created_at

-- `application.IDEQ(uid), application.DeletedAtIsNil()`
abbrev pub present_application : Str → ApplicationRow → Bool
present_application uid r =
    let kept = elim r.deleted_at as (λ o. Bool) [ none ↦ true | some t ↦ false ] in
    r.id == uid && kept

abbrev pub with_client_id : Str → ApplicationRow → Bool
with_client_id client_id r =
    let kept = elim r.deleted_at as (λ o. Bool) [ none ↦ true | some t ↦ false ] in
    r.client_id == client_id && kept

-- The columns that Create sets.
unfoldable pub application_row :
    Application → (client_secret_hash id : Str) (now : ℕ) → ApplicationRow
application_row app client_secret_hash id now = record {
  id = id;
  client_id = app.client_id;
  client_secret_hash = client_secret_hash;
  name = app.name;
  redirect_uris = app.redirect_uris;
  scopes = app.scopes;
  grant_types = app.grant_types;
  application_type = app.application_type;
  access_token_type = app.access_token_type;
  type = app.type;
  id_token_lifetime = app.id_token_lifetime;
  created_at = now;
  deleted_at = none;
}

-- The columns that Update sets.
unfoldable pub application_columns : Application → ApplicationRow → ApplicationRow
application_columns app r = record r {
  name = app.name;
  redirect_uris = app.redirect_uris;
  scopes = app.scopes;
  grant_types = app.grant_types;
  id_token_lifetime = app.id_token_lifetime;
}

module _ ⦃e : Env⦄ where
  -- `if n == 0 { return fmt.Errorf("application not found") }`
  unfoldable pub some_changed : ℕ → Action Unit
  some_changed zero = raise failure
  some_changed (suc n) = pure tt

  unfoldable pub create : Application → (client_secret_hash : Str) → Action Application
  create app client_secret_hash = do
    id ← new_uuid
    now ← gets (λ (w : World e). w.clock)
    applications_insert (application_row app client_secret_hash id now)
    pure (application_to_proto e.crypto (application_row app client_secret_hash id now))

  unfoldable pub get_by_id : (id : Str) → Action Application
  get_by_id id = do
    uid ← parse_id id
    rows ← applications_select (present_application uid)
    row ← lift (only rows)
    pure (application_to_proto e.crypto row)

  unfoldable pub get_by_client_id : (client_id : Str) → Action Application
  get_by_client_id client_id = do
    rows ← applications_select (with_client_id client_id)
    row ← lift (only rows)
    pure (application_to_proto e.crypto row)

  -- List, with the number of the applications.
  unfoldable pub list : (page page_size : ℕ) → Action (List Application × ℕ)
  list page page_size = do
    total ← applications_count live_application
    rows ←
        applications_page live_application by_created_at (offset_of page page_size)
          (limit_of page_size)
    pure (map (application_to_proto e.crypto) rows, total)

  unfoldable pub update : Application → Action Application
  update app = do
    uid ← parse_id app.id
    ensure (within 128 app.name) failure
    n ← applications_update_where (present_application uid) (application_columns app)
    some_changed n
    get_by_id app.id

  unfoldable pub delete : (id : Str) → Action Unit
  delete id = do
    uid ← parse_id id
    now ← gets (λ (w : World e). w.clock)
    n ←
        applications_update_where (present_application uid)
          (λ r. record r { deleted_at = some now })
    some_changed n

  unfoldable pub update_client_secret_hash : (id hash : Str) → Action Unit
  update_client_secret_hash id hash = do
    uid ← parse_id id
    ensure (within 255 hash) failure
    n ←
        applications_update_where (present_application uid)
          (λ r. record r { client_secret_hash = hash })
    some_changed n
