-- ===== src/Data/OidcClients/Authorization.antt =====
-- Which secrets app/iam/service/internal/data/oidc_storage.go accepts of a client.
use servora_iam.Prelude.{
  ◌≡◌, refl, true, false, none, some, List, [], ◌∷◌, ◌++◌, Str, ==-refl, eq_iff, filter, any,
  if◌then◌else◌, arith,
}
use servora_iam.Errors.{Result, ok, err, failure}
use servora_iam.Exec.{◌>>=◌}
use servora_iam.Platform.Table.{only}
use servora_iam.Platform.Rows.{ApplicationRow, applications_schema}
use servora_iam.Platform.World.{Env, World, applications_select, bcrypt_check}
use servora_iam.Data.ApplicationRepo.{Application, application_to_proto, with_client_id}
use servora_iam.Biz.Applications.{create}
use servora_iam.Biz.Applications.Secrets.{applications_of, create_lem}
use servora_iam.Data.OidcClients.{the_application, authorize_client_id_secret}

module _ ⦃e : Env⦄ where
  -- The judgement on the rows of a client.
  abbrev pub judged : (client_secret : Str) → List ApplicationRow → Result Unit
  judged client_secret [] = err failure
  judged client_secret (r ∷ []) =
      if bcrypt_check client_secret r.client_secret_hash then ok tt else err failure
  judged client_secret (r ∷ s ∷ rest) = err failure

  authorize_rows :
      (client_id client_secret : Str) (w : World e) (rows : List ApplicationRow)
      → (e.applications.select (with_client_id client_id) w.applications).0 ≡ some rows
      → (authorize_client_id_secret client_id client_secret w).0 ≡ judged client_secret rows
  unfolding authorize_client_id_secret the_application applications_select only ◌>>=◌
  authorize_rows client_id client_secret w [] found = rw found refl
  authorize_rows client_id client_secret w (r ∷ []) found = rw found (ground arith)
  authorize_rows client_id client_secret w (r ∷ s ∷ rest) found = rw found refl

  -- While the database answers, a secret is accepted exactly where one application that is not
  -- deleted has the client id, and its hash checks the secret.
  pub authorize_exact :
      (client_id client_secret : Str) (w : World e)
      → e.applications.up w.applications ≡ true
      → (authorize_client_id_secret client_id client_secret w).0
        ≡ judged client_secret (filter (with_client_id client_id) (applications_of w))
  authorize_exact client_id client_secret w up =
      authorize_rows client_id client_secret w
        (filter (with_client_id client_id) (applications_of w))
        (e.applications.select_up (with_client_id client_id) w.applications up).0

  -- The one row with its client id is the one that was added.
  filter-append_new :
      (row : ApplicationRow) (rows : List ApplicationRow)
      → row.deleted_at ≡ none
      → any (applications_schema.clash row) rows ≡ false
      → filter (with_client_id row.client_id) (rows ++ row ∷ []) ≡ row ∷ []
  filter-append_new row [] live fresh = ground (arith, ==-refl row.client_id)
  filter-append_new row (r ∷ rows) live fresh = ground (
    arith,
    eq_iff row.client_id r.client_id,
    eq_iff r.client_id row.client_id,
    filter-append_new row rows live,
  )

  -- While the database answers, the secret that Create hands out is accepted of the client that it
  -- created.
  pub authorize-create :
      (app a : Application) (secret : Str) (w : World e)
      → e.applications.up (create app w).1.applications ≡ true
      → (create app w).0 ≡ ok (a, secret)
      → (authorize_client_id_secret a.client_id secret (create app w).1).0 ≡ ok tt
  unfolding application_to_proto
  authorize-create app a secret w up done =
      let (_, _, row, message, checks, live, fresh, added) = create_lem app a secret w done in
      let one : filter (with_client_id row.client_id) (applications_of (create app w).1)
          ≡ row ∷ [] =
        rw added (filter-append_new row (applications_of w) live fresh) in
      rw (message, authorize_exact row.client_id secret (create app w).1 up, one, checks) refl
