-- ===== src/Data/Seed/Starts.antt =====
-- Starts of the service with a seed: Run of app/iam/service/internal/data/seed.go, and the login of
-- app/iam/service/internal/biz/authn.go after it.
use servora_iam.Prelude.{
  ◌≡◌, ◌⊎◌, Bool-cases, refl, ◌∙◌, true, false, [], ◌∷◌, Str, bytes, is_empty, arith, Option, some,
  inl, inr, filter, here,
}
use servora_iam.Errors.{ok}
use servora_iam.Exec.{Result-cases, ◌>>=◌}
use servora_iam.Platform.Fga.{Fga}
use servora_iam.Platform.Table.{only}
use servora_iam.Platform.Rows.{UserRow}
use servora_iam.Platform.World.{Env, World}
use servora_iam.Data.Mapper.{to_proto}
use servora_iam.Data.AuthnRepo.{the_user}
use servora_iam.Data.AuthnRepo.Queries.{with_email, IsKeyed, rows-the_user, the_user_exact}
use servora_iam.Data.AuthnRepo.Updates.{rows_of}
use servora_iam.Data.Seed.{
  Seed, verify_admin, existing_or_new, ensure_admin_user, admin_tuple, ensure_platform_admin, grant,
  run,
}
use servora_iam.Data.Seed.Admin.{IsSeeded, ensure_admin_user-IsSeeded, ensure_admin_user-IsNew}
use servora_iam.Biz.Config.{Config}
use servora_iam.Biz.Sessions.{check_credentials}
use servora_iam.Biz.Sessions.Credentials.{check_credentials_exact, judge}

module _ ⦃e : Env⦄ (f : Fga) (seed : Seed) (given : is_empty seed.admin_email ≡ false) where
  -- What a run that succeeds consists of.
  run-eq-ok :
      (w : World e) (fga : Option f.State)
      → (run f (some seed) w fga).0 ≡ ok tt
      → (r : UserRow) × ((ensure_admin_user seed w).0 ≡ ok r)
        × (run f (some seed) w fga ≡ (
          ok tt,
          (ensure_admin_user seed w).1,
          ensure_platform_admin f (e.crypto.uuid_string r.id) fga,
        ))
  unfolding run grant
  run-eq-ok w fga done = elim (Result-cases (ensure_admin_user seed w).0) [
    | inl (x, failed) ↦ absurd (ground arith)
    | inr (r, found) ↦ (r, found, ground arith)
  ]

  -- With the administrator there, the user is only read.
  again :
      (row : UserRow) (w : World e)
      → IsSeeded seed row w
      → ((ensure_admin_user seed w).0 ≡ ok row) × (rows_of (ensure_admin_user seed w).1 ≡ rows_of w)
  unfolding ensure_admin_user existing_or_new verify_admin ◌>>=◌ only
  again row w s =
      let found : (the_user (with_email seed.admin_email) w).0 ≡ ok row =
        the_user_exact (with_email seed.admin_email) w s.up ∙ rw s.found refl in
      let kept = rows-the_user (with_email seed.admin_email) w in
      (ground (arith, s.verified), ground (arith, s.verified))

  run-again :
      (row : UserRow) (w : World e) (fga : Option f.State)
      → IsSeeded seed row w
      → let (r', w', fga') = run f (some seed) w fga in
        (r' ≡ ok tt)
        × (rows_of w' ≡ rows_of w)
        × (fga' ≡ ensure_platform_admin f (e.crypto.uuid_string row.id) fga)
  unfolding run grant
  run-again row w fga s =
      let (same, kept) = again row w s in (ground arith, ground arith, ground arith)

  granted :
      (id : Str) (s : f.State)
      → (f.ensure_tuples (admin_tuple id ∷ []) s).0 ≡ true
      → (s₂ : f.State) × (ensure_platform_admin f id (ensure_platform_admin f id (some s))
          ≡ some s₂)
        × (f.holds s₂ (admin_tuple id) ≡ true)
  unfolding ensure_platform_admin
  granted id s h =
      let t = admin_tuple id in
      let s₁ = (f.ensure_tuples (t ∷ []) s).1 in
      (
        (f.ensure_tuples (t ∷ []) s₁).1,
        refl,
        f.ensure_keeps (t ∷ []) s₁ t (f.ensure_holds (t ∷ []) s t h (here refl)),
      )

  granted_or_refused :
      (id : Str) (s : f.State)
      → ((f.ensure_tuples (admin_tuple id ∷ []) s).0 ≡ false)
        ⊎ ((s₂ : f.State) × (ensure_platform_admin f id (ensure_platform_admin f id (some s))
              ≡ some s₂)
            × (f.holds s₂ (admin_tuple id) ≡ true))
  granted_or_refused id s = elim (Bool-cases (f.ensure_tuples (admin_tuple id ∷ []) s).0) [
    | inl took ↦ inr (granted id s took)
    | inr refused ↦ inl refused
  ]

  module _ (w : World e) (up : e.users.up w.users ≡ true) (keyed : IsKeyed (rows_of w)) where
    -- While the database answers, ids are unique and the seed has an email: after a start that
    -- succeeds, one row has the email, and it is verified; the next start succeeds and changes no row;
    -- and the store of relations refused the tuple of that user at the first start, or it holds it
    -- after the second.
    pub run_twice :
        (s : f.State)
        → (run f (some seed) w (some s)).0 ≡ ok tt
        → let (_, w₁, f₁) = run f (some seed) w (some s) in
          let (r₂, w₂, f₂) = run f (some seed) w₁ f₁ in
          (row : UserRow) × IsSeeded seed row w₁
          × (r₂ ≡ ok tt)
          × (rows_of w₂ ≡ rows_of w₁)
          × (((f.ensure_tuples (admin_tuple (e.crypto.uuid_string row.id) ∷ []) s).0 ≡ false)
              ⊎ ((s₂ : f.State) × (f₂ ≡ some s₂)
                  × (f.holds s₂ (admin_tuple (e.crypto.uuid_string row.id)) ≡ true)))
    run_twice s done =
        let (row, found, ran) = run-eq-ok w (some s) done in
        let seeded = ensure_admin_user-IsSeeded seed w up keyed found in
        let w₁ : World e = (ensure_admin_user seed w).1 in
        let id = e.crypto.uuid_string row.id in
        let (r, kept, tuples) = run-again row w₁ (ensure_platform_admin f id (some s)) seeded in
        rw ran (row, seeded, r, kept, rw tuples (granted_or_refused id s))

    -- While the database answers, ids are unique and no row has the email of the seed, which is not
    -- empty: after a start that succeeds, a login with the email and the password of the seed is that
    -- of an administrator.
    pub check_credentials-run :
        (cfg : Config) (fga : Option f.State)
        → filter (with_email seed.admin_email) (rows_of w) ≡ []
        → (run f (some seed) w fga).0 ≡ ok tt
        → (row : UserRow) × (row.role ≡ bytes "admin")
          × ((check_credentials cfg seed.admin_email seed.admin_password
                (run f (some seed) w fga).1).0
              ≡ ok (to_proto e.crypto row))
    unfolding judge only
    check_credentials-run cfg fga empty done =
        let (row, found, ran) = run-eq-ok w fga done in
        let new = ensure_admin_user-IsNew seed w up keyed empty found in
        let w₁ : World e = (ensure_admin_user seed w).1 in
        let s = new.seeded in
        (
          row,
          new.role,
          rw ran (
              check_credentials_exact cfg seed.admin_email seed.admin_password w₁ s.up s.keyed
              ∙ rw (s.found, new.checks, s.verified) refl),
        )
