-- ===== src/Data/Seed/Admin.antt =====
-- The administrator after a start of the service: ensureAdminUser of
-- app/iam/service/internal/data/seed.go.
use servora_iam.Prelude.{
  ◌≡◌, refl, sym, ap, ◌∙◌, true, List, [], ◌∷◌, Str, arith, some, inl, inr, filter, find, bytes,
  Bool-cases, find-eq_filter, filter-modify, ==-refl,
}
use servora_iam.Errors.{Result, ok, err, not_found, failure, kratos}
use servora_iam.Exec.{Result-cases, ◌>>=◌}
use servora_iam.Platform.Table.{only, with_id}
use servora_iam.Platform.Rows.{UserRow, users_schema}
use servora_iam.Platform.World.{
  Env, World, users_insert, users_update, bcrypt_hash, new_uuid, bcrypt_check,
}
use servora_iam.Data.AuthnRepo.{the_user}
use servora_iam.Data.AuthnRepo.Queries.{
  with_email, IsKeyed, rows-the_user, up-the_user, the_user_exact, the_user-eq-ok, In-the_user,
}
use servora_iam.Data.AuthnRepo.Updates.{users_insert-eq-ok, rows_of, bcrypt_hash-checks}
use servora_iam.Data.AuthnRepo.Keys.{IsKeyed-modify, IsKeyed-append, filter-append_row}
use servora_iam.Data.Seed.{
  Seed, admin_row, set_email_verified, updated_or, verify_admin, create_admin, existing_or_new,
  ensure_admin_user,
}

module _ ⦃e : Env⦄ where
  -- The database answers, ids are unique, and `row` is the one row with the email of the seed, with
  -- its email verified.
  pub record IsSeeded (seed : Seed) (row : UserRow) (w : World e) : Type 0 where
    pub up : e.users.up w.users ≡ true
    pub keyed : IsKeyed (rows_of w)
    pub found : filter (with_email seed.admin_email) (rows_of w) ≡ row ∷ []
    pub verified : row.email_verified ≡ true

  module _ (seed : Seed) (existing : UserRow) (w : World e) (up : e.users.up w.users ≡ true)
      (keyed : IsKeyed (rows_of w))
      (found : filter (with_email seed.admin_email) (rows_of w) ≡ existing ∷ []) where
    verified_now :
        find (with_id users_schema existing.id) (rows_of w) ≡ some existing
        → let w' = (users_update existing.id set_email_verified w).1 in
          ((users_update existing.id set_email_verified w).0 ≡ ok (set_email_verified existing))
          × IsSeeded seed (set_email_verified existing) w'
    unfolding users_update
    verified_now first =
        let p = with_id users_schema existing.id in
        let (done, up') =
          e.users.update_up existing.id set_email_verified w.users up first (λ r. refl) in
        let changed = e.users.update_rows existing.id set_email_verified w.users done in
        let moved =
          filter-modify p set_email_verified (with_email seed.admin_email) (λ r. refl)
            (rows_of w) in
        (
          ground (arith, done),
          record {
            up = up';
            keyed = rw changed (IsKeyed-modify p set_email_verified (λ r. refl) (rows_of w) keyed);
            found =
                ap (filter (with_email seed.admin_email)) changed
                ∙ (moved ∙ rw found (rw (==-refl existing.id) refl));
            verified = refl;
          },
        )

    -- The user who exists comes back verified.
    verify_admin-IsSeeded :
        {r : UserRow}
        → find (with_id users_schema existing.id) (rows_of w) ≡ some existing
        → (verify_admin existing w).0 ≡ ok r
        → IsSeeded seed r (verify_admin existing w).1
    unfolding verify_admin updated_or ◌>>=◌
    verify_admin-IsSeeded {r} first h = elim (Bool-cases existing.email_verified) [
      | inl verified ↦
          let same : r ≡ existing = ground arith in
          let stays : (verify_admin existing w).1 ≡ w = ground arith in
          rw (same, stays) (record { up = up; keyed = keyed; found = found; verified = verified })
      | inr unverified ↦
          let (done, seeded) = verified_now first in
          let same : r ≡ set_email_verified existing = ground arith in
          let moves : (verify_admin existing w).1
              ≡ (users_update existing.id set_email_verified w).1 =
            ground arith in
          rw (same, moves) seeded
    ]

  -- A new administrator is the row that the seed describes, with a hash of its password.
  pub record IsNew (seed : Seed) (r : UserRow) (w : World e) : Type 0 where
    pub role : r.role ≡ (bytes "admin")
    pub checks : bcrypt_check seed.admin_password r.password ≡ true
    pub seeded : IsSeeded seed r w

  insert-IsSeeded :
      (seed : Seed) (row : UserRow) (w : World e)
      → e.users.up w.users ≡ true
      → IsKeyed (rows_of w)
      → filter (with_email row.email) (rows_of w) ≡ []
      → (users_insert row w).0 ≡ ok tt
      → seed.admin_email ≡ row.email
      → row.email_verified ≡ true
      → IsSeeded seed row (users_insert row w).1
  insert-IsSeeded seed row w up keyed empty h same verified =
      let (_, done, moved) = users_insert-eq-ok row w h in
      let (_, up') = e.users.insert_up row w.users up in
      let added = e.users.insert_rows row w.users done in
      let fresh = e.users.insert_unique row w.users done in
      rw moved (record {
        up = up';
        keyed = rw added (IsKeyed-append row (rows_of w) fresh keyed);
        found = rw (same, added) (filter-append_row row (rows_of w) empty);
        verified = verified;
      })

  abbrev new_uuid_of : World e → Str
  new_uuid_of w = (e.crypto.new_uuid w.source).0

  create_admin-IsNew :
      (seed : Seed) (w : World e) {r : UserRow}
      → e.users.up w.users ≡ true
      → IsKeyed (rows_of w)
      → filter (with_email seed.admin_email) (rows_of w) ≡ []
      → (create_admin seed w).0 ≡ ok r
      → IsNew seed r (create_admin seed w).1
  unfolding create_admin ◌>>=◌ new_uuid bcrypt_hash admin_row
  create_admin-IsNew seed w {r} up keyed empty h =
      elim (Result-cases (bcrypt_hash seed.admin_password w).0) [
        | inl (x, failed) ↦ absurd (ground arith)
        | inr (pw, hashed) ↦
            let w_hash : World e = (bcrypt_hash seed.admin_password w).1 in
            let row : UserRow = admin_row seed pw (new_uuid_of w_hash) in
            let w_id : World e = (new_uuid w_hash).1 in
            elim (Result-cases (users_insert row w_id).0) [
              | inl (x, refused) ↦ absurd (ground arith)
              | inr (one, done) ↦
                  let same : r ≡ row = ground arith in
                  let ends : (create_admin seed w).1 ≡ (users_insert row w_id).1 = ground arith in
                  rw (same, ends)
                    (record {
                      role = refl;
                      checks = bcrypt_hash-checks seed.admin_password w hashed;
                      seeded = insert-IsSeeded seed row w_id up keyed empty done refl refl;
                    })
            ]
      ]

  only-eq-not_found : (rows : List UserRow) → only rows ≡ err not_found → rows ≡ []
  unfolding only
  only-eq-not_found [] h = refl
  only-eq-not_found (r ∷ []) h = cc
  only-eq-not_found (r ∷ s ∷ rows) h = cc

  module _ (seed : Seed) (w : World e) (up : e.users.up w.users ≡ true)
      (keyed : IsKeyed (rows_of w)) where
    abbrev lookup : Result UserRow × World e
    lookup = the_user (with_email seed.admin_email) w

    same_rows : rows_of lookup.1 ≡ rows_of w
    same_rows = rows-the_user (with_email seed.admin_email) w

    exact : lookup.0 ≡ only (filter (with_email seed.admin_email) (rows_of w))
    exact = the_user_exact (with_email seed.admin_email) w up

    existing-IsSeeded :
        (existing : UserRow) {r : UserRow}
        → lookup.0 ≡ ok existing
        → (verify_admin existing lookup.1).0 ≡ ok r
        → IsSeeded seed r (verify_admin existing lookup.1).1
    existing-IsSeeded existing h done =
        let (i, _) = In-the_user (with_email seed.admin_email) w h in
        let by_id = with_id users_schema existing.id in
        verify_admin-IsSeeded seed existing lookup.1
          (up-the_user (with_email seed.admin_email) w up) (rw same_rows keyed)
          (rw same_rows (the_user-eq-ok (with_email seed.admin_email) w h))
          (rw same_rows (find-eq_filter by_id (rows_of w) (keyed existing i))) done

    created-IsNew :
        {r : UserRow}
        → lookup.0 ≡ err not_found
        → (create_admin seed lookup.1).0 ≡ ok r
        → IsNew seed r (create_admin seed lookup.1).1
    created-IsNew h done =
        let empty =
          only-eq-not_found (filter (with_email seed.admin_email) (rows_of w)) (sym exact ∙ h) in
        create_admin-IsNew seed lookup.1 (up-the_user (with_email seed.admin_email) w up)
          (rw same_rows keyed) (rw same_rows empty) done

    -- The user that ensureAdminUser returns is the one with the email of the seed.
    pub ensure_admin_user-IsSeeded :
        {r : UserRow}
        → (ensure_admin_user seed w).0 ≡ ok r
        → IsSeeded seed r (ensure_admin_user seed w).1
    unfolding ensure_admin_user existing_or_new ◌>>=◌
    ensure_admin_user-IsSeeded {r} done = elim (Result-cases lookup.0) [
      | inr (existing, h) ↦
          let ends : ensure_admin_user seed w ≡ verify_admin existing lookup.1 = ground arith in
          rw ends (existing-IsSeeded existing h (rw ends at done))
      | inl (not_found, h) ↦
          let ends : ensure_admin_user seed w ≡ create_admin seed lookup.1 = ground arith in
          rw ends (created-IsNew h (rw ends at done)).seeded
      | inl (failure, h) ↦ absurd (ground arith)
      | inl (kratos reason m, h) ↦ absurd (ground arith)
    ]

    pub ensure_admin_user-IsNew :
        {r : UserRow}
        → filter (with_email seed.admin_email) (rows_of w) ≡ []
        → (ensure_admin_user seed w).0 ≡ ok r
        → IsNew seed r (ensure_admin_user seed w).1
    unfolding ensure_admin_user existing_or_new ◌>>=◌ only
    ensure_admin_user-IsNew {r} empty done =
        let h : lookup.0 ≡ err not_found = exact ∙ rw empty refl in
        let ends : ensure_admin_user seed w ≡ create_admin seed lookup.1 = ground arith in
        rw ends (created-IsNew h (rw ends at done))
