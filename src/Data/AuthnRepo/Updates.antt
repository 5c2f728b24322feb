-- ===== src/Data/AuthnRepo/Updates.antt =====
-- The updates of one user of app/iam/service/internal/data/authn.go: which row they change.
use servora_iam.Prelude.{
  ◌≡◌, Bool, true, List, Str, ◌==◌, arith, some, Option-cases, Bool-cases, inl, inr, In, modify,
}
use servora_iam.Errors.{ok}
use servora_iam.Exec.{◌>>=◌, Result-cases}
use servora_iam.Platform.Table.{with_id}
use servora_iam.Platform.Rows.{UserRow, users_schema, user_fits}
use servora_iam.Platform.World.{Env, World, users_insert, users_update, bcrypt_hash, bcrypt_check}
use servora_iam.Data.AuthnRepo.{
  the_user, get_password_hash, update_password, update_email_verified, mark_verified,
}
use servora_iam.Data.AuthnRepo.Queries.{In-the_user, rows-the_user}

module _ ⦃e : Env⦄ where
  abbrev pub rows_of : World e → List UserRow
  rows_of w = e.users.rows w.users

  -- An insert that succeeds has passed the check of the builder, and the table took the row.
  pub users_insert-eq-ok :
      (row : UserRow) (w : World e)
      → (users_insert row w).0 ≡ ok tt
      → (user_fits row ≡ true)
        × ((e.users.insert row w.users).0 ≡ true)
        × ((users_insert row w).1 ≡ record w { users = (e.users.insert row w.users).1 })
  unfolding users_insert
  users_insert-eq-ok row w h = elim (Bool-cases (e.users.insert row w.users).0) [
    | inl done ↦ (ground arith, done, ground arith)
    | inr refused ↦ absurd (ground arith)
  ]

  pub bcrypt_hash-checks :
      (password : Str) (w : World e) {hash : Str}
      → (bcrypt_hash password w).0 ≡ ok hash
      → bcrypt_check password hash ≡ true
  unfolding bcrypt_hash bcrypt_check
  bcrypt_hash-checks password w {hash} h =
      e.crypto.compare-generate password w.source {hash = hash} (ground arith)

  -- The password hash that is read is that of the row with the id.
  pub get_password_hash-eq-ok :
      (user_id : Str) (w : World e) {hash : Str}
      → (get_password_hash user_id w).0 ≡ ok hash
      → (id : Str) × (r : UserRow) × (e.crypto.parse_uuid user_id ≡ some id)
        × In r (rows_of w)
        × ((r.id == id) ≡ true)
        × (r.password ≡ hash)
  unfolding get_password_hash ◌>>=◌
  get_password_hash-eq-ok user_id w {hash} h = elim (Option-cases (e.crypto.parse_uuid user_id)) [
    | inl bad ↦ absurd (ground arith)
    | inr (id, parsed) ↦
        let test : UserRow → Bool = λ r. r.id == id in
        elim (Result-cases (the_user test w).0) [
          | inl (x, missing) ↦ absurd (ground arith)
          | inr (r, found) ↦
              let (i, has_id) = In-the_user test w found in (id, r, parsed, i, has_id, ground arith)
        ]
  ]

  pub rows-get_password_hash :
      (user_id : Str) (w : World e) → rows_of (get_password_hash user_id w).1 ≡ rows_of w
  unfolding get_password_hash ◌>>=◌
  rows-get_password_hash user_id w = elim (Option-cases (e.crypto.parse_uuid user_id)) [
    | inl bad ↦ ground arith
    | inr (id, parsed) ↦ let same = rows-the_user (λ (r : UserRow). r.id == id) w in ground arith
  ]

  -- UpdatePassword changes the password of the row with the id, and of no other.
  pub update_password-eq-ok :
      (user_id hash : Str) (w : World e)
      → (update_password user_id hash w).0 ≡ ok tt
      → (id : Str) × (e.crypto.parse_uuid user_id ≡ some id)
        × (rows_of (update_password user_id hash w).1
            ≡ modify (with_id users_schema id) (λ r. record r { password = hash }) (rows_of w))
  unfolding update_password users_update ◌>>=◌
  update_password-eq-ok user_id hash w h = elim (Option-cases (e.crypto.parse_uuid user_id)) [
    | inl bad ↦ absurd (ground arith)
    | inr (id, parsed) ↦
        let change : UserRow → UserRow = λ r. record r { password = hash } in
        elim (Option-cases (e.users.update id change w.users).0) [
          | inl refused ↦ absurd (ground arith)
          | inr (r, done) ↦
              let written = e.users.update_rows id change w.users done in (id, parsed, ground arith)
        ]
  ]

  pub update_email_verified-eq-ok :
      (user_id : Str) (verified : Bool) (w : World e)
      → (update_email_verified user_id verified w).0 ≡ ok tt
      → (id : Str) × (e.crypto.parse_uuid user_id ≡ some id)
        × (rows_of (update_email_verified user_id verified w).1
            ≡ modify (with_id users_schema id) (mark_verified verified w.clock) (rows_of w))
  unfolding update_email_verified users_update ◌>>=◌
  update_email_verified-eq-ok user_id verified w h =
      elim (Option-cases (e.crypto.parse_uuid user_id)) [
        | inl bad ↦ absurd (ground arith)
        | inr (id, parsed) ↦
            let change : UserRow → UserRow = mark_verified verified w.clock in
            elim (Option-cases (e.users.update id change w.users).0) [
              | inl refused ↦ absurd (ground arith)
              | inr (r, done) ↦
                  let written = e.users.update_rows id change w.users done in
                  (id, parsed, ground arith)
            ]
      ]
