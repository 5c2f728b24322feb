-- ===== src/Data/Columns.antt =====
-- The lengths of the columns of users, through every write of app/iam/service/internal/data/authn.go,
-- user.go and seed.go, whether it succeeds or not.
pub mod Writes
use servora_iam.Prelude.{
  ◌≡◌, refl, ap, ◌∙◌, Bool, true, not, List, [], ◌∷◌, ◌++◌, Str, All, filter, modify, arith,
  Bool-cases, Option-cases, inl, inr, some, none,
}
use servora_iam.Errors.{Result, ok, err, not_found, failure, kratos}
use servora_iam.Exec.{Result-cases, ◌>>=◌}
use servora_iam.Platform.Table.{with_id}
use servora_iam.Platform.Rows.{UserRow, users_schema, user_fits, within}
use servora_iam.Platform.World.{
  Env, World, users_insert, users_update, users_delete, new_uuid, bcrypt_hash,
}
use servora_iam.Data.Mapper.{User}
use servora_iam.Data.AuthnRepo
use servora_iam.Data.AuthnRepo.{
  parse_id, update_password, update_email_verified, mark_verified, the_user,
}
use servora_iam.Data.AuthnRepo.Queries.{rows-the_user, with_email}
use servora_iam.Data.AuthnRepo.Updates.{rows_of}
use servora_iam.Data.UserRepo
use servora_iam.Data.UserRepo.{
  id_or_new, row_of, update_columns, columns_fit, or_old, delete_user, purge_cascade, restore_user,
  update_user,
}
use servora_iam.Data.Seed.{
  Seed, admin_row, set_email_verified, verify_admin, create_admin, existing_or_new,
  ensure_admin_user,
}

abbrev pub FitsAll : List UserRow → Type 0
FitsAll rows = All (λ r. user_fits r ≡ true) rows

FitsAll-append :
    (rows : List UserRow) (row : UserRow)
    → FitsAll rows
    → user_fits row ≡ true
    → FitsAll (rows ++ row ∷ [])
FitsAll-append [] row h fit = (fit, tt)
FitsAll-append (r ∷ rows) row (first, rest) fit = (first, FitsAll-append rows row rest fit)

FitsAll-modify :
    (p : UserRow → Bool) (f : UserRow → UserRow) (rows : List UserRow)
    → ((r : UserRow) → user_fits r ≡ true → user_fits (f r) ≡ true)
    → FitsAll rows
    → FitsAll (modify p f rows)
FitsAll-modify p f [] keeps h = tt
FitsAll-modify p f (r ∷ rows) keeps (first, rest) =
    (ground (arith, keeps r first, first), FitsAll-modify p f rows keeps rest)

FitsAll-filter : (p : UserRow → Bool) (rows : List UserRow) → FitsAll rows → FitsAll (filter p rows)
FitsAll-filter p [] h = tt
FitsAll-filter p (r ∷ rows) (first, rest) =
    let tail = FitsAll-filter p rows rest in
    elim (Bool-cases (p r)) [ inl kept ↦ rw kept (first, tail) | inr left ↦ rw left tail ]

module _ ⦃e : Env⦄ where
  -- Every row is within the lengths of its columns.
  abbrev pub IsFit : World e → Type 0
  IsFit w = FitsAll (rows_of w)

  pub users_insert-IsFit : (row : UserRow) (w : World e) → IsFit w → IsFit (users_insert row w).1
  unfolding users_insert
  users_insert-IsFit row w h = elim (Bool-cases (user_fits row)) [
    | inr long ↦ rw long h
    | inl fit ↦ rw fit (elim (Bool-cases (e.users.insert row w.users).0) [
      | inl done ↦ rw (e.users.insert_rows row w.users done) (FitsAll-append (rows_of w) row h fit)
      | inr refused ↦ rw (e.users.insert_refused row w.users refused) h
    ])
  ]

  pub users_update-IsFit :
      (id : Str) (change : UserRow → UserRow) (w : World e)
      → ((r : UserRow) → user_fits r ≡ true → user_fits (change r) ≡ true)
      → IsFit w
      → IsFit (users_update id change w).1
  unfolding users_update
  users_update-IsFit id change w keeps h =
      elim (Option-cases (e.users.update id change w.users).0) [
        | inl refused ↦ rw (e.users.update_refused id change w.users refused) h
        | inr (r, done) ↦
            rw (e.users.update_rows id change w.users done)
              (FitsAll-modify (with_id users_schema id) change (rows_of w) keeps h)
      ]

  pub users_delete-IsFit : (id : Str) (w : World e) → IsFit w → IsFit (users_delete id w).1
  unfolding users_delete
  users_delete-IsFit id w h = elim (Bool-cases (e.users.delete id w.users).0) [
    | inl done ↦
        rw (e.users.delete_rows id w.users done)
          (FitsAll-filter (λ r. not (with_id users_schema id r)) (rows_of w) h)
    | inr refused ↦ rw (e.users.delete_refused id w.users refused) h
  ]

  -- A write is its insert, update or delete, or nothing.
  pub save_user-IsFit :
      (u : User) (hashed : Str) (w : World e) → IsFit w → IsFit (AuthnRepo.save_user u hashed w).1
  unfolding AuthnRepo.save_user new_uuid ◌>>=◌
  save_user-IsFit u hashed w h =
      let row : UserRow = AuthnRepo.new_row u hashed (e.crypto.new_uuid w.source).0 in
      let w_id : World e = (new_uuid w).1 in
      let ends : (AuthnRepo.save_user u hashed w).1 ≡ (users_insert row w_id).1 = ground arith in
      rw ends (users_insert-IsFit row w_id h)

  pub create_user-IsFit :
      (u : User) (hashed : Str) (w : World e) → IsFit w → IsFit (UserRepo.save_user u hashed w).1
  unfolding UserRepo.save_user id_or_new parse_id new_uuid ◌>>=◌
  create_user-IsFit u hashed w h =
      let w_id : World e = (id_or_new u.id w).1 in
      let same : rows_of w_id ≡ rows_of w = ground arith in
      elim (Result-cases (id_or_new u.id w).0) [
        | inl (x, bad) ↦
            let ends : (UserRepo.save_user u hashed w).1 ≡ w_id = ground arith in rw (ends, same) h
        | inr (id, given) ↦
            let row = row_of u hashed id in
            let ends : (UserRepo.save_user u hashed w).1 ≡ (users_insert row w_id).1 =
              ground arith in
            rw ends (users_insert-IsFit row w_id (rw same h))
      ]

  update_columns_fit :
      (u : User) (r : UserRow)
      → columns_fit u ≡ true
      → user_fits r ≡ true
      → user_fits (update_columns u r) ≡ true
  unfolding columns_fit user_fits update_columns
  update_columns_fit u r fit h = ground arith

  pub update_user-IsFit : (u : User) (w : World e) → IsFit w → IsFit (update_user u w).1
  unfolding update_user parse_id ◌>>=◌
  update_user-IsFit u w h = elim (Option-cases (e.crypto.parse_uuid u.id)) [
    | inl bad ↦ let ends : (update_user u w).1 ≡ w = ground arith in rw ends h
    | inr (uid, parsed) ↦ elim (Bool-cases (columns_fit u)) [
      | inr long ↦ let ends : (update_user u w).1 ≡ w = ground arith in rw ends h
      | inl fit ↦
          let change = update_columns u in
          let ends : (update_user u w).1 ≡ (users_update uid change w).1 = ground arith in
          rw ends (users_update-IsFit uid change w (λ r. update_columns_fit u r fit) h)
    ]
  ]

  password_fit :
      (hashed : Str) (r : UserRow)
      → within 255 hashed ≡ true
      → user_fits r ≡ true
      → user_fits (record r { password = hashed }) ≡ true
  unfolding user_fits
  password_fit hashed r fit h = ground arith

  pub update_password-IsFit :
      (user_id hashed : Str) (w : World e) → IsFit w → IsFit (update_password user_id hashed w).1
  unfolding update_password ◌>>=◌
  update_password-IsFit user_id hashed w h = elim (Option-cases (e.crypto.parse_uuid user_id)) [
    | inl bad ↦ let ends : (update_password user_id hashed w).1 ≡ w = ground arith in rw ends h
    | inr (uid, parsed) ↦ elim (Bool-cases (within 255 hashed)) [
      | inr long ↦ let ends : (update_password user_id hashed w).1 ≡ w = ground arith in rw ends h
      | inl fit ↦
          let change : UserRow → UserRow = λ r. record r { password = hashed } in
          let ends : (update_password user_id hashed w).1 ≡ (users_update uid change w).1 =
            ground arith in
          rw ends (users_update-IsFit uid change w (λ r. password_fit hashed r fit) h)
    ]
  ]
