-- ===== src/Biz/Users/Updating.antt =====
-- UpdateUser of app/iam/service/internal/biz/user.go: who may change what.
use servora_iam.Prelude.{
  ap, ◌∙◌, ◌≡◌, ◌≢◌, true, false, Str, ◌==◌, ==-refl, eq_iff, arith, some, inl, inr, modify, In,
  In-modify, is_empty,
}
use servora_iam.Errors.{ok}
use servora_iam.Exec.{◌>>=◌, Result-cases}
use servora_iam.Platform.Table.{with_id}
use servora_iam.Platform.Rows.{UserRow, users_schema}
use servora_iam.Platform.World.{Env, World}
use servora_iam.Data.Mapper.{User}
use servora_iam.Data.AuthnRepo.Updates.{rows_of}
use servora_iam.Data.UserRepo
use servora_iam.Data.UserRepo.{update_columns}
use servora_iam.Data.UserRepo.Changes.{update_user-eq-ok}
use servora_iam.Biz.Users.{update_user, check_user_name, check_email, is_new}
use servora_iam.Biz.Users.Frames.{rows-get_user_by_id, rows-check_user_name, rows-check_email}

module _ ⦃e : Env⦄ (caller_id : Str) (user : User) (w : World e) where
  abbrev w_found : World e
  w_found = (UserRepo.get_user_by_id user.id w).1

  abbrev w_name : User → World e
  w_name orig = (check_user_name (is_new user.username orig.username) user.username w_found).1

  abbrev w_email : User → World e
  w_email orig = (check_email (is_new user.email orig.email) user.email (w_name orig)).1

  rows_kept : (orig : User) → rows_of (w_email orig) ≡ rows_of w
  rows_kept orig =
      rows-check_email (is_new user.email orig.email) user.email (w_name orig)
      ∙ (rows-check_user_name (is_new user.username orig.username) user.username w_found
          ∙ rows-get_user_by_id user.id w)

  abbrev Steps : User → User → Type 0
  Steps v orig =
      ((UserRepo.get_user_by_id user.id w).0 ≡ ok orig)
      × ((caller_id == user.id) ≡ true)
      × ((UserRepo.update_user user (w_email orig)).0 ≡ ok v)
      × ((update_user caller_id user w).1 ≡ (UserRepo.update_user user (w_email orig)).1)

  Steps-done : {v : User} → (update_user caller_id user w).0 ≡ ok v → (orig : User) × Steps v orig
  unfolding update_user ◌>>=◌
  Steps-done {v} done = elim (Result-cases (UserRepo.get_user_by_id user.id w).0) [
    | inl (x, missing) ↦ absurd (ground arith)
    | inr (orig, found) ↦ (orig, (found, ground arith, ground arith, ground arith))
  ]

  -- An UpdateUser that succeeds was called by the user itself; it writes the columns of the request
  -- to the rows with the id of the user, and changes no other row.
  pub update_user_lem :
      {v : User}
      → (update_user caller_id user w).0 ≡ ok v
      → (caller_id ≡ user.id)
        × (uid : Str) × (e.crypto.parse_uuid user.id ≡ some uid)
        × (rows_of (update_user caller_id user w).1
            ≡ modify (with_id users_schema uid) (update_columns user) (rows_of w))
  update_user_lem {v} done =
      let (orig, steps) = Steps-done done in
      let (_, own, updated, same) = steps in
      let (uid, parsed, changed) = update_user-eq-ok user (w_email orig) updated in
      (
        (eq_iff caller_id user.id).0 own,
        uid,
        parsed,
        ap rows_of same
            ∙ (changed
                ∙ ap (modify (with_id users_schema uid) (update_columns user)) (rows_kept orig)),
      )

  -- An UpdateUser that succeeds with a role in the request gives that role to the user, whatever the
  -- role of the caller.
  pub update_user_grants_role :
      {v : User} (r : UserRow)
      → (update_user caller_id user w).0 ≡ ok v
      → is_empty user.role ≡ false
      → In r (rows_of (update_user caller_id user w).1)
      → e.crypto.parse_uuid user.id ≡ some r.id
      → r.role ≡ user.role
  unfolding update_columns
  update_user_grants_role {v} r done asked i is_id =
      let (_, uid, parsed, changed) = update_user_lem done in
      let (old, _, is_new_row) =
        In-modify (with_id users_schema uid) (update_columns user) r (rows_of w)
          (rw changed at i) in
      ground (arith, ==-refl uid)

  -- An UpdateUser by anyone but the user is refused and changes no row.
  pub update_user_refused :
      (caller_id == user.id) ≡ false
      → ((v : User) → (update_user caller_id user w).0 ≢ ok v)
        × (rows_of (update_user caller_id user w).1 ≡ rows_of w)
  unfolding update_user ◌>>=◌
  update_user_refused other =
      let kept = rows-get_user_by_id user.id w in (λ v done. ground arith, ground arith)
