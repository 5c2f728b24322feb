-- ===== src/Data/UserRepo/Changes.antt =====
-- Which rows the functions of app/iam/service/internal/data/user.go change.
use servora_iam.Prelude.{
  ℕ, ◌≡◌, not, Str, arith, some, none, Option-cases, Bool-cases, inl, inr, filter, modify,
}
use servora_iam.Errors.{ok}
use servora_iam.Exec.{◌>>=◌, Result-cases}
use servora_iam.Platform.Table.{with_id}
use servora_iam.Platform.Rows.{UserRow, users_schema}
use servora_iam.Platform.World.{Env, World, users_update, users_delete}
use servora_iam.Data.Mapper.{User}
use servora_iam.Data.AuthnRepo.{parse_id}
use servora_iam.Data.AuthnRepo.Updates.{rows_of}
use servora_iam.Data.UserRepo.{
  update_columns, delete_user, purge_cascade, restore_user, update_user,
}

abbrev pub mark_deleted : ℕ → UserRow → UserRow
mark_deleted now r = record r { deleted_at = some now }

abbrev pub unmark_deleted : UserRow → UserRow
unmark_deleted r = record r { deleted_at = none }

module _ ⦃e : Env⦄ where
  -- An update of one row that succeeds, and the rows after it.
  users_update-eq-ok :
      (id : Str) (change : UserRow → UserRow) (w : World e) {r : UserRow}
      → (users_update id change w).0 ≡ ok r
      → (rows_of (users_update id change w).1 ≡ modify (with_id users_schema id) change (rows_of w))
  unfolding users_update
  users_update-eq-ok id change w {r} h = elim (Option-cases (e.users.update id change w.users).0) [
    | inl missing ↦ absurd (ground arith)
    | inr (s, found) ↦ e.users.update_rows id change w.users found
  ]

  pub delete_user-eq-ok :
      (id : Str) (w : World e)
      → (delete_user id w).0 ≡ ok tt
      → (uid : Str) × (e.crypto.parse_uuid id ≡ some uid)
        × (rows_of (delete_user id w).1
            ≡ modify (with_id users_schema uid) (mark_deleted w.clock) (rows_of w))
  unfolding delete_user parse_id ◌>>=◌
  delete_user-eq-ok id w h = elim (Option-cases (e.crypto.parse_uuid id)) [
    | inl bad ↦ absurd (ground arith)
    | inr (uid, parsed) ↦ elim (Result-cases (users_update uid (mark_deleted w.clock) w).0) [
      | inl (x, missing) ↦ absurd (ground arith)
      | inr (r, found) ↦
          (uid, parsed, ground (arith, users_update-eq-ok uid (mark_deleted w.clock) w found))
    ]
  ]

  pub restore_user-eq-ok :
      (id : Str) (w : World e) {u : User}
      → (restore_user id w).0 ≡ ok u
      → (uid : Str) × (e.crypto.parse_uuid id ≡ some uid)
        × (rows_of (restore_user id w).1
            ≡ modify (with_id users_schema uid) unmark_deleted (rows_of w))
  unfolding restore_user parse_id ◌>>=◌
  restore_user-eq-ok id w {u} h = elim (Option-cases (e.crypto.parse_uuid id)) [
    | inl bad ↦ absurd (ground arith)
    | inr (uid, parsed) ↦ elim (Result-cases (users_update uid unmark_deleted w).0) [
      | inl (x, missing) ↦ absurd (ground arith)
      | inr (r, found) ↦
          (uid, parsed, ground (arith, users_update-eq-ok uid unmark_deleted w found))
    ]
  ]

  pub update_user-eq-ok :
      (u : User) (w : World e) {v : User}
      → (update_user u w).0 ≡ ok v
      → (uid : Str) × (e.crypto.parse_uuid u.id ≡ some uid)
        × (rows_of (update_user u w).1
            ≡ modify (with_id users_schema uid) (update_columns u) (rows_of w))
  unfolding update_user parse_id ◌>>=◌
  update_user-eq-ok u w {v} h = elim (Option-cases (e.crypto.parse_uuid u.id)) [
    | inl bad ↦ absurd (ground arith)
    | inr (uid, parsed) ↦ elim (Result-cases (users_update uid (update_columns u) w).0) [
      | inl (x, missing) ↦ absurd (ground arith)
      | inr (r, found) ↦
          (uid, parsed, ground (arith, users_update-eq-ok uid (update_columns u) w found))
    ]
  ]

  pub purge_cascade-eq-ok :
      (id : Str) (w : World e)
      → (purge_cascade id w).0 ≡ ok tt
      → (uid : Str) × (e.crypto.parse_uuid id ≡ some uid)
        × (rows_of (purge_cascade id w).1
            ≡ filter (λ r. not (with_id users_schema uid r)) (rows_of w))
  unfolding purge_cascade parse_id users_delete ◌>>=◌
  purge_cascade-eq-ok id w h = elim (Option-cases (e.crypto.parse_uuid id)) [
    | inl bad ↦ absurd (ground arith)
    | inr (uid, parsed) ↦ elim (Bool-cases (e.users.delete uid w.users).0) [
      | inl done ↦ (uid, parsed, ground (arith, e.users.delete_rows uid w.users done))
      | inr missing ↦ absurd (ground arith)
    ]
  ]
