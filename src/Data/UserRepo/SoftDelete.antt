-- ===== src/Data/UserRepo/SoftDelete.antt =====
-- The deletion mark of app/iam/service/internal/data/user.go: which users are found with it and
-- without it.
use servora_iam.Prelude.{
  ◌∙◌, ℕ, ◌≡◌, refl, Bool, true, ◌&&◌, List, [], ◌∷◌, Str, ◌==◌, arith, some, Option-cases, inl,
  inr, filter, modify,
}
use servora_iam.Errors.{ok, err, not_found}
use servora_iam.Exec.{◌>>=◌}
use servora_iam.Platform.Table.{with_id, only}
use servora_iam.Platform.Rows.{UserRow, users_schema}
use servora_iam.Platform.World.{Env, World, users_update}
use servora_iam.Data.Mapper.{User}
use servora_iam.Data.AuthnRepo.{parse_id}
use servora_iam.Data.AuthnRepo.Queries.{the_user_exact}
use servora_iam.Data.AuthnRepo.Updates.{rows_of}
use servora_iam.Data.UserRepo.{not_deleted, get_user_by_id, delete_user, restore_user}
use servora_iam.Data.UserRepo.Changes.{
  mark_deleted, unmark_deleted, delete_user-eq-ok, restore_user-eq-ok,
}

abbrev pub present : Str → UserRow → Bool
present uid r = r.id == uid && not_deleted r

filter-mark_deleted :
    (uid : Str) (now : ℕ) (rows : List UserRow)
    → filter (present uid) (modify (with_id users_schema uid) (mark_deleted now) rows) ≡ []
filter-mark_deleted uid now [] = refl
filter-mark_deleted uid now (r ∷ rows) = ground (arith, filter-mark_deleted uid now rows)

unmark-mark :
    (uid : Str) (now : ℕ) (rows : List UserRow)
    → modify
        (with_id users_schema uid)
        unmark_deleted
        (modify (with_id users_schema uid) (mark_deleted now) rows)
      ≡ modify (with_id users_schema uid) unmark_deleted rows
unmark-mark uid now [] = refl
unmark-mark uid now (r ∷ rows) = ground (arith, unmark-mark uid now rows)

module _ ⦃e : Env⦄ where
  pub up-delete_user :
      (id : Str) (w : World e)
      → e.users.up w.users ≡ true
      → (delete_user id w).0 ≡ ok tt
      → e.users.up (delete_user id w).1.users ≡ true
  unfolding delete_user parse_id users_update ◌>>=◌
  up-delete_user id w up h = elim (Option-cases (e.crypto.parse_uuid id)) [
    | inl bad ↦ absurd (ground arith)
    | inr (uid, parsed) ↦
        elim (Option-cases (e.users.update uid (mark_deleted w.clock) w.users).0) [
          | inl missing ↦ absurd (ground arith)
          | inr (r, found) ↦
              let (old, at, same) = e.users.update_found uid (mark_deleted w.clock) w.users found in
              let (_, up') =
                e.users.update_up uid (mark_deleted w.clock) w.users up at (λ s. refl) in
              ground arith
        ]
  ]

  -- While the database answers, a user that DeleteUser has marked without an error is not found.
  pub get-delete :
      (id : Str) (w : World e)
      → e.users.up w.users ≡ true
      → (delete_user id w).0 ≡ ok tt
      → (get_user_by_id id (delete_user id w).1).0 ≡ err not_found
  unfolding get_user_by_id parse_id only ◌>>=◌
  get-delete id w up h =
      let w' : World e = (delete_user id w).1 in
      let (uid, parsed, changed) = delete_user-eq-ok id w h in
      ground (
        arith,
        the_user_exact (present uid) w' (up-delete_user id w up h),
        filter-mark_deleted uid w.clock (rows_of w),
        parsed,
        changed,
      )

  -- A DeleteUser and a RestoreUser of a user, both without an error, leave every row as it was but
  -- the row of the user without a mark.
  pub restore-delete :
      (id : Str) (w : World e) {u : User}
      → (delete_user id w).0 ≡ ok tt
      → (restore_user id (delete_user id w).1).0 ≡ ok u
      → (uid : Str) × (e.crypto.parse_uuid id ≡ some uid)
        × (rows_of (restore_user id (delete_user id w).1).1
            ≡ modify (with_id users_schema uid) unmark_deleted (rows_of w))
  restore-delete id w deleted restored =
      let (uid, parsed, changed) = delete_user-eq-ok id w deleted in
      let (uid', parsed', changed') = restore_user-eq-ok id (delete_user id w).1 restored in
      let same : uid' ≡ uid = cc in
      (uid', parsed', changed' ∙ (rw (changed, same) (unmark-mark uid w.clock (rows_of w))))
