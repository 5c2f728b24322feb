-- ===== src/Data/AuthnRepo/Queries.antt =====
-- The queries for one user of app/iam/service/internal/data/authn.go: what they return, and the
-- rows after them.
use servora_iam.Prelude.{
  ◌∙◌, ◌≡◌, refl, sym, Bool, true, List, [], ◌∷◌, Str, ◌==◌, arith, Option-cases, inl, inr, filter,
  In, In-one, In-filter, In-of_filter, here,
}
use servora_iam.Errors.{ok}
use servora_iam.Exec.{◌>>=◌}
use servora_iam.Platform.Table.{only}
use servora_iam.Platform.Rows.{UserRow}
use servora_iam.Platform.World.{Env, World, users_select}
use servora_iam.Data.Mapper.{to_proto}
use servora_iam.Data.AuthnRepo.{the_user, get_user_by_id, get_password_hash, parse_id}

pub only-eq-ok : {A : Type 0} (xs : List A) {r : A} → only xs ≡ ok r → xs ≡ r ∷ []
unfolding only
only-eq-ok [] h = cc
only-eq-ok (x ∷ []) h = cc
only-eq-ok (x ∷ y ∷ ys) h = cc

module _ ⦃e : Env⦄ where
  -- A query reads the table and the other state stays as it is.
  pub rows-the_user :
      (test : UserRow → Bool) (w : World e)
      → e.users.rows (the_user test w).1.users ≡ e.users.rows w.users
  unfolding the_user users_select ◌>>=◌
  rows-the_user test w = ground (arith, e.users.select_keeps test w.users)

  pub up-the_user :
      (test : UserRow → Bool) (w : World e)
      → e.users.up w.users ≡ true
      → e.users.up (the_user test w).1.users ≡ true
  unfolding the_user users_select ◌>>=◌
  up-the_user test w up = ground (arith, e.users.select_up test w.users up)

  -- While the database answers, the one row that passes the test, if it is one.
  pub the_user_exact :
      (test : UserRow → Bool) (w : World e)
      → e.users.up w.users ≡ true
      → (the_user test w).0 ≡ only (filter test (e.users.rows w.users))
  unfolding the_user users_select ◌>>=◌
  the_user_exact test w up = ground (arith, e.users.select_up test w.users up)

  pub the_user-eq-ok :
      (test : UserRow → Bool) (w : World e) {r : UserRow}
      → (the_user test w).0 ≡ ok r
      → filter test (e.users.rows w.users) ≡ r ∷ []
  unfolding the_user users_select ◌>>=◌
  the_user-eq-ok test w {r} h = elim (Option-cases (e.users.select test w.users).0) [
    | inl failed ↦ ground arith
    | inr (rs, found) ↦ sym (e.users.select_sound test w.users found) ∙ only-eq-ok rs (ground arith)
  ]

  pub In-the_user :
      (test : UserRow → Bool) (w : World e) {r : UserRow}
      → (the_user test w).0 ≡ ok r
      → In r (e.users.rows w.users) × (test r ≡ true)
  In-the_user test w {r} h =
      In-of_filter test r (e.users.rows w.users) (rw (the_user-eq-ok test w h) (here refl))

  -- Two queries that a row passes both return that row.
  pub the_user_unique :
      (test : UserRow → Bool) (rows : List UserRow) {r s : UserRow}
      → In r rows
      → test r ≡ true
      → filter test rows ≡ s ∷ []
      → r ≡ s
  the_user_unique test rows i h one = In-one (rw one at (In-filter test i h))

  abbrev pub with_email : Str → UserRow → Bool
  with_email email r = r.email == email

  abbrev pub with_user_name : Str → UserRow → Bool
  with_user_name name r = r.username == name

  -- The primary key: a row is found by its id, and no other row has it.
  abbrev pub IsKeyed : List UserRow → Type 0
  IsKeyed rows = (r : UserRow) → In r rows → filter (λ s. s.id == r.id) rows ≡ r ∷ []

  -- A query by the id of a row, as the messages spell it, finds the row.
  pub hash_of_row :
      (r : UserRow) (w : World e)
      → e.users.up w.users ≡ true
      → IsKeyed (e.users.rows w.users)
      → In r (e.users.rows w.users)
      → (get_password_hash (e.crypto.uuid_string r.id) w).0 ≡ ok r.password
  unfolding get_password_hash parse_id only ◌>>=◌
  hash_of_row r w up keyed i =
      let by_id : UserRow → Bool = λ s. s.id == r.id in
      let one : only (filter by_id (e.users.rows w.users)) ≡ ok r = rw (keyed r i) in
      ground (arith, e.crypto.parse-uuid_string r.id, the_user_exact by_id w up, one)

  pub user_of_row :
      (r : UserRow) (w : World e)
      → e.users.up w.users ≡ true
      → IsKeyed (e.users.rows w.users)
      → In r (e.users.rows w.users)
      → (get_user_by_id (e.crypto.uuid_string r.id) w).0 ≡ ok (to_proto e.crypto r)
  unfolding get_user_by_id parse_id only ◌>>=◌
  user_of_row r w up keyed i =
      let by_id : UserRow → Bool = λ s. s.id == r.id in
      let one : only (filter by_id (e.users.rows w.users)) ≡ ok r = rw (keyed r i) in
      ground (arith, e.crypto.parse-uuid_string r.id, the_user_exact by_id w up, one)
