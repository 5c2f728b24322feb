-- ===== src/Data/AuthnRepo/Keys.antt =====
-- The primary key of the users of app/iam/service/internal/data/schema/user.go, under a change of rows
-- and under a new row.
use servora_iam.Prelude.{
  ◌∙◌, ◌≡◌, refl, Bool, false, List, [], ◌∷◌, ◌++◌, ◌==◌, ==-refl, eq_iff, arith, filter, modify,
  any, In, here, there, In-modify, filter-modify, filter-append, In-append_one, inl, inr,
}
use servora_iam.Platform.Rows.{UserRow, users_schema}
use servora_iam.Platform.World.{Env}
use servora_iam.Data.AuthnRepo.Queries.{IsKeyed, with_email}

module _ ⦃e : Env⦄ where
  pub IsKeyed-modify :
      (p : UserRow → Bool) (f : UserRow → UserRow)
      → ((s : UserRow) → (f s).id ≡ s.id)
      → (rows : List UserRow) → IsKeyed rows
      → IsKeyed (modify p f rows)
  IsKeyed-modify p f keeps rows keyed r i =
      let (old, j, same) = In-modify p f r rows i in
      let same_id : r.id ≡ old.id = ground (arith, keeps old) in
      let q : UserRow → Bool = λ s. s.id == old.id in
      let moved = filter-modify p f q (λ s. rw (keeps s) refl) rows in
      rw same_id (ground (arith, moved, keyed old j, same))

  -- A row that collides with none has an id that none has.
  filter-none :
      (row : UserRow) (rows : List UserRow)
      → any (users_schema.clash row) rows ≡ false
      → filter (λ s. s.id == row.id) rows ≡ []
  filter-none row [] fresh = refl
  filter-none row (r ∷ rows) fresh =
      ground (arith, eq_iff row.id r.id, eq_iff r.id row.id, filter-none row rows)

  new_id :
      (row : UserRow) (rows : List UserRow) (r : UserRow)
      → any (users_schema.clash row) rows ≡ false
      → In r rows
      → (row.id == r.id) ≡ false
  new_id row [] r fresh i = elim i [ ]
  new_id row (s ∷ rows) r fresh (here same) = rw same (ground arith)
  new_id row (s ∷ rows) r fresh (there i) = new_id row rows r (ground arith) i

  pub IsKeyed-append :
      (row : UserRow) (rows : List UserRow)
      → any (users_schema.clash row) rows ≡ false
      → IsKeyed rows
      → IsKeyed (rows ++ row ∷ [])
  IsKeyed-append row rows fresh keyed r i =
      let split = filter-append (λ (s : UserRow). s.id == r.id) rows (row ∷ []) in
      elim (In-append_one r row rows i) [
        | inl j ↦ rw split (ground (arith, keyed r j, new_id row rows r fresh j))
        | inr same ↦ rw split (rw same (ground (arith, filter-none row rows fresh, ==-refl row.id)))
      ]

  -- After a new row with the email, when there was none, the query by the email finds that row.
  pub filter-append_row :
      (row : UserRow) (rows : List UserRow)
      → filter (with_email row.email) rows ≡ []
      → filter (with_email row.email) (rows ++ row ∷ []) ≡ row ∷ []
  filter-append_row row rows empty =
      filter-append (with_email row.email) rows (row ∷ [])
      ∙ ground (arith, empty, ==-refl row.email)
