-- ===== src/Biz/Users/Pages.antt =====
-- The list of users, page by page: ListUsers of app/iam/service/internal/biz/user.go.
use servora_iam.Prelude.{
  ◌≡◌, refl, sym, ap, ◌∙◌, true, ℕ, zero, suc, ◌+◌, ◌*◌, ◌≤◌, ◌<◌, pos, List, [], ◌∷◌, ◌++◌, arith,
  filter, take, drop, sort, untied, length, length-sort, word_32,
}
use mathlib.Core.List.{map}
use servora_iam.Errors.{ok}
use servora_iam.Exec.{pure, ◌>>=◌}
use servora_iam.Platform.Table.{count}
use servora_iam.Platform.Rows.{UserRow}
use servora_iam.Platform.World.{Env, World, Action, users_count, users_page}
use servora_iam.Data.Mapper.{User, to_proto}
use servora_iam.Data.Paging.{offset_of_small, limit_of_small, take-append_page, take_all}
use servora_iam.Data.AuthnRepo.Updates.{rows_of}
use servora_iam.Data.UserRepo
use servora_iam.Data.UserRepo.{not_deleted, by_id}
use servora_iam.Biz.Users.{list_users}

map-append : {A B : Type 0} (f : A → B) (xs ys : List A) → map f (xs ++ ys) ≡ map f xs ++ map f ys
map-append f [] ys = refl
map-append f (x ∷ xs) ys = ap (λ zs. f x ∷ zs) (map-append f xs ys)

module _ ⦃e : Env⦄ where
  abbrev pub live : World e → List UserRow
  live w = filter not_deleted (rows_of w)

  -- The live users, the highest id first.
  abbrev pub in_order : World e → List User
  in_order w = map (to_proto e.crypto) (sort by_id (live w))

  abbrev slice : (skip size : ℕ) → World e → List User
  slice skip size w = map (to_proto e.crypto) (take size (drop skip (sort by_id (live w))))

  module _ (n size : ℕ) (few : suc n < word_32) (short : size < 2_147_483_648)
      (small : n * size < 2_147_483_648) where
    page-IsSlice :
        (w : World e)
        → e.users.up w.users ≡ true
        → untied by_id (live w) ≡ true
        → let (r, w') = list_users (suc n) size w in
          (r ≡ ok (slice (n * size) size w, count not_deleted (rows_of w)))
          × (e.users.up w'.users ≡ true)
          × (rows_of w' ≡ rows_of w)
    unfolding list_users UserRepo.list_users users_count users_page ◌>>=◌
    page-IsSlice w up one =
        let t = w.users in
        let t₁ = (e.users.count_where not_deleted t).1 in
        let (counted, up₁) = e.users.count_up not_deleted t up in
        let kept₁ = e.users.count_keeps not_deleted t in
        let one₁ : untied by_id (filter not_deleted (e.users.rows t₁)) ≡ true = rw kept₁ one in
        let (paged, up₂) = e.users.page_up not_deleted by_id (n * size) size t₁ up₁ one₁ in
        let kept₂ = e.users.page_keeps not_deleted by_id (pos (n * size)) (pos size) t₁ in
        rw (offset_of_small n size few small, limit_of_small size short, counted, paged, kept₁)
          (refl, up₂, kept₂ ∙ kept₁)

  -- A client that reads the first pages, one after another.
  unfoldable pub read_pages : (n size : ℕ) → Action (List User)
  read_pages zero size = pure []
  read_pages (suc n) size = do
    before ← read_pages n size
    (users, total) ← list_users (suc n) size
    pure (before ++ users)

  read_pages-first :
      (n size : ℕ) (w : World e)
      → n < 2_147_483_648
      → size < 2_147_483_648
      → n * size < 2_147_483_648
      → e.users.up w.users ≡ true
      → untied by_id (live w) ≡ true
      → let (r, w') = read_pages n size w in
        (r ≡ ok (slice 0 (n * size) w)) × (e.users.up w'.users ≡ true) × (rows_of w' ≡ rows_of w)
  unfolding read_pages ◌>>=◌
  read_pages-first zero size w few short small up one =
      let none_read : 0 * size ≡ 0 = omega arith in rw none_read (refl, up, refl)
  read_pages-first (suc n) size w few short small up one =
      let more : suc n * size ≡ n * size + size = omega arith in
      let (read, up₁, kept) = read_pages-first n size w (omega arith) short (omega arith) up one in
      let w₁ : World e = (read_pages n size w).1 in
      let one₁ : untied by_id (live w₁) ≡ true = rw kept one in
      let (paged, up₂, kept₂) = page-IsSlice n size (omega arith) short (omega arith) w₁ up₁ one₁ in
      let joined : slice 0 (n * size) w ++ slice (n * size) size w ≡ slice 0 (n * size + size) w =
        sym (map-append (to_proto e.crypto) _ _)
        ∙ ap (map (to_proto e.crypto)) (take-append_page (n * size) size (sort by_id (live w))) in
      rw more (rw read (rw paged (rw kept (rw joined (refl, up₂, kept₂ ∙ kept)))))

  -- While the database answers and no two users tie by id, a client that reads so many pages of a
  -- size, the last of which ends below 2^31, that all live users fit has read each of them once, the
  -- highest id first.
  pub read_pages_complete :
      (n size : ℕ) (w : World e)
      → n < 2_147_483_648
      → size < 2_147_483_648
      → n * size < 2_147_483_648
      → length (live w) ≤ n * size
      → e.users.up w.users ≡ true
      → untied by_id (live w) ≡ true
      → (read_pages n size w).0 ≡ ok (in_order w)
  read_pages_complete n size w few short small enough up one =
      let (read, _, _) = read_pages-first n size w few short small up one in
      read
      ∙ ap (λ us. ok (map (to_proto e.crypto) us))
          (take_all (n * size) (sort by_id (live w)) (rw (length-sort by_id (live w)) enough))
