-- ===== src/Tests/Memory/Rows.antt =====
-- Tables, randomness, tokens and mail in memory. A table refuses what collides in a unique column.
use servora_iam.Prelude.{
  ◌≡◌, refl, Bool, true, false, not, ◌&&◌, Option, none, some, List, [], ◌∷◌, ◌++◌, Str, arith,
  filter, find, any, modify, take, drop, sort, ℕ, ℤ, pos, negsuc,
}
use servora_iam.Platform.Table.{Schema, Table, with_id, count}

pub some-eq : {A : Type 0} {x y : A} → some x ≡ some y → y ≡ x
some-eq h = cc

pub of_some-none : {A B : Type 0} {x : A} {y z : B} → some x ≡ none → y ≡ z
of_some-none h = cc

pub of_true-false : {B : Type 0} {y z : B} → true ≡ false → y ≡ z
of_true-false h = cc

module _ (c : Schema) where
  open c use {Row, id, clash}

  -- Whether the row, in place of the old one, collides with another.
  abbrev collides : Row → Row → List Row → Bool
  collides new old = any (λ r. clash new r && not (clash old r))

  collides-none :
      (new old : Row) (rs : List Row)
      → ((r : Row) → clash new r ≡ clash old r)
      → collides new old rs ≡ false
  collides-none new old [] h = refl
  collides-none new old (r ∷ rs) h = ground (arith, h r, collides-none new old rs h)

  abbrev inserted : Bool → Row → List Row → Bool × List Row
  inserted true r rs = (false, rs)
  inserted false r rs = (true, rs ++ r ∷ [])

  abbrev replaced : Bool → Str → (Row → Row) → Row → List Row → Option Row × List Row
  replaced true key change old rs = (none, rs)
  replaced false key change old rs = (some (change old), modify (with_id c key) change rs)

  abbrev updated : Option Row → Str → (Row → Row) → List Row → Option Row × List Row
  updated none key change rs = (none, rs)
  updated (some old) key change rs = replaced (collides (change old) old rs) key change old rs

  replaced_rows :
      (refused : Bool) (key : Str) (change : Row → Row) (old : Row) (rs : List Row) {r : Row}
      → (replaced refused key change old rs).0 ≡ some r
      → ((replaced refused key change old rs).1 ≡ modify (with_id c key) change rs)
        × (r ≡ change old)
  replaced_rows true key change old rs h = cc
  replaced_rows false key change old rs h = (refl, cc)

  replaced-none :
      (refused : Bool) (key : Str) (change : Row → Row) (old : Row) (rs : List Row)
      → (replaced refused key change old rs).0 ≡ none
      → (replaced refused key change old rs).1 ≡ rs
  replaced-none true key change old rs h = refl
  replaced-none false key change old rs h = cc

  pub updated_rows :
      (found : Option Row) (key : Str) (change : Row → Row) (rs : List Row) {r : Row}
      → (updated found key change rs).0 ≡ some r
      → ((updated found key change rs).1 ≡ modify (with_id c key) change rs)
        × (old : Row) × (found ≡ some old)
        × (r ≡ change old)
  updated_rows none key change rs h = cc
  updated_rows (some old) key change rs h =
      let (kept, same) = replaced_rows (collides (change old) old rs) key change old rs h in
      (kept, old, refl, same)

  pub updated-none :
      (found : Option Row) (key : Str) (change : Row → Row) (rs : List Row)
      → (updated found key change rs).0 ≡ none
      → (updated found key change rs).1 ≡ rs
  updated-none none key change rs h = refl
  updated-none (some old) key change rs h =
      replaced-none (collides (change old) old rs) key change old rs h

  pub inserted_rows :
      (clashes : Bool) (r : Row) (rs : List Row)
      → (inserted clashes r rs).0 ≡ true
      → ((inserted clashes r rs).1 ≡ rs ++ r ∷ []) × (clashes ≡ false)
  inserted_rows true r rs h = cc
  inserted_rows false r rs h = (refl, refl)

  pub inserted-not :
      (clashes : Bool) (r : Row) (rs : List Row) → (inserted clashes r rs).0 ≡ not clashes
  inserted-not true r rs = refl
  inserted-not false r rs = refl

  pub inserted_refused :
      (clashes : Bool) (r : Row) (rs : List Row)
      → (inserted clashes r rs).0 ≡ false
      → (inserted clashes r rs).1 ≡ rs
  inserted_refused true r rs h = refl
  inserted_refused false r rs h = cc

  pub updated_up :
      (found : Option Row) (key : Str) (change : Row → Row) (rs : List Row) {old : Row}
      → found ≡ some old
      → ((r : Row) → clash (change old) r ≡ clash old r)
      → (updated found key change rs).0 ≡ some (change old)
  updated_up found key change rs {old} f h = rw (f, collides-none (change old) old rs h) refl

  -- A negative offset skips nothing, and a negative limit keeps nothing.
  abbrev pub natural : ℤ → ℕ
  natural (pos n) = n
  natural (negsuc n) = 0

  abbrev pub page_of : (Row → Row → Bool) → (offset limit : ℤ) → List Row → List Row
  page_of before offset limit rs = take (natural limit) (drop (natural offset) (sort before rs))

  abbrev pub memory_table : Table c
  memory_table = record {
    State = List Row;
    rows = λ t. t;
    up = λ t. true;
    select = λ test t. (some (filter test t), t);
    count_where = λ test t. (some (count test t), t);
    page = λ test before offset limit t. (some (page_of before offset limit (filter test t)), t);
    insert = λ r t. inserted (any (clash r) t) r t;
    update = λ key change t. updated (find (with_id c key) t) key change t;
    update_where = λ test change t. (some (count test t), modify test change t);
    delete = λ key t. (true, filter (λ r. not (with_id c key r)) t);
    select_sound = λ test t {rs} h. some-eq h;
    select_keeps = λ test t. refl;
    select_up = λ test t h. (refl, refl);
    count_keeps = λ test t. refl;
    count_up = λ test t h. (refl, refl);
    page_keeps = λ test before offset limit t. refl;
    page_up = λ test before offset limit t h one. (refl, refl);
    insert_rows = λ r t h. (inserted_rows (any (clash r) t) r t h).0;
    insert_unique = λ r t h. (inserted_rows (any (clash r) t) r t h).1;
    insert_refused = λ r t h. inserted_refused (any (clash r) t) r t h;
    insert_up = λ r t h. (inserted-not (any (clash r) t) r t, refl);
    update_rows = λ key change t h. (updated_rows (find (with_id c key) t) key change t h).0;
    update_found = λ key change t h.
        let (kept, old, found, same) = updated_rows (find (with_id c key) t) key change t h in
        (old, found, same);
    update_refused = λ key change t h. updated-none (find (with_id c key) t) key change t h;
    update_up = λ key change t u f h. (updated_up (find (with_id c key) t) key change t f h, refl);
    update_where_rows = λ test change t h. (refl, some-eq h);
    update_where_refused = λ test change t h. of_some-none h;
    delete_rows = λ key t h. refl;
    delete_refused = λ key t h. of_true-false h;
  }
