-- ===== src/Platform/Table.antt =====
-- A table behind the ent client of app/iam/service/internal/data/ent. The SQL driver and the
-- database are no part of the service: the statements are parameters, with the documented behaviour
-- that the service relies on. A refused statement changes no row.
use servora_iam.Prelude.{
  ℕ, ◌+◌, ◌≡◌, Bool, true, false, not, Option, none, some, List, [], ◌∷◌, ◌++◌, Str, ◌==◌, filter,
  find, any, modify, take, drop, sort, untied, ℤ, pos, if◌then◌else◌,
}
use servora_iam.Errors.{Result, ok, err, not_found, failure}

-- The rows of a type, the primary key of a row, and whether two rows collide in a unique column.
pub record Schema : Type 1 where
  pub Row : Type 0
  pub id : Row → Str
  pub clash : Row → Row → Bool

abbrev pub count {ℓ} : {A : Type ℓ} → (A → Bool) → List A → ℕ
count p [] = 0
count p (x ∷ xs) = (if p x then 1 else 0) + count p xs

-- `Only` of the generated query: app/iam/service/internal/data/ent/user_query.go. The data layer
-- wraps its NotFoundError as `biz.ErrNotFound`.
unfoldable pub only : {A : Type 0} → List A → Result A
only [] = err not_found
only (x ∷ []) = ok x
only (x ∷ y ∷ rest) = err failure

module _ (c : Schema) where
  open c use {Row, id, clash}

  abbrev pub with_id : Str → Row → Bool
  with_id key r = id r == key

  pub record Table : Type 1 where
    pub State : Type 0
    pub rows : State → List Row
    -- the database can be reached
    pub up : State → Bool
    -- `Query().Where(test).Count`
    pub count_where : (test : Row → Bool) → State → Option ℕ × State
    -- `Query().Where(test).Order(before).Offset(offset).Limit(limit).All`
    pub page :
        (test : Row → Bool) (before : Row → Row → Bool) (offset limit : ℤ)
        → State
        → Option (List Row) × State
    -- `Query().Where(test).All`
    pub select : (test : Row → Bool) → State → Option (List Row) × State
    -- `Create().….Save`
    pub insert : (r : Row) → State → Bool × State
    -- `UpdateOneID(key).….Save`
    pub update : (key : Str) (change : Row → Row) → State → Option Row × State
    -- `Update().Where(test).….Save`, with the number of rows that were changed
    pub update_where : (test : Row → Bool) (change : Row → Row) → State → Option ℕ × State
    -- `DeleteOneID(key).Exec`
    pub delete : (key : Str) → State → Bool × State
    pub select_sound :
        (test : Row → Bool) (t : State) {rs : List Row}
        → (select test t).0 ≡ some rs
        → rs ≡ filter test (rows t)
    pub select_keeps : (test : Row → Bool) (t : State) → rows (select test t).1 ≡ rows t
    pub select_up :
        (test : Row → Bool) (t : State)
        → up t ≡ true
        → ((select test t).0 ≡ some (filter test (rows t))) × (up (select test t).1 ≡ true)
    pub count_keeps : (test : Row → Bool) (t : State) → rows (count_where test t).1 ≡ rows t
    pub count_up :
        (test : Row → Bool) (t : State)
        → up t ≡ true
        → ((count_where test t).0 ≡ some (count test (rows t))) × (up (count_where test t).1 ≡ true)
    pub page_keeps :
        (test : Row → Bool) (before : Row → Row → Bool) (offset limit : ℤ) (t : State)
        → rows (page test before offset limit t).1 ≡ rows t
    -- A negative offset or limit is not documented, nor is the order of rows that tie.
    pub page_up :
        (test : Row → Bool) (before : Row → Row → Bool) (offset limit : ℕ) (t : State)
        → up t ≡ true
        → untied before (filter test (rows t)) ≡ true
        → ((page test before (pos offset) (pos limit) t).0
            ≡ some (take limit (drop offset (sort before (filter test (rows t))))))
          × (up (page test before (pos offset) (pos limit) t).1 ≡ true)
    pub insert_rows :
        (r : Row) (t : State) → (insert r t).0 ≡ true → rows (insert r t).1 ≡ rows t ++ r ∷ []
    pub insert_unique :
        (r : Row) (t : State) → (insert r t).0 ≡ true → any (clash r) (rows t) ≡ false
    pub insert_refused :
        (r : Row) (t : State) → (insert r t).0 ≡ false → rows (insert r t).1 ≡ rows t
    pub insert_up :
        (r : Row) (t : State)
        → up t ≡ true
        → ((insert r t).0 ≡ not (any (clash r) (rows t))) × (up (insert r t).1 ≡ true)
    pub update_rows :
        (key : Str) (change : Row → Row) (t : State) {r : Row}
        → (update key change t).0 ≡ some r
        → rows (update key change t).1 ≡ modify (with_id key) change (rows t)
    pub update_found :
        (key : Str) (change : Row → Row) (t : State) {r : Row}
        → (update key change t).0 ≡ some r
        → (old : Row) × (find (with_id key) (rows t) ≡ some old) × (r ≡ change old)
    pub update_refused :
        (key : Str) (change : Row → Row) (t : State)
        → (update key change t).0 ≡ none
        → rows (update key change t).1 ≡ rows t
    pub update_up :
        (key : Str) (change : Row → Row) (t : State) {old : Row}
        → up t ≡ true
        → find (with_id key) (rows t) ≡ some old
        → ((r : Row) → clash (change old) r ≡ clash old r)
        → ((update key change t).0 ≡ some (change old)) × (up (update key change t).1 ≡ true)
    pub update_where_rows :
        (test : Row → Bool) (change : Row → Row) (t : State) {n : ℕ}
        → (update_where test change t).0 ≡ some n
        → (rows (update_where test change t).1 ≡ modify test change (rows t))
          × (n ≡ count test (rows t))
    pub update_where_refused :
        (test : Row → Bool) (change : Row → Row) (t : State)
        → (update_where test change t).0 ≡ none
        → rows (update_where test change t).1 ≡ rows t
    pub delete_rows :
        (key : Str) (t : State)
        → (delete key t).0 ≡ true
        → rows (delete key t).1 ≡ filter (λ r. not (with_id key r)) (rows t)
    pub delete_refused :
        (key : Str) (t : State) → (delete key t).0 ≡ false → rows (delete key t).1 ≡ rows t
