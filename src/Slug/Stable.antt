-- ===== src/Slug/Stable.antt =====
-- Slugify of pkg/helpers/helpers.go, on what it has returned.
use servora_iam.Prelude.{
  ℕ, ◌≡◌, refl, sym, ap, Bool, true, false, ◌||◌, [], ◌∷◌, Str, is_empty, arith, take, ◌⊎◌, inl,
  inr, Bool-cases,
}
use mathlib.Core.List.{map}
use servora_iam.Slug.{
  is_space, to_lower, is_kept, is_dash, starts, dash_before, replace_runs, trim_left, trim_right,
  trim, or_random, slugify, reads, IsSlug,
}
use servora_iam.Slug.Shape.{slugify-IsSlug}

-- No space and no capital is kept, and the dash is neither.
unfoldable is_slug_char : ℕ → Bool
is_slug_char c = is_kept c || is_dash c

is_space-slug : (c : ℕ) → is_slug_char c ≡ true → is_space c ≡ false
unfolding is_space is_slug_char is_kept is_dash
is_space-slug c h = ground arith

to_lower-slug : (c : ℕ) → is_slug_char c ≡ true → to_lower c ≡ c
unfolding to_lower is_slug_char is_kept is_dash
to_lower-slug c h = ground arith

is_dash-kept : (c : ℕ) → is_kept c ≡ true → is_dash c ≡ false
unfolding is_kept is_dash
is_dash-kept c h = ground arith

reads-cases :
    (b : Bool) (c : ℕ) (s : Str)
    → reads b (c ∷ s) ≡ true
    → (is_kept c ≡ true) × (reads true s ≡ true) ⊎ (c ≡ 45) × (reads false s ≡ true)
unfolding reads is_dash
reads-cases b c s h = elim (Bool-cases (is_kept c)) [
  | inl kept ↦ inl (kept, ground arith)
  | inr other ↦ inr (ground arith, ground arith)
]

reads-slug_char : (b : Bool) (c : ℕ) (s : Str) → reads b (c ∷ s) ≡ true → is_slug_char c ≡ true
unfolding reads is_slug_char
reads-slug_char b c s h = ground arith

-- A string that reads as words is left alone by each step of slugify.
starts-reads : (s : Str) → reads false s ≡ true → starts is_dash s ≡ false
unfolding reads starts
starts-reads [] h = refl
starts-reads (c ∷ s) h = let kept = is_dash-kept c in ground arith

dash_before-slug : (s : Str) → reads false s ≡ true → dash_before s ≡ 45 ∷ s
unfolding dash_before reads starts
dash_before-slug [] h = refl
dash_before-slug (c ∷ s) h = let first = starts-reads (c ∷ s) h in ground arith

replace_runs-reads : (b : Bool) (s : Str) → reads b s ≡ true → replace_runs s ≡ s
unfolding reads replace_runs
replace_runs-reads b [] h = refl
replace_runs-reads b (c ∷ s) h = elim (reads-cases b c s h) [
  | inl (kept, more) ↦ rw (replace_runs-reads true s more) (ground arith)
  | inr (dash, next) ↦
      let start = dash_before-slug s next in rw (replace_runs-reads false s next) (ground arith)
]

trim_left-starts : (f : ℕ → Bool) (s : Str) → starts f s ≡ false → trim_left f s ≡ s
unfolding trim_left starts
trim_left-starts f [] h = refl
trim_left-starts f (c ∷ s) h = ground arith

reads-full : (s : Str) → reads false s ≡ true → is_empty s ≡ false
unfolding reads
reads-full [] h = sym h
reads-full (c ∷ s) h = refl

dash_trim_right-reads : (b : Bool) (s : Str) → reads b s ≡ true → trim_right is_dash s ≡ s
unfolding reads trim_right
dash_trim_right-reads b [] h = refl
dash_trim_right-reads b (c ∷ s) h = elim (reads-cases b c s h) [
  | inl (kept, more) ↦
      let other = is_dash-kept c kept in rw (dash_trim_right-reads true s more) (ground arith)
  | inr (dash, next) ↦
      let full = reads-full s next in rw (dash_trim_right-reads false s next) (ground arith)
]

space_trim_right-reads : (b : Bool) (s : Str) → reads b s ≡ true → trim_right is_space s ≡ s
unfolding reads trim_right
space_trim_right-reads b [] h = refl
space_trim_right-reads b (c ∷ s) h =
    let other = is_space-slug c (reads-slug_char b c s h) in
    elim (reads-cases b c s h) [
      | inl (kept, more) ↦ rw (space_trim_right-reads true s more) (ground arith)
      | inr (dash, next) ↦ rw (space_trim_right-reads false s next) (ground arith)
    ]

lower-reads : (b : Bool) (s : Str) → reads b s ≡ true → map to_lower s ≡ s
unfolding reads
lower-reads b [] h = refl
lower-reads b (c ∷ s) h = rw (to_lower-slug c (reads-slug_char b c s h)) (
    ap (λ t. c ∷ t)
      (elim (reads-cases b c s h) [
        | inl (kept, more) ↦ lower-reads true s more
        | inr (dash, next) ↦ lower-reads false s next
      ]))

trim_space-slug : (s : Str) → IsSlug s → trim is_space s ≡ s
unfolding IsSlug trim trim_left trim_right starts
trim_space-slug [] h = refl
trim_space-slug (c ∷ s) h =
    rw (trim_left-starts is_space (c ∷ s) (is_space-slug c (reads-slug_char false c s h)))
      (space_trim_right-reads false (c ∷ s) h)

trim_dash-slug : (s : Str) → IsSlug s → trim is_dash s ≡ s
unfolding IsSlug trim
trim_dash-slug s h =
    rw (trim_left-starts is_dash s (starts-reads s h)) (dash_trim_right-reads false s h)

or_random-slug : (id s : Str) → IsSlug s → or_random id s ≡ s
unfolding IsSlug or_random reads
or_random-slug id [] h = ground arith
or_random-slug id (c ∷ s) h = refl

slugify-slug : (id s : Str) → IsSlug s → slugify id s ≡ s
unfolding IsSlug slugify
slugify-slug id s h = rw (trim_space-slug s h) (
    rw (lower-reads false s h)
      (rw (replace_runs-reads false s h) (rw (trim_dash-slug s h) (or_random-slug id s h))))

-- Where the first eight characters of the random id are a slug, Slugify returns a slug: words of
-- lower-case letters and digits, at least one of them, with one dash between; and it leaves what
-- it has returned as it is.
pub slugify-IsSlug_stable :
    (id new_id s : Str)
    → IsSlug (take 8 id)
    → IsSlug (slugify id s) × (slugify new_id (slugify id s) ≡ slugify id s)
slugify-IsSlug_stable id new_id s random =
    (slugify-IsSlug id s random, slugify-slug new_id (slugify id s) (slugify-IsSlug id s random))
