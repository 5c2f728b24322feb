-- ===== src/Slug/Shape.antt =====
-- The shape of what Slugify of pkg/helpers/helpers.go returns.
use servora_iam.Prelude.{
  ◌≡◌, refl, sym, ◌∙◌, Bool, true, false, not, ◌&&◌, ◌||◌, [], ◌∷◌, Str, is_empty, arith, take,
}
use mathlib.Core.List.{map}
use servora_iam.Slug.{
  is_space, to_lower, is_kept, is_dash, starts, dash_before, replace_runs, trim_left, trim_right,
  trim, or_random, slugify, reads, IsSlug,
}

-- Whether every character is kept or a dash that no dash follows.
unfoldable singles : Str → Bool
singles [] = true
singles (c ∷ s) = (is_kept c || is_dash c && not (starts is_dash s)) && singles s

singles-dash_before : (s : Str) → singles s ≡ true → singles (dash_before s) ≡ true
unfolding dash_before singles is_dash starts is_kept
singles-dash_before [] h = refl
singles-dash_before (c ∷ s) h = ground arith

singles-replace_runs : (s : Str) → singles (replace_runs s) ≡ true
unfolding replace_runs singles
singles-replace_runs [] = refl
singles-replace_runs (c ∷ s) =
    let rest = singles-replace_runs s in
    let after = singles-dash_before (replace_runs s) rest in ground arith

singles-trim_left : (s : Str) → singles s ≡ true → singles (trim_left is_dash s) ≡ true
unfolding trim_left singles
singles-trim_left [] h = h
singles-trim_left (c ∷ s) h = let rest = singles-trim_left s (ground arith) in ground arith

starts-trim_left : (s : Str) → starts is_dash (trim_left is_dash s) ≡ false
unfolding trim_left starts
starts-trim_left [] = refl
starts-trim_left (c ∷ s) = let rest = starts-trim_left s in ground arith

starts-trim_right :
    (s : Str) → starts is_dash s ≡ false → starts is_dash (trim_right is_dash s) ≡ false
unfolding trim_right starts
starts-trim_right [] h = h
starts-trim_right (c ∷ s) h = ground arith

reads-word :
    (s : Str) → is_empty s ≡ false → starts is_dash s ≡ false → reads true s ≡ reads false s
unfolding reads starts
reads-word [] full h = ground arith
reads-word (c ∷ s) full h = ground arith

reads-trim_right : (s : Str) → singles s ≡ true → reads true (trim_right is_dash s) ≡ true
unfolding trim_right singles reads
reads-trim_right [] h = refl
reads-trim_right (c ∷ s) h =
    let rest = reads-trim_right s (ground arith) in
    let word = reads-word (trim_right is_dash s) in let first = starts-trim_right s in ground arith

or_random-IsSlug :
    (id s : Str)
    → IsSlug (take 8 id)
    → reads true s ≡ true
    → starts is_dash s ≡ false
    → IsSlug (or_random id s)
unfolding IsSlug or_random
or_random-IsSlug id [] random h first = random
or_random-IsSlug id (c ∷ s) random h first = sym (reads-word (c ∷ s) refl first) ∙ h

trim-IsSlug :
    (id s : Str) → IsSlug (take 8 id) → singles s ≡ true → IsSlug (or_random id (trim is_dash s))
unfolding trim
trim-IsSlug id s random h =
    or_random-IsSlug id (trim_right is_dash (trim_left is_dash s)) random
      (reads-trim_right (trim_left is_dash s) (singles-trim_left s h))
      (starts-trim_right (trim_left is_dash s) (starts-trim_left s))

pub slugify-IsSlug : (id s : Str) → IsSlug (take 8 id) → IsSlug (slugify id s)
unfolding slugify
slugify-IsSlug id s random =
    trim-IsSlug id (replace_runs (map to_lower (trim is_space s))) random
      (singles-replace_runs (map to_lower (trim is_space s)))
