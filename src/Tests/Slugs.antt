-- ===== src/Tests/Slugs.antt =====
-- Slugify, at concrete inputs.
use servora_iam.Prelude.{◌≡◌, refl, Str, bytes, take}
use servora_iam.Slug.{
  slugify, or_random, trim, trim_right, trim_left, dash_before, replace_runs, is_space, to_lower,
  is_dash, reads, IsSlug, is_kept,
}
use servora_iam.Slug.Stable.{slugify-IsSlug_stable}

abbrev random_id : Str
random_id = bytes "0b5e9a41-7c3d-4f00-9a52-8d1e6f7a2b3c"

abbrev title : Str
title = bytes " My -- App!"

title_slug : slugify random_id title ≡ bytes "my-app"
unfolding slugify or_random trim trim_right trim_left dash_before replace_runs is_space is_kept
    to_lower is_dash
title_slug = refl

nothing_kept : slugify random_id (bytes " ?! ") ≡ bytes "0b5e9a41"
unfolding slugify or_random trim trim_right trim_left dash_before replace_runs is_space is_kept
    to_lower is_dash
nothing_kept = refl

random_id-IsSlug : IsSlug (take 8 random_id)
unfolding IsSlug reads is_kept
random_id-IsSlug = refl

slugify-IsSlug_stable_example :
    IsSlug (slugify random_id title)
    × (slugify random_id (slugify random_id title) ≡ slugify random_id title)
slugify-IsSlug_stable_example = slugify-IsSlug_stable random_id random_id title random_id-IsSlug
