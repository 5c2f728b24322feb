-- ===== src/Slug.antt =====
-- Slugs: Slugify of pkg/helpers/helpers.go, on a string as its code points. The random id of
-- google/uuid is an argument.
pub mod Shape
pub mod Stable
use servora_iam.Prelude.{
  ℕ, ◌+◌, ◌≡◌, Bool, true, false, ◌&&◌, ◌||◌, [], ◌∷◌, Str, is_empty, leb, nat_eq, if◌then◌else◌,
  take,
}
use mathlib.Core.List.{map}

-- unicode.IsSpace
unfoldable pub is_space : ℕ → Bool
is_space c =
    leb 9 c && leb c 13
    || nat_eq c 32
    || nat_eq c 133
    || nat_eq c 160
    || nat_eq c 5760
    || leb 8192 c && leb c 8202
    || leb 8232 c && leb c 8233
    || nat_eq c 8239
    || nat_eq c 8287
    || nat_eq c 12288

-- unicode.ToLower, where its result is of ASCII: the capitals of ASCII, the dotted I and the sign
-- of the kelvin. Another code point, folded or not, is outside of ASCII.
unfoldable pub to_lower : ℕ → ℕ
to_lower c =
    if leb 65 c && leb c 90
    then c + 32
    else if nat_eq c 304
    then 105
    else if nat_eq c 8490
    then 107
    else c

-- [a-z0-9]
unfoldable pub is_kept : ℕ → Bool
is_kept c = leb 97 c && leb c 122 || leb 48 c && leb c 57

unfoldable pub is_dash : ℕ → Bool
is_dash c = nat_eq c 45

unfoldable pub starts : (ℕ → Bool) → Str → Bool
starts f [] = false
starts f (c ∷ s) = f c

-- One dash before what follows a run, which has the dash where the run goes on.
unfoldable pub dash_before : Str → Str
dash_before [] = 45 ∷ []
dash_before (c ∷ s) = if is_dash c then c ∷ s else 45 ∷ c ∷ s

-- slugRe.ReplaceAllString(s, "-"): a run of other characters becomes one dash.
unfoldable pub replace_runs : Str → Str
replace_runs [] = []
replace_runs (c ∷ s) = let rest = replace_runs s in if is_kept c then c ∷ rest else dash_before rest

unfoldable pub trim_left : (ℕ → Bool) → Str → Str
trim_left f [] = []
trim_left f (c ∷ s) = let rest = trim_left f s in if f c then rest else c ∷ s

unfoldable pub trim_right : (ℕ → Bool) → Str → Str
trim_right f [] = []
trim_right f (c ∷ s) = let rest = trim_right f s in if f c && is_empty rest then [] else c ∷ rest

-- strings.TrimFunc, of spaces for TrimSpace and of dashes for Trim.
unfoldable pub trim : (ℕ → Bool) → Str → Str
trim f s = trim_right f (trim_left f s)

unfoldable pub or_random : (id s : Str) → Str
or_random id [] = take 8 id
or_random id (c ∷ s) = c ∷ s

unfoldable pub slugify : (id s : Str) → Str
slugify id s = or_random id (trim is_dash (replace_runs (map to_lower (trim is_space s))))

-- Whether s is words of [a-z0-9] with one dash between, where in_word tells that a word is begun.
unfoldable pub reads : (in_word : Bool) → Str → Bool
reads in_word [] = in_word
reads in_word (c ∷ s) =
    let more = reads true s in
    let next = reads false s in if is_kept c then more else is_dash c && in_word && next

unfoldable pub IsSlug : Str → Type 0
IsSlug s = reads false s ≡ true
