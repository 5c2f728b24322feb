-- ===== src/Service/Header.antt =====
-- The Authorization header: VerifyAuthorizationHeader of app/iam/service/internal/service/authn.go.
-- Spaces are those of ASCII.
use servora_iam.Prelude.{
  ℕ, ◌≡◌, refl, Bool, false, not, ◌&&◌, ◌||◌, Option, none, some, [], ◌∷◌, ◌++◌, Str, bytes,
  is_empty, leb, nat_eq, if◌then◌else◌, arith, inl, inr, lower, equal_fold,
}
use servora_iam.Errors.{Reason, ok, kratos}
use servora_iam.Exec.{Result-cases, raise, pure, ensure, ◌>>=◌, ◌>>◌}
use servora_iam.Platform.World.{Env, World, Action}
use servora_iam.Biz.Config.{Config}
use servora_iam.Biz.Authn.{subject_of}
use servora_iam.Biz.Sessions.{verify_access_token}

-- A space of ASCII.
unfoldable pub is_space : ℕ → Bool
is_space c = nat_eq c 32 || leb 9 c && leb c 13

unfoldable pub trim_left : Str → Str
trim_left [] = []
trim_left (c ∷ s) = let rest = trim_left s in if is_space c then rest else c ∷ s

unfoldable pub trim_right : Str → Str
trim_right [] = []
trim_right (c ∷ s) = let rest = trim_right s in if is_space c && is_empty rest then [] else c ∷ rest

-- strings.TrimSpace
unfoldable pub trim_space : Str → Str
trim_space s = trim_right (trim_left s)

-- strings.SplitN(s, " ", 2), where the result has two parts.
unfoldable pub split_space : Str → Option (Str × Str)
split_space [] = none
split_space (c ∷ s) =
    let rest = elim (split_space s) as (λ o. Option (Str × Str)) [
      | none ↦ none
      | some p ↦ some (c ∷ p.0, p.1)
    ] in
    if nat_eq c 32 then some ([], s) else rest

module _ ⦃e : Env⦄ (cfg : Config) where
  unfoldable pub verify_parts : Option (Str × Str) → Action Str
  verify_parts none = raise (kratos Reason.missing_token "invalid authorization header format")
  verify_parts (some (scheme, token)) = do
    ensure (equal_fold scheme (bytes "Bearer"))
        (kratos Reason.missing_token "invalid authorization header format")
    user_id ← verify_access_token cfg token
    ensure (not (is_empty user_id)) (kratos Reason.invalid_credentials "missing user id in token")
    pure user_id

  unfoldable pub verify_authorization_header : (auth_header : Str) → Action Str
  verify_authorization_header auth_header = verify_parts (split_space (trim_space auth_header))

append-not_empty : (p s : Str) → is_empty s ≡ false → is_empty (p ++ s) ≡ false
append-not_empty [] s h = h
append-not_empty (c ∷ p) s h = refl

trim_right-append :
    (p s : Str) → trim_right s ≡ s → is_empty s ≡ false → trim_right (p ++ s) ≡ p ++ s
unfolding trim_right
trim_right-append [] s h full = h
trim_right-append (c ∷ p) s h full =
    let rest = trim_right-append p s h full in
    let not_empty = append-not_empty p s full in ground arith

module _ ⦃e : Env⦄ (cfg : Config) where
  subject_present :
      (token : Str) (w : World e) {u : Str}
      → (verify_access_token cfg token w).0 ≡ ok u
      → is_empty u ≡ false
  unfolding verify_access_token subject_of ◌>>=◌
  subject_present token w {u} h = ground arith

  verify_parts-bearer :
      (token : Str) (w : World e)
      → (verify_parts cfg (some (bytes "Bearer", token)) w).0 ≡ (verify_access_token cfg token w).0
  unfolding verify_parts equal_fold lower ◌>>=◌
  verify_parts-bearer token w = elim (Result-cases (verify_access_token cfg token w).0) [
    | inl (x, bad) ↦ ground arith
    | inr (u, good) ↦ ground (arith, subject_present token w good)
  ]

  -- A header "Bearer " with a token that is not empty and does not end in a space is judged as the
  -- token is: the last check of the handler never refuses.
  pub verify_authorization_header-bearer :
      (token : Str) (w : World e)
      → trim_right token ≡ token
      → is_empty token ≡ false
      → (verify_authorization_header cfg (bytes "Bearer " ++ token) w).0
        ≡ (verify_access_token cfg token w).0
  unfolding verify_authorization_header trim_space trim_left split_space is_space
  verify_authorization_header-bearer token w tight full =
      rw (trim_right-append (bytes "Bearer ") token tight full) (verify_parts-bearer token w)
