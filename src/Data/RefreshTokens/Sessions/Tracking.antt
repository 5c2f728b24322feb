-- ===== src/Data/RefreshTokens/Sessions/Tracking.antt =====
-- The sets of tokens that app/iam/service/internal/data/authn.go keeps in Redis list only tokens that
-- were issued for their user, by a record of what was issued.
use servora_iam.Prelude.{
  ℕ, ◌≤◌, ◌<◌, ◌≡◌, Bool, true, ◌&&◌, ◌||◌, Str, ◌==◌, eq_iff, arith, Bool-cases, inl, inr,
}
use servora_iam.Errors.{Result, ok, err}
use servora_iam.Exec.{◌>>=◌}
use servora_iam.Platform.World.{Env, World}
use servora_iam.Data.RefreshTokens.{
  save_refresh_token, get_refresh_token, delete_refresh_token, delete_found,
  delete_user_refresh_tokens,
}
use servora_iam.Data.RefreshTokens.Index.{is_listed, listed-save_self, listed-save_ne, clock-save}
use servora_iam.Data.RefreshTokens.Frames.{OnRedis-delete_user}
use servora_iam.Data.RefreshTokens.Revocation.{listed-get, clock-get}
use servora_iam.Data.RefreshTokens.Deletion.{
  listed-delete_self, listed-delete_ne, clock-delete_found,
}
use servora_iam.Data.RefreshTokens.Upkeep.{listed-delete_user_self, listed-delete_user}

abbrev pub Issued : Type 0
Issued = (user_id token : Str) → Bool

abbrev pub issue : (user_id token : Str) → Issued → Issued
issue user_id token issued u t = (user_id == u && token == t) || issued u t

module _ ⦃e : Env⦄ where
  -- From now on, what is in the set of a user was issued for that user.
  abbrev pub IsTracked : Issued → World e → Type 0
  IsTracked issued w =
      (n : ℕ) (u t : Str) → w.clock ≤ n → is_listed w n u t ≡ true → issued u t ≡ true

  pub save-IsTracked :
      (lifetime : ℕ) (user_id token : Str) (issued : Issued) (w : World e)
      → 0 < lifetime
      → (save_refresh_token user_id token lifetime w).0 ≡ ok tt
      → IsTracked issued w
      → IsTracked (issue user_id token issued) (save_refresh_token user_id token lifetime w).1
  save-IsTracked lifetime user_id token issued w positive saved h n u t le listed =
      let le' : w.clock ≤ n = omega (arith, clock-save lifetime user_id token w positive saved) in
      elim (Bool-cases (user_id == u)) [
        | inl same ↦ ground (
          arith,
          eq_iff user_id u,
          listed-save_self lifetime user_id token w positive saved n t le',
          h w.clock u t (omega arith),
        )
        | inr other ↦
            ground (
              arith,
              listed-save_ne lifetime user_id token w positive saved n u t other,
              h n u t le',
            )
      ]

  pub get-IsTracked :
      (token : Str) (issued : Issued) (w : World e)
      → IsTracked issued w
      → IsTracked issued (get_refresh_token token w).1
  get-IsTracked token issued w h n u t le listed =
      ground (arith, listed-get token w n u t, clock-get token w, h n u t)

  delete_found-IsTracked :
      (token : Str) (r : Result Str) (issued : Issued) (w : World e)
      → (delete_found token r w).0 ≡ ok tt
      → IsTracked issued w
      → IsTracked issued (delete_found token r w).1
  unfolding delete_found
  delete_found-IsTracked token (err x) issued w deleted h n u t le listed = h n u t le listed
  delete_found-IsTracked token (ok user_id) issued w deleted h n u t le listed =
      let le' : w.clock ≤ n = omega (arith, clock-delete_found token user_id w deleted) in
      elim (Bool-cases (user_id == u)) [
        | inl same ↦ ground (
          arith,
          eq_iff user_id u,
          listed-delete_self token user_id w deleted n t le',
          h w.clock u t (omega arith),
        )
        | inr other ↦
            ground (arith, listed-delete_ne token user_id w deleted n u t other, h n u t le')
      ]

  pub delete-IsTracked :
      (token : Str) (issued : Issued) (w : World e)
      → (delete_refresh_token token w).0 ≡ ok tt
      → IsTracked issued w
      → IsTracked issued (delete_refresh_token token w).1
  unfolding delete_refresh_token ◌>>=◌
  delete-IsTracked token issued w deleted h =
      delete_found-IsTracked token (get_refresh_token token w).0 issued
        (get_refresh_token token w).1 deleted (get-IsTracked token issued w h)

  pub delete_user-IsTracked :
      (user_id : Str) (issued : Issued) (w : World e)
      → (delete_user_refresh_tokens user_id w).0 ≡ ok tt
      → IsTracked issued w
      → IsTracked issued (delete_user_refresh_tokens user_id w).1
  delete_user-IsTracked user_id issued w deleted h n u t le listed =
      let le' : w.clock ≤ n = omega (arith, (OnRedis-delete_user user_id w).clock) in
      elim (Bool-cases (user_id == u)) [
        | inl same ↦ ground (arith, eq_iff user_id u, listed-delete_user_self user_id t w n deleted)
        | inr other ↦ ground (arith, listed-delete_user user_id u t w n other, h n u t le')
      ]
