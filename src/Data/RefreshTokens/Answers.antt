-- ===== src/Data/RefreshTokens/Answers.antt =====
-- When the functions of app/iam/service/internal/data/authn.go on refresh tokens succeed.
use servora_iam.Prelude.{ℕ, ◌≤◌, ◌≡◌, refl, List, [], ◌∷◌, Str, ◌==◌, arith, Bool-cases, inl, inr}
use servora_iam.Errors.{Result, ok, err}
use servora_iam.Exec.{◌>>=◌}
use servora_iam.Platform.World.{Env, World}
use servora_iam.Data.RefreshTokens.{
  user_tokens_key, re_add, del_all, save_refresh_token, get_refresh_token, delete_refresh_token,
  delete_found, delete_user_refresh_tokens,
}
use servora_iam.Platform.Frames.{Offline}
use servora_iam.Data.RefreshTokens.Index.{IsIndexed}
use servora_iam.Data.RefreshTokens.Ready.{
  IsReady, IsReady-set, IsReady-s_add, IsReady-expire, IsReady-s_members, IsReady-get,
  IsReady-del_token, IsReady-del_set,
}

module _ ⦃e : Env⦄ where
  -- Both that a run succeeds and that the server still answers.
  abbrev pub Answers : {A : Type 0} → Result A × World e → A → Type 0
  Answers (r, w) a = (r ≡ ok a) × IsReady w

  pub save-Answers :
      (user_id token : Str) (ttl : ℕ) (w : World e)
      → IsReady w
      → Answers (save_refresh_token user_id token ttl w) tt
  unfolding save_refresh_token ◌>>=◌
  save-Answers user_id token ttl w r =
      let (a₁, r₁) = IsReady-set token user_id ttl w r in
      let (a₂, r₂) = IsReady-s_add user_id token _ r₁ in
      let (a₃, r₃) = IsReady-expire user_id ttl _ r₂ in rw (a₁, a₂, a₃) (refl, r₃)

  re_add-Answers :
      (user_id token : Str) (ts : List Str) (w : World e)
      → IsReady w
      → Answers (re_add (user_tokens_key user_id) token ts w) tt
  unfolding re_add ◌>>=◌
  re_add-Answers user_id token [] w r = (refl, r)
  re_add-Answers user_id token (t ∷ ts) w r =
      let (a, r') = IsReady-s_add user_id t w r in
      elim (Bool-cases (t == token)) [
        | inl same ↦ rw same (re_add-Answers user_id token ts w r)
        | inr other ↦ rw (other, a) (re_add-Answers user_id token ts _ r')
      ]

  del_all-Answers : (ts : List Str) (w : World e) → IsReady w → Answers (del_all ts w) tt
  unfolding del_all ◌>>=◌
  del_all-Answers [] w r = (refl, r)
  del_all-Answers (t ∷ ts) w r =
      let (a, r') = IsReady-del_token t w r in rw a (del_all-Answers ts _ r')

  delete_found-Answers :
      (token : Str) (r : Result Str) (w : World e) → IsReady w → Answers (delete_found token r w) tt
  unfolding delete_found ◌>>=◌
  delete_found-Answers token (err x) w r = (refl, r)
  delete_found-Answers token (ok u) w r =
      let (a₁, r₁) = IsReady-del_token token w r in
      let (ts, a₂, r₂) = IsReady-s_members u _ r₁ in
      let (a₃, r₃) = IsReady-del_set u _ r₂ in rw (a₁, a₂, a₃) (re_add-Answers u token ts _ r₃)

  pub delete-Answers :
      (token : Str) (w : World e) → IsReady w → Answers (delete_refresh_token token w) tt
  unfolding delete_refresh_token ◌>>=◌
  delete-Answers token w r =
      delete_found-Answers token (get_refresh_token token w).0 _ (IsReady-get token w r)

  pub delete_user-Answers :
      (user_id : Str) (w : World e) → IsReady w → Answers (delete_user_refresh_tokens user_id w) tt
  unfolding delete_user_refresh_tokens ◌>>=◌
  delete_user-Answers user_id w r =
      let (ts, a₁, r₁) = IsReady-s_members user_id w r in
      let (a₂, r₂) = del_all-Answers ts _ r₁ in
      let (a₃, r₃) = IsReady-del_set user_id _ r₂ in rw (a₁, a₂) (a₃, r₃)

  pub Offline-IsReady : {w w' : World e} → Offline w w' → IsReady w → IsReady w'
  Offline-IsReady {w} o r = record {
    up = ground (arith, o.kv, r.up);
    sets = λ u n le.
        let le' : w.clock ≤ n = omega (arith, o.clock) in ground (arith, o.kv, r.sets u n le');
  }

  pub Offline-IsIndexed :
      (lifetime : ℕ) {w w' : World e} → Offline w w' → IsIndexed lifetime w → IsIndexed lifetime w'
  Offline-IsIndexed lifetime {w} o h = record {
    listed = λ t u n le live.
        let le' : w.clock ≤ n = omega (arith, o.clock) in ground (arith, o.kv, h.listed t u n le');
    bounded = λ t u n le live.
        let le' : w.clock ≤ n = omega (arith, o.clock) in
        ground (arith, o.kv, o.clock, h.bounded t u n le');
  }
