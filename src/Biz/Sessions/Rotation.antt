-- ===== src/Biz/Sessions/Rotation.antt =====
-- RefreshToken of app/iam/service/internal/biz/authn.go: the old refresh token, and the new
-- session.
use mathlib.Core.Path.{subst}
use servora_iam.Prelude.{
  ◌∙◌, ℕ, ◌<◌, ◌≤◌, ◌≡◌, sym, false, Str, ◌==◌, ==-refl, arith, some, none, if◌then◌else◌,
}
use servora_iam.Errors.{ok}
use servora_iam.Exec.{◌>>=◌}
use servora_iam.Platform.World.{Env, World}
use servora_iam.Platform.Frames.{Offline}
use servora_iam.Data.Mapper.{User}
use servora_iam.Data.AuthnRepo.{get_user_by_id}
use servora_iam.Data.RefreshTokens.{save_refresh_token, get_refresh_token, delete_refresh_token}
use servora_iam.Data.RefreshTokens.Index.{
  owner, owner-save, IsIndexed, save_refresh_token-IsIndexed,
}
use servora_iam.Data.RefreshTokens.Answers.{Offline-IsReady, Offline-IsIndexed, delete-Answers}
use servora_iam.Data.RefreshTokens.Ready.{IsReady, IsReady-get}
use servora_iam.Data.RefreshTokens.Frames.{OnRedis-delete, OnRedis-get}
use servora_iam.Data.RefreshTokens.Revocation.{
  get-owner, owner-get, owner-delete, delete_refresh_token-IsIndexed, get-IsIndexed,
}
use servora_iam.Biz.Config.{Config}
use servora_iam.Biz.Authn.{TokenPair, generate_opaque_token, access_claims}
use servora_iam.Biz.Sessions.{new_access_token, refresh, refresh_lifetime}
use servora_iam.Biz.Sessions.Frames.{
  Offline-get_user_by_id, Offline-new_access_token, Offline-generate_opaque_token,
}
use servora_iam.Biz.Sessions.Login.{IsSession, new_access_token-signed}

module _ ⦃e : Env⦄ (cfg : Config) (token : Str) (w : World e) (pair : TokenPair)
    (done : (refresh cfg token w).0 ≡ ok pair) where
  abbrev w_got : World e
  w_got = (get_refresh_token token w).1

  abbrev w_user : Str → World e
  w_user user_id = (get_user_by_id user_id w_got).1

  abbrev w_signed : Str → User → World e
  w_signed user_id u = (new_access_token cfg u (w_user user_id)).1

  abbrev w_drawn : Str → User → World e
  w_drawn user_id u = (generate_opaque_token cfg (w_signed user_id u)).1

  abbrev w_deleted : Str → User → World e
  w_deleted user_id u = (delete_refresh_token token (w_drawn user_id u)).1

  abbrev Steps : Str → User → Type 0
  Steps user_id u =
      ((get_refresh_token token w).0 ≡ ok user_id)
      × ((get_user_by_id user_id w_got).0 ≡ ok u)
      × ((new_access_token cfg u (w_user user_id)).0 ≡ ok pair.access_token)
      × ((generate_opaque_token cfg (w_signed user_id u)).0 ≡ ok pair.refresh_token)
      × ((save_refresh_token u.id pair.refresh_token (refresh_lifetime cfg) (w_deleted user_id u)).0
          ≡ ok tt)
      × (pair.expires_in ≡ cfg.access_expire)
      × ((refresh cfg token w).1
          ≡ (save_refresh_token u.id pair.refresh_token (refresh_lifetime cfg)
              (w_deleted user_id u)).1)

  Steps-done : (user_id : Str) × (u : User) × Steps user_id u
  unfolding refresh ◌>>=◌
  Steps-done = ground arith

  Offline-after_get : (user_id : Str) (u : User) → Offline w_got (w_drawn user_id u)
  Offline-after_get user_id u =
      let o₁ = Offline-get_user_by_id user_id w_got in
      let o₂ = Offline-new_access_token cfg u (w_user user_id) in
      let o₃ = Offline-generate_opaque_token cfg (w_signed user_id u) in
      record { kv = o₃.kv ∙ (o₂.kv ∙ o₁.kv); clock = o₃.clock ∙ (o₂.clock ∙ o₁.clock) }

  module _ (ready : IsReady w) (positive : 0 < refresh_lifetime cfg) where
    IsReady-drawn : (user_id : Str) (u : User) → IsReady (w_drawn user_id u)
    IsReady-drawn user_id u =
        Offline-IsReady (Offline-after_get user_id u) (IsReady-get token w ready)

    clock_drawn : (user_id : Str) (u : User) → (w_drawn user_id u).clock ≡ w.clock
    clock_drawn user_id u = (Offline-after_get user_id u).clock ∙ (OnRedis-get token w).clock

    clock_deleted : (user_id : Str) (u : User) → (w_deleted user_id u).clock ≡ w.clock
    clock_deleted user_id u =
        (OnRedis-delete token (w_drawn user_id u)).clock ∙ clock_drawn user_id u

    -- What the tokens belong to just before the new one is saved.
    owner_deleted :
        (user_id : Str) (u : User) (n : ℕ) (t : Str)
        → w.clock ≤ n
        → owner (w_deleted user_id u) n t ≡ (if token == t then none else owner w n t)
    owner_deleted user_id u n t le =
        let r = IsReady-drawn user_id u in
        ground (
          arith,
          owner-delete token (w_drawn user_id u) r.up (delete-Answers token (w_drawn user_id u) r).0
              n t (omega (arith, clock_drawn user_id u)),
          (Offline-after_get user_id u).kv,
          owner-get token w n t,
        )

    -- Where Redis answers and the lifetime of a refresh token is positive, a RefreshToken that
    -- succeeds was given a live token, found the user with the id that the token holds, and opened a
    -- session of that user.
    pub refresh-IsSession :
        let w' = (refresh cfg token w).1 in
        (user_id : Str) × (u : User) × (owner w w.clock token ≡ some user_id)
        × ((get_user_by_id user_id (get_refresh_token token w).1).0 ≡ ok u)
        × IsSession cfg u pair w.clock w'
    refresh-IsSession =
        let (user_id, u, d) = Steps-done in
        let (got, found, signed, _, saved, expires, same) = d in
        let at = clock_deleted user_id u in
        let owned =
          owner-save (refresh_lifetime cfg) u.id pair.refresh_token (w_deleted user_id u) positive
            saved in
        let at_user = (Offline-get_user_by_id user_id w_got).clock ∙ (OnRedis-get token w).clock in
        (
          user_id,
          u,
          get-owner token w got,
          found,
          record {
            signed =
                subst
                  (λ c.
                    (nonce : Str) × (e.jwt.sign (access_claims cfg u nonce c)
                      ≡ some pair.access_token))
                  at_user (new_access_token-signed cfg u (w_user user_id) signed);
            expires = expires;
            owned = λ n le. ground (
              arith,
              same,
              at,
              ==-refl pair.refresh_token,
              owned n pair.refresh_token (omega (arith, at)),
            );
          },
        )

    -- Where Redis answers and the lifetime of a refresh token is positive, a RefreshToken that
    -- succeeds leaves the old token without an owner and every other token with its own, except the
    -- new token.
    pub owner-refresh :
        (n : ℕ) (t : Str)
        → w.clock ≤ n
        → (pair.refresh_token == t) ≡ false
        → owner (refresh cfg token w).1 n t ≡ (if token == t then none else owner w n t)
    owner-refresh n t le other =
        let (user_id, u, d) = Steps-done in
        let (_, _, _, _, saved, _, same) = d in
        let at = clock_deleted user_id u in
        ground (
          arith,
          same,
          owner_deleted user_id u n t le,
          owner-save (refresh_lifetime cfg) u.id pair.refresh_token (w_deleted user_id u) positive
              saved n t (omega (arith, at)),
        )

    -- Where Redis answers and the lifetime of a refresh token is positive, a RefreshToken that
    -- succeeds keeps the sets of tokens complete.
    pub refresh-IsIndexed :
        IsIndexed (refresh_lifetime cfg) w
        → IsIndexed (refresh_lifetime cfg) (refresh cfg token w).1
    refresh-IsIndexed h =
        let (user_id, u, d) = Steps-done in
        let (_, _, _, _, saved, _, same) = d in
        let life = refresh_lifetime cfg in
        let h' =
          Offline-IsIndexed life (Offline-after_get user_id u) (get-IsIndexed token life w h) in
        let deleted = (delete-Answers token (w_drawn user_id u) (IsReady-drawn user_id u)).0 in
        let h'' = delete_refresh_token-IsIndexed token life (w_drawn user_id u) h' deleted in
        subst (IsIndexed life) (sym same) (
          save_refresh_token-IsIndexed life u.id pair.refresh_token (w_deleted user_id u) positive
            saved h'')
