-- ===== src/Biz/Sessions/Login.antt =====
-- What a successful login of app/iam/service/internal/biz/authn.go hands out.
use mathlib.Core.Path.{subst}
use servora_iam.Prelude.{
  ap, ◌∙◌, ℕ, ◌+◌, ◌<◌, ◌≤◌, ◌≡◌, Str, ==-refl, arith, some, none, inl, inr, if◌then◌else◌, ltb,
}
use servora_iam.Errors.{ok}
use servora_iam.Exec.{◌>>=◌, Result-cases}
use servora_iam.Platform.World.{Env, World}
use servora_iam.Platform.Frames.{Offline}
use servora_iam.Data.Mapper.{User}
use servora_iam.Data.RefreshTokens.{save_refresh_token}
use servora_iam.Data.RefreshTokens.Frames.{OnRedis-save}
use servora_iam.Data.RefreshTokens.Index.{owner, owner-save}
use servora_iam.Biz.Config.{Config}
use servora_iam.Biz.Authn.{TokenPair, generate_opaque_token, access_claims, generate_access_token}
use servora_iam.Biz.Sessions.{
  check_credentials, new_access_token, login_by_email_password, refresh_lifetime,
}
use servora_iam.Biz.Sessions.Frames.{
  Offline-check_credentials, Offline-new_access_token, Offline-generate_opaque_token,
}

module _ ⦃e : Env⦄ (cfg : Config) where
  -- The access token is signed for the claims of the user, at the time of the request.
  pub new_access_token-signed :
      (u : User) (w : World e) {t : Str}
      → (new_access_token cfg u w).0 ≡ ok t
      → (nonce : Str) × (e.jwt.sign (access_claims cfg u nonce w.clock) ≡ some t)
  unfolding new_access_token generate_access_token ◌>>=◌
  new_access_token-signed u w {t} h =
      let o = Offline-generate_opaque_token cfg w in
      elim (Result-cases (generate_opaque_token cfg w).0) [
        | inl (x, failed) ↦ absurd (ground arith)
        | inr (nonce, drawn) ↦ (nonce, ground (arith, o.clock))
      ]

  -- A session of a user: the access token is signed for the user, and the refresh token belongs to
  -- the user until its lifetime has passed.
  pub record IsSession (u : User) (pair : TokenPair) (now : ℕ) (w : World e) : Type 0 where
    pub signed :
        (nonce : Str) × (e.jwt.sign (access_claims cfg u nonce now) ≡ some pair.access_token)
    pub expires : pair.expires_in ≡ cfg.access_expire
    pub owned :
        (n : ℕ)
        → now ≤ n
        → owner w n pair.refresh_token
          ≡ (if ltb n (now + refresh_lifetime cfg) then some u.id else none)

  module _ (email password : Str) (w : World e) (pair : TokenPair)
      (done : (login_by_email_password cfg email password w).0 ≡ ok pair) where
    abbrev w_checked : World e
    w_checked = (check_credentials cfg email password w).1

    abbrev w_signed : User → World e
    w_signed u = (new_access_token cfg u w_checked).1

    abbrev w_drawn : User → World e
    w_drawn u = (generate_opaque_token cfg (w_signed u)).1

    abbrev Steps : User → Type 0
    Steps u =
        ((check_credentials cfg email password w).0 ≡ ok u)
        × ((new_access_token cfg u w_checked).0 ≡ ok pair.access_token)
        × ((generate_opaque_token cfg (w_signed u)).0 ≡ ok pair.refresh_token)
        × ((save_refresh_token u.id pair.refresh_token (refresh_lifetime cfg) (w_drawn u)).0
            ≡ ok tt)
        × (pair.expires_in ≡ cfg.access_expire)
        × ((login_by_email_password cfg email password w).1
            ≡ (save_refresh_token u.id pair.refresh_token (refresh_lifetime cfg) (w_drawn u)).1)

    Steps-done : (u : User) × Steps u
    unfolding login_by_email_password ◌>>=◌
    Steps-done = ground arith

    Offline-before_save : (u : User) → Offline w (w_drawn u)
    Offline-before_save u =
        let o₁ = Offline-check_credentials cfg email password w in
        let o₂ = Offline-new_access_token cfg u w_checked in
        let o₃ = Offline-generate_opaque_token cfg (w_signed u) in
        record { kv = o₃.kv ∙ (o₂.kv ∙ o₁.kv); clock = o₃.clock ∙ (o₂.clock ∙ o₁.clock) }

    -- Where the lifetime of a refresh token is positive, a login that succeeds has checked the
    -- credentials of a user and opened a session of that user.
    pub login-IsSession :
        0 < refresh_lifetime cfg
        → (u : User) × ((check_credentials cfg email password w).0 ≡ ok u)
          × IsSession u pair w.clock (login_by_email_password cfg email password w).1
    login-IsSession pos =
        let (u, d) = Steps-done in
        let (checked, signed, _, saved, expires, same) = d in
        let o = Offline-before_save u in
        let at_check = Offline-check_credentials cfg email password w in
        (
          u,
          checked,
          record {
            signed =
                subst
                  (λ t.
                    (nonce : Str) × (e.jwt.sign (access_claims cfg u nonce t)
                      ≡ some pair.access_token))
                  at_check.clock (new_access_token-signed u w_checked signed);
            expires = expires;
            owned = λ n le. ground (
              arith,
              same,
              o.clock,
              ==-refl pair.refresh_token,
              owner-save (refresh_lifetime cfg) u.id pair.refresh_token (w_drawn u) pos saved n
                  pair.refresh_token (omega (arith, o.clock)),
            );
          },
        )

    pub clock-login : (login_by_email_password cfg email password w).1.clock ≡ w.clock
    clock-login =
        let (u, d) = Steps-done in
        let (_, _, _, _, _, same) = d in
        ap (λ (v : World e). v.clock) same
        ∙ ((OnRedis-save u.id pair.refresh_token (refresh_lifetime cfg) (w_drawn u)).clock
            ∙ (Offline-before_save u).clock)
