-- ===== src/Biz/Runs/Requests.antt =====
-- The requests of app/iam/service/internal/biz/authn.go, one by one, and the sets of tokens.
use servora_iam.Prelude.{ℕ, ◌<◌, Bool, true, Str, arith, inl, inr, Bool-cases}
use servora_iam.Exec.{◌>>=◌, Result-cases}
use servora_iam.Platform.Frames.{Offline}
use servora_iam.Platform.World.{Env, World, bcrypt_hash, bcrypt_check, users_update}
use servora_iam.Data.AuthnRepo.{
  get_user_by_id, get_password_hash, update_password, update_email_verified,
}
use servora_iam.Data.Otp.{consume_token}
use servora_iam.Data.RefreshTokens.{get_refresh_token, delete_refresh_token}
use servora_iam.Data.RefreshTokens.Index.{elapse, elapse-IsIndexed}
use servora_iam.Data.RefreshTokens.Answers.{save-Answers}
use servora_iam.Biz.Config.{Config}
use servora_iam.Biz.Authn.{
  generate_opaque_token, token_hash, purpose_verify_email, purpose_reset_password,
}
use servora_iam.Biz.Sessions.{
  check_credentials, new_access_token, login_by_email_password, refresh, logout, change_password,
  logout_all_devices, refresh_lifetime,
}
use servora_iam.Biz.Sessions.Frames.{
  Offline-check_credentials, Offline-new_access_token, Offline-generate_opaque_token,
  Offline-get_user_by_id, Offline-get_password_hash,
}
use servora_iam.Biz.Sessions.Passwords.{Offline-update_password, Offline-bcrypt_hash}
use servora_iam.Biz.Links.{verify_email, reset_password}
use servora_iam.Biz.Runs.Store.{
  IsSound, IsSound-Offline, IsSound-save, IsSound-get, IsSound-delete, IsSound-delete_user,
  IsSound-consume,
}

module _ ⦃e : Env⦄ (cfg : Config) (positive : 0 < refresh_lifetime cfg) where
  pub IsSound-login :
      (email password : Str) (w : World e)
      → IsSound cfg w
      → IsSound cfg (login_by_email_password cfg email password w).1
  unfolding login_by_email_password ◌>>=◌
  IsSound-login email password w s =
      let w₁ : World e = (check_credentials cfg email password w).1 in
      let s₁ = IsSound-Offline cfg positive (Offline-check_credentials cfg email password w) s in
      elim (Result-cases (check_credentials cfg email password w).0) [
        | inl (x, failed) ↦ rw failed s₁
        | inr (u, checked) ↦
            let w₂ : World e = (new_access_token cfg u w₁).1 in
            let s₂ = IsSound-Offline cfg positive (Offline-new_access_token cfg u w₁) s₁ in
            elim (Result-cases (new_access_token cfg u w₁).0) [
              | inl (x, failed) ↦ rw (checked, failed) s₂
              | inr (t, signed) ↦
                  let w₃ : World e = (generate_opaque_token cfg w₂).1 in
                  let s₃ = IsSound-Offline cfg positive (Offline-generate_opaque_token cfg w₂) s₂ in
                  elim (Result-cases (generate_opaque_token cfg w₂).0) [
                    | inl (x, failed) ↦ rw (checked, signed, failed) s₃
                    | inr (r, drawn) ↦
                        let (saved, _) = save-Answers u.id r (refresh_lifetime cfg) w₃ s₃.ready in
                        rw (checked, signed, drawn, saved) (IsSound-save cfg positive u.id r w₃ s₃)
                  ]
            ]
      ]

  pub IsSound-refresh :
      (token : Str) (w : World e) → IsSound cfg w → IsSound cfg (refresh cfg token w).1
  unfolding refresh ◌>>=◌
  IsSound-refresh token w s =
      let w₁ : World e = (get_refresh_token token w).1 in
      let s₁ = IsSound-get cfg positive token w s in
      elim (Result-cases (get_refresh_token token w).0) [
        | inl (x, failed) ↦ rw failed s₁
        | inr (user_id, got) ↦
            let w₂ : World e = (get_user_by_id user_id w₁).1 in
            let s₂ = IsSound-Offline cfg positive (Offline-get_user_by_id user_id w₁) s₁ in
            elim (Result-cases (get_user_by_id user_id w₁).0) [
              | inl (x, failed) ↦ rw (got, failed) s₂
              | inr (u, found) ↦
                  let w₃ : World e = (new_access_token cfg u w₂).1 in
                  let s₃ = IsSound-Offline cfg positive (Offline-new_access_token cfg u w₂) s₂ in
                  elim (Result-cases (new_access_token cfg u w₂).0) [
                    | inl (x, failed) ↦ rw (got, found, failed) s₃
                    | inr (t, signed) ↦
                        let w₄ : World e = (generate_opaque_token cfg w₃).1 in
                        let s₄ =
                          IsSound-Offline cfg positive (Offline-generate_opaque_token cfg w₃) s₃ in
                        elim (Result-cases (generate_opaque_token cfg w₃).0) [
                          | inl (x, failed) ↦ rw (got, found, signed, failed) s₄
                          | inr (r, drawn) ↦
                              let w₅ : World e = (delete_refresh_token token w₄).1 in
                              let s₅ = IsSound-delete cfg positive token w₄ s₄ in
                              let (saved, _) =
                                save-Answers u.id r (refresh_lifetime cfg) w₅ s₅.ready in
                              rw (got, found, signed, drawn, saved)
                                (IsSound-save cfg positive u.id r w₅ s₅)
                        ]
                  ]
            ]
      ]

  pub IsSound-logout :
      (token : Str) (w : World e) → IsSound cfg w → IsSound cfg (logout cfg token w).1
  unfolding logout ◌>>=◌
  IsSound-logout token w s = IsSound-delete cfg positive token w s

  pub IsSound-logout_all :
      (user_id : Str) (w : World e)
      → IsSound cfg w
      → IsSound cfg (logout_all_devices cfg user_id w).1
  unfolding logout_all_devices
  IsSound-logout_all user_id w s = IsSound-delete_user cfg positive user_id w s

  pub IsSound-change :
      (user_id old new : Str) (w : World e)
      → IsSound cfg w
      → IsSound cfg (change_password cfg user_id old new w).1
  unfolding change_password ◌>>=◌
  IsSound-change user_id old new w s =
      let w₁ : World e = (get_password_hash user_id w).1 in
      let s₁ = IsSound-Offline cfg positive (Offline-get_password_hash user_id w) s in
      elim (Result-cases (get_password_hash user_id w).0) [
        | inl (x, failed) ↦ rw failed s₁
        | inr (hash, read) ↦ elim (Bool-cases (bcrypt_check old hash)) [
          | inr wrong ↦ rw (read, wrong) s₁
          | inl right ↦
              let w₂ : World e = (bcrypt_hash new w₁).1 in
              let s₂ = IsSound-Offline cfg positive (Offline-bcrypt_hash new w₁) s₁ in
              elim (Result-cases (bcrypt_hash new w₁).0) [
                | inl (x, failed) ↦ rw (read, right, failed) s₂
                | inr (hashed, drawn) ↦
                    let w₃ : World e = (update_password user_id hashed w₂).1 in
                    let s₃ =
                      IsSound-Offline cfg positive (Offline-update_password user_id hashed w₂) s₂ in
                    elim (Result-cases (update_password user_id hashed w₂).0) [
                      | inl (x, failed) ↦ rw (read, right, drawn, failed) s₃
                      | inr (one, updated) ↦
                          rw (read, right, drawn, updated)
                            (IsSound-delete_user cfg positive user_id w₃ s₃)
                    ]
              ]
        ]
      ]

  pub Offline-update_email_verified :
      (user_id : Str) (b : Bool) (w : World e) → Offline w (update_email_verified user_id b w).1
  unfolding update_email_verified users_update ◌>>=◌
  Offline-update_email_verified user_id b w = record { kv = ground arith; clock = ground arith }

  pub IsSound-confirm :
      (token : Str) (w : World e) → IsSound cfg w → IsSound cfg (verify_email cfg token w).1
  unfolding verify_email ◌>>=◌
  IsSound-confirm token w s =
      let w₁ : World e = (consume_token purpose_verify_email (token_hash cfg token) w).1 in
      let s₁ = IsSound-consume cfg positive purpose_verify_email (token_hash cfg token) w s in
      elim (Result-cases (consume_token purpose_verify_email (token_hash cfg token) w).0) [
        | inl (x, failed) ↦ rw failed s₁
        | inr (user_id, used) ↦
            rw used
              (IsSound-Offline cfg positive (Offline-update_email_verified user_id true w₁) s₁)
      ]

  pub IsSound-reset :
      (token new : Str) (w : World e)
      → IsSound cfg w
      → IsSound cfg (reset_password cfg token new w).1
  unfolding reset_password ◌>>=◌
  IsSound-reset token new w s =
      let w₁ : World e = (consume_token purpose_reset_password (token_hash cfg token) w).1 in
      let s₁ = IsSound-consume cfg positive purpose_reset_password (token_hash cfg token) w s in
      elim (Result-cases (consume_token purpose_reset_password (token_hash cfg token) w).0) [
        | inl (x, failed) ↦ rw failed s₁
        | inr (user_id, used) ↦
            let w₂ : World e = (bcrypt_hash new w₁).1 in
            let s₂ = IsSound-Offline cfg positive (Offline-bcrypt_hash new w₁) s₁ in
            elim (Result-cases (bcrypt_hash new w₁).0) [
              | inl (x, failed) ↦ rw (used, failed) s₂
              | inr (hashed, drawn) ↦
                  let w₃ : World e = (update_password user_id hashed w₂).1 in
                  let s₃ =
                    IsSound-Offline cfg positive (Offline-update_password user_id hashed w₂) s₂ in
                  elim (Result-cases (update_password user_id hashed w₂).0) [
                    | inl (x, failed) ↦ rw (used, drawn, failed) s₃
                    | inr (one, updated) ↦
                        rw (used, drawn, updated) (IsSound-delete_user cfg positive user_id w₃ s₃)
                  ]
            ]
      ]

  pub IsSound-wait : (d : ℕ) (w : World e) → IsSound cfg w → IsSound cfg (elapse d w)
  IsSound-wait d w s = record {
    ready = record { up = s.ready.up; sets = λ u n le. s.ready.sets u n (omega arith) };
    indexed = elapse-IsIndexed (refresh_lifetime cfg) d w s.indexed;
  }
