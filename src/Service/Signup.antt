-- ===== src/Service/Signup.antt =====
-- The captcha of a signup: SignupByEmail of app/iam/service/internal/service/authn.go.
use servora_iam.Prelude.{
  ap, ◌∙◌, ℕ, ◌≡◌, ◌≢◌, refl, true, false, Option, none, some, Str, ◌==◌, arith, is_empty,
  Option-cases, Bool-cases, inl, inr,
}
use servora_iam.Errors.{ok}
use servora_iam.Exec.{◌>>=◌, Result-cases}
use servora_iam.Platform.World.{
  Env, World, redis_get_del, redis_set, send_mail, users_insert, users_select, new_uuid,
  bcrypt_hash,
}
use servora_iam.Data.RefreshTokens.Index.{elapse}
use servora_iam.Data.Mapper.{User}
use servora_iam.Data.Otp.{otp_key, set_token}
use servora_iam.Data.AuthnRepo
use servora_iam.Data.AuthnRepo.{get_user_by_user_name, get_user_by_email}
use servora_iam.Cap.{
  token_key, hash_sha256, is_marked, split_colon, validate_parts, validate_split, validate_token,
}
use servora_iam.Biz.Config.{Config}
use servora_iam.Biz.Authn.{
  new_user, signup_by_email, send_verification_email, generate_opaque_token, token_hash,
  purpose_verify_email, verify_email_ttl, check_free,
}
use servora_iam.Biz.Sessions.Frames.{Offline-generate_opaque_token, Offline-get_user_by_email}
use servora_iam.Service.{SignupRequest, SignupResponse, captcha_valid, signup}

otp_key-ne-token_key : (p s id hash : Str) → (otp_key p s == token_key id hash) ≡ false
unfolding otp_key token_key ◌==◌
otp_key-ne-token_key p s id hash = refl

module _ ⦃e : Env⦄ (cfg : Config) where
  -- what the store holds for a captcha token at a time from now on
  abbrev mark : World e → ℕ → (id ver_token : Str) → Option Str
  mark w n id t = (e.redis.slot w.kv (token_key id (hash_sha256 t))).value n

  kv-get_user_by_user_name : (name : Str) (w : World e) → (get_user_by_user_name name w).1.kv ≡ w.kv
  unfolding get_user_by_user_name users_select ◌>>=◌
  kv-get_user_by_user_name name w = ground arith

  kv-bcrypt_hash : (password : Str) (w : World e) → (bcrypt_hash password w).1.kv ≡ w.kv
  unfolding bcrypt_hash
  kv-bcrypt_hash password w = refl

  kv-save_user :
      (u : User) (hashed : Str) (w : World e) → (AuthnRepo.save_user u hashed w).1.kv ≡ w.kv
  unfolding AuthnRepo.save_user new_uuid users_insert ◌>>=◌
  kv-save_user u hashed w = ground arith

  module _ (id t : Str) (n : ℕ) where
    mark-send :
        (u : User) (w : World e) → mark (send_verification_email cfg u w).1 n id t ≡ mark w n id t
    unfolding send_verification_email set_token redis_set send_mail ◌>>=◌
    mark-send u w = elim (Result-cases (generate_opaque_token cfg w).0) [
      | inl (x, failed) ↦ ground (arith, (Offline-generate_opaque_token cfg w).kv)
      | inr (raw, drawn) ↦
          let v : World e = (generate_opaque_token cfg w).1 in
          let key = otp_key purpose_verify_email (token_hash cfg raw) in
          ground (
            arith,
            (Offline-generate_opaque_token cfg w).kv,
            e.redis.set_frame key u.id (verify_email_ttl cfg.mail) v.clock v.kv
                (token_key id (hash_sha256 t))
                (otp_key-ne-token_key purpose_verify_email (token_hash cfg raw) id (hash_sha256 t)),
          )
    ]

    -- A signup leaves the captcha tokens alone.
    mark-signup :
        (username email password : Str) (w : World e)
        → mark (signup_by_email cfg username email password w).1 n id t ≡ mark w n id t
    unfolding signup_by_email ◌>>=◌
    mark-signup username email password w =
        let v₁ : World e = (get_user_by_user_name username w).1 in
        let v₂ : World e = (get_user_by_email email v₁).1 in
        let v₃ : World e = (bcrypt_hash password v₂).1 in
        let k₁ = kv-get_user_by_user_name username w in
        let k₂ = (Offline-get_user_by_email email v₁).kv in
        let k₃ = kv-bcrypt_hash password v₂ in
        elim (Result-cases
          (check_free (get_user_by_user_name username w).0 "username already exists")) [
            | inl (x, taken) ↦ ground arith
            | inr (one, free) ↦
                elim (Result-cases
                  (check_free (get_user_by_email email v₁).0 "email already exists")) [
                    | inl (x, taken) ↦ ground arith
                    | inr (two, free') ↦ elim (Result-cases (bcrypt_hash password v₂).0) [
                      | inl (x, failed) ↦ ground arith
                      | inr (hashed, drawn) ↦
                          let saved = AuthnRepo.save_user (new_user username email) hashed v₃ in
                          let k₄ = kv-save_user (new_user username email) hashed v₃ in
                          elim (Result-cases saved.0) [
                            | inl (x, refused) ↦ ground arith
                            | inr (v, stored) ↦ ground (arith, mark-send v saved.1)
                          ]
                    ]
                  ]
          ]

  module _ (req : SignupRequest) (w : World e) {resp : SignupResponse}
      (done : (signup cfg req w).0 ≡ ok resp) where
    abbrev w_valid : World e
    w_valid = (validate_token req.cap_token w).1

    abbrev w_after : World e
    w_after = (signup_by_email cfg req.name req.email req.password w_valid).1

    captcha_checked :
        ((validate_token req.cap_token w).0 ≡ ok true) × ((signup cfg req w).1 ≡ w_after)
    unfolding signup captcha_valid ◌>>=◌
    captcha_checked = elim (Result-cases (validate_token req.cap_token w).0) [
      | inl (x, failed) ↦ absurd (ground arith)
      | inr (b, judged) ↦ (ground arith, ground arith)
    ]

  -- The parts of a token that was valid, and that it is spent.
  valid_spent :
      (token : Str) (w : World e)
      → (validate_token token w).0 ≡ ok true
      → (id t : Str) × (split_colon token ≡ some (id, t))
        × ((n : ℕ) → mark (validate_token token w).1 n id t ≡ none)
  unfolding validate_token validate_split validate_parts is_marked redis_get_del ◌>>=◌
  valid_spent token w valid = elim (Bool-cases (is_empty token)) [
    | inl empty ↦ absurd (ground arith)
    | inr given ↦ elim (Option-cases (split_colon token)) [
      | inl whole ↦ absurd (ground arith)
      | inr ((id, t), parts) ↦
          let key = token_key id (hash_sha256 t) in
          elim (Option-cases (e.redis.get_del key w.clock w.kv).0) [
            | inl missing ↦ absurd (ground arith)
            | inr (val, found) ↦
                (id, t, parts, λ n. ground (arith, e.redis.get_del_hit key w.clock n w.kv found))
          ]
    ]
  ]

  spent_invalid :
      (token id t : Str) (w : World e)
      → split_colon token ≡ some (id, t)
      → mark w w.clock id t ≡ none
      → (validate_token token w).0 ≡ ok false
  unfolding validate_token validate_split validate_parts is_marked redis_get_del ◌>>=◌
  spent_invalid token id t w parts gone =
      let key = token_key id (hash_sha256 t) in
      elim (Option-cases (e.redis.get_del key w.clock w.kv).0) [
        | inl missing ↦ ground arith
        | inr (val, found) ↦ absurd (cc (gone, e.redis.get_del_sound key w.clock w.kv found))
      ]

  refused_signup :
      (req : SignupRequest) (w : World e)
      → (validate_token req.cap_token w).0 ≡ ok false
      → (resp : SignupResponse) → (signup cfg req w).0 ≢ ok resp
  unfolding signup captcha_valid ◌>>=◌
  refused_signup req w invalid resp done = ground arith

  -- A captcha token that served for a signup serves for no other, however much later.
  pub signup_twice :
      (req again : SignupRequest) (w : World e) (d : ℕ) {resp : SignupResponse}
      → (signup cfg req w).0 ≡ ok resp
      → again.cap_token ≡ req.cap_token
      → (other : SignupResponse) → (signup cfg again (elapse d (signup cfg req w).1)).0 ≢ ok other
  signup_twice req again w d {resp} done same_token other =
      let (valid, same) = captcha_checked req w done in
      let (id, t, parts, gone) = valid_spent req.cap_token w valid in
      let w' : World e = elapse d (signup cfg req w).1 in
      let absent : mark w' w'.clock id t ≡ none =
        ap (λ (v : World e). mark v w'.clock id t) same
        ∙ (mark-signup id t w'.clock req.name req.email req.password
              (validate_token req.cap_token w).1
            ∙ gone w'.clock) in
      refused_signup again w' (spent_invalid again.cap_token id t w' (rw same_token parts) absent)
        other
