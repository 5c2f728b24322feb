-- ===== src/Biz/Links/Redeeming.antt =====
-- VerifyEmail and ResetPassword of app/iam/service/internal/biz/authn.go: what a token that was mailed
-- is good for.
use mathlib.Core.Path.{subst}
use servora_iam.Prelude.{
  ℕ, ◌≤◌, ◌≡◌, refl, sym, true, false, Str, ◌==◌, arith, some, none, inl, inr, modify,
}
use servora_iam.Errors.{Reason, ok, err, kratos}
use servora_iam.Exec.{◌>>=◌, Result-cases}
use servora_iam.Platform.Table.{with_id}
use servora_iam.Platform.Rows.{users_schema}
use servora_iam.Platform.World.{Env, World, bcrypt_hash, redis_get_del}
use servora_iam.Data.AuthnRepo.{update_password, update_email_verified, mark_verified}
use servora_iam.Data.AuthnRepo.Updates.{rows_of, update_email_verified-eq-ok}
use servora_iam.Data.Otp.{otp_key, consume_token}
use servora_iam.Data.Otp.OneTime.{holder, consume-holder, slot-consume_token}
use servora_iam.Data.RefreshTokens.{refresh_key, user_tokens_key, delete_user_refresh_tokens}
use servora_iam.Data.RefreshTokens.Index.{IsIndexed, owner}
use servora_iam.Data.RefreshTokens.Ready.{IsReady}
use servora_iam.Biz.Config.{Config}
use servora_iam.Biz.Authn.{purpose_verify_email, purpose_reset_password, token_hash}
use servora_iam.Biz.Links.{verify_email, reset_password}
use servora_iam.Biz.Sessions.Passwords.{IsRehashed, IsSignedOut, password_replaced}

otp_key-ne-refresh_key : (p s t : Str) → (otp_key p s == refresh_key t) ≡ false
unfolding otp_key refresh_key ◌==◌
otp_key-ne-refresh_key p s t = refl

otp_key-ne-user_tokens_key : (p s t : Str) → (otp_key p s == user_tokens_key t) ≡ false
unfolding otp_key user_tokens_key ◌==◌
otp_key-ne-user_tokens_key p s t = refl

-- No key of one purpose is a key of the other.
pub purposes_apart :
    (s t : Str) → (otp_key purpose_verify_email s == otp_key purpose_reset_password t) ≡ false
unfolding otp_key ◌==◌
purposes_apart s t = refl

module _ ⦃e : Env⦄ where
  rows-consume_token : (p t : Str) (w : World e) → rows_of (consume_token p t w).1 ≡ rows_of w
  unfolding consume_token redis_get_del
  rows-consume_token p t w = refl

  clock-consume_token : (p t : Str) (w : World e) → (consume_token p t w).1.clock ≡ w.clock
  unfolding consume_token redis_get_del
  clock-consume_token p t w = refl

  pub consume_token-IsReady :
      (p t : Str) (w : World e) → IsReady w → IsReady (consume_token p t w).1
  consume_token-IsReady p t w r = record {
    up =
        unfold consume_token redis_get_del in
        (e.redis.get_del_up (otp_key p t) w.clock w.kv r.up).1;
    sets = λ u n le. ground (
      arith,
      r.sets u n (omega (arith, clock-consume_token p t w)),
      slot-consume_token p t w (user_tokens_key u) (otp_key-ne-user_tokens_key p t u),
    );
  }

  pub consume_token-IsIndexed :
      (p t : Str) (lifetime : ℕ) (w : World e)
      → IsIndexed lifetime w
      → IsIndexed lifetime (consume_token p t w).1
  consume_token-IsIndexed p t lifetime w h =
      let at = clock-consume_token p t w in
      record {
        listed = λ x u n le live.
            let le' : w.clock ≤ n = omega (arith, at) in
            ground (
              arith,
              h.listed x u n le',
              slot-consume_token p t w (user_tokens_key u) (otp_key-ne-user_tokens_key p t u),
              slot-consume_token p t w (refresh_key x) (otp_key-ne-refresh_key p t x),
            );
        bounded = λ x u n le live.
            let le' : w.clock ≤ n = omega (arith, at) in
            ground (
              arith,
              at,
              h.bounded x u n le',
              slot-consume_token p t w (refresh_key x) (otp_key-ne-refresh_key p t x),
            );
      }

  module _ (cfg : Config) (token : Str) (w : World e) where
    -- A VerifyEmail that succeeds was given a token that was stored for the verification of a user;
    -- it marks the rows with the id of that user, and no other, as verified now.
    pub verify_email_lem :
        (verify_email cfg token w).0 ≡ ok tt
        → (user_id id : Str) × (holder w w.clock purpose_verify_email (token_hash cfg token)
            ≡ some user_id)
          × (e.crypto.parse_uuid user_id ≡ some id)
          × (rows_of (verify_email cfg token w).1
              ≡ modify (with_id users_schema id) (mark_verified true w.clock) (rows_of w))
    unfolding verify_email ◌>>=◌
    verify_email_lem done =
        let hashed = token_hash cfg token in
        let w_used : World e = (consume_token purpose_verify_email hashed w).1 in
        elim (Result-cases (consume_token purpose_verify_email hashed w).0) [
          | inl (x, missing) ↦ absurd (ground arith)
          | inr (user_id, used) ↦
              let updated : (update_email_verified user_id true w_used).0 ≡ ok tt = ground arith in
              let (id, parsed, changed) = update_email_verified-eq-ok user_id true w_used updated in
              (
                user_id,
                id,
                (consume-holder purpose_verify_email hashed w used).0,
                parsed,
                ground (
                  arith,
                  changed,
                  clock-consume_token purpose_verify_email hashed w,
                  rows-consume_token purpose_verify_email hashed w,
                ),
              )
        ]

    -- A token is refused where it was not stored for the purpose: TOKEN_EXPIRED, and no row and no
    -- refresh token changes.
    pub reset_password_refused :
        holder w w.clock purpose_reset_password (token_hash cfg token) ≡ none
        → (new_password : Str)
        → ((reset_password cfg token new_password w).0
            ≡ err (kratos Reason.token_expired "invalid or expired reset token"))
          × (rows_of (reset_password cfg token new_password w).1 ≡ rows_of w)
          × ((n : ℕ) (t : Str)
              → owner (reset_password cfg token new_password w).1 n t ≡ owner w n t)
    unfolding reset_password ◌>>=◌
    reset_password_refused absent new_password =
        let hashed = token_hash cfg token in
        elim (Result-cases (consume_token purpose_reset_password hashed w).0) [
          | inl (x, missing) ↦ (
            ground arith,
            ground (arith, rows-consume_token purpose_reset_password hashed w),
            λ n t. ground (
              arith,
              slot-consume_token purpose_reset_password hashed w (refresh_key t)
                  (otp_key-ne-refresh_key purpose_reset_password hashed t),
            ),
          )
          | inr (user_id, used) ↦
              absurd (cc (absent, (consume-holder purpose_reset_password hashed w used).0))
        ]

    -- While Redis answers and the sets of tokens are complete, a ResetPassword that succeeds was
    -- given a token that was stored for a new password of a user; it stores a hash of the password in
    -- the rows with the id of that user, changes no other row, and ends every session of the user.
    pub reset_password_lem :
        (new_password : Str) (lifetime : ℕ)
        → IsReady w
        → IsIndexed lifetime w
        → (reset_password cfg token new_password w).0 ≡ ok tt
        → let w' = (reset_password cfg token new_password w).1 in
          (user_id : Str) × (holder w w.clock purpose_reset_password (token_hash cfg token)
            ≡ some user_id)
          × IsRehashed user_id new_password (rows_of w) (rows_of w')
          × IsSignedOut user_id w'
    unfolding reset_password ◌>>=◌
    reset_password_lem new_password lifetime ready indexed done =
        let p = purpose_reset_password in
        let t = token_hash cfg token in
        let w_used : World e = (consume_token p t w).1 in
        elim (Result-cases (consume_token p t w).0) [
          | inl (x, missing) ↦ absurd (ground arith)
          | inr (user_id, used) ↦ elim (Result-cases (bcrypt_hash new_password w_used).0) [
            | inl (x, failed) ↦ absurd (ground arith)
            | inr (hashed, drawn) ↦
                let w_hash : World e = (bcrypt_hash new_password w_used).1 in
                let w_update : World e = (update_password user_id hashed w_hash).1 in
                let updated : (update_password user_id hashed w_hash).0 ≡ ok tt = ground arith in
                let same : (reset_password cfg token new_password w).1
                    ≡ (delete_user_refresh_tokens user_id w_update).1 =
                  ground arith in
                let ended =
                  password_replaced user_id new_password w_used hashed drawn lifetime
                    (consume_token-IsReady p t w ready)
                    (consume_token-IsIndexed p t lifetime w indexed) updated in
                let (rehashed, signed_out) =
                  subst
                    (λ v.
                      IsRehashed user_id new_password (rows_of w_used) (rows_of v)
                      × IsSignedOut user_id v)
                    (sym same) ended in
                (
                  user_id,
                  (consume-holder p t w used).0,
                  subst
                      (λ rows.
                        IsRehashed user_id new_password rows
                          (rows_of (reset_password cfg token new_password w).1))
                      (rows-consume_token p t w) rehashed,
                  signed_out,
                )
          ]
        ]
