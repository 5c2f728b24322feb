-- ===== src/Biz/Links/Mailing.antt =====
-- RequestPasswordReset and RequestEmailVerification of app/iam/service/internal/biz/authn.go: what
-- is mailed, and what the store accepts.
use servora_iam.Prelude.{◌≡◌, ◌≢◌, Bool, true, false, Str, arith, bytes}
use servora_iam.Platform.Mailer.{Email}
use servora_iam.Errors.{Error, ok, err}
use servora_iam.Exec.{◌>>=◌}
use servora_iam.Platform.World.{Env, World}
use servora_iam.Data.Mapper.{User}
use servora_iam.Data.AuthnRepo.{get_user_by_email}
use servora_iam.Biz.Config.{Config}
use servora_iam.Biz.MailRender.{render_verify_email, render_reset_password}
use servora_iam.Biz.Authn.{
  purpose_verify_email, purpose_reset_password, verify_email_ttl, reset_password_ttl,
}
use servora_iam.Biz.Links.{
  request_email_verification, request_password_reset, mail_verification, mail_if_unverified,
  mail_verification_if_found, mail_reset_if_found,
}
use servora_iam.Biz.Sessions.Frames.{Offline-get_user_by_email}
use servora_iam.Biz.Links.MailedLinks.{
  verify_email_ttl_pos, reset_password_ttl_pos, outbox-get_user_by_email, mail_link-IsMailed,
  mail_link_sends, IsMailed-after, IsMailed,
}

module _ ⦃e : Env⦄ (cfg : Config) where
  mail_if_unverified-IsMailed :
      (verified : Bool) (u : User) (w : World e)
      → verified ≡ false
      → (mail_if_unverified cfg verified u w).0 ≡ ok tt
      → IsMailed cfg purpose_verify_email
          (bytes "/verify-email")
          (verify_email_ttl cfg.mail)
          (λ link. render_verify_email e.mailer cfg.mail link (verify_email_ttl cfg.mail))
          u
          w
          (mail_if_unverified cfg verified u w).1
  unfolding mail_if_unverified mail_verification ◌>>=◌
  mail_if_unverified-IsMailed true u w unverified done = cc
  mail_if_unverified-IsMailed false u w unverified done =
      mail_link-IsMailed cfg purpose_verify_email (bytes "/verify-email")
        (verify_email_ttl cfg.mail)
        (λ link. render_verify_email e.mailer cfg.mail link (verify_email_ttl cfg.mail)) u w
        (verify_email_ttl_pos cfg.mail) done

  module _ (email : Str) (w : World e) where
    -- RequestPasswordReset succeeds where the look-up by email fails, and neither mails nor stores
    -- anything.
    pub request_password_reset-quiet :
        {x : Error}
        → (get_user_by_email email w).0 ≡ err x
        → ((request_password_reset cfg email w).0 ≡ ok tt)
          × ((request_password_reset cfg email w).1.outbox ≡ w.outbox)
          × ((request_password_reset cfg email w).1.kv ≡ w.kv)
    unfolding request_password_reset mail_reset_if_found ◌>>=◌
    request_password_reset-quiet missing =
        let o = Offline-get_user_by_email email w in
        let quiet = outbox-get_user_by_email cfg email w in
        (ground arith, ground (arith, quiet), ground (arith, o.kv))

    -- A RequestPasswordReset that finds a user and succeeds has sent that user one mail, whose link
    -- holds a token that the store accepts for a new password of the user until the configured time
    -- has passed.
    pub request_password_reset-IsMailed :
        (u : User)
        → (get_user_by_email email w).0 ≡ ok u
        → (request_password_reset cfg email w).0 ≡ ok tt
        → IsMailed cfg purpose_reset_password
            (bytes "/reset-password")
            (reset_password_ttl cfg.mail)
            (λ link. render_reset_password e.mailer cfg.mail link (reset_password_ttl cfg.mail))
            u
            w
            (request_password_reset cfg email w).1
    unfolding request_password_reset mail_reset_if_found ◌>>=◌
    request_password_reset-IsMailed u found done =
        let o = Offline-get_user_by_email email w in
        let quiet = outbox-get_user_by_email cfg email w in
        rw found (
          IsMailed-after cfg o quiet (
            mail_link-IsMailed cfg purpose_reset_password (bytes "/reset-password")
              (reset_password_ttl cfg.mail)
              (λ link. render_reset_password e.mailer cfg.mail link (reset_password_ttl cfg.mail)) u
              (get_user_by_email email w).1 (reset_password_ttl_pos cfg.mail) (rw found at done)))

    -- RequestEmailVerification succeeds for a user whose email is verified, and neither mails nor
    -- stores anything.
    pub request_email_verification-quiet :
        (u : User)
        → (get_user_by_email email w).0 ≡ ok u
        → u.email_verified ≡ true
        → ((request_email_verification cfg email w).0 ≡ ok tt)
          × ((request_email_verification cfg email w).1.outbox ≡ w.outbox)
          × ((request_email_verification cfg email w).1.kv ≡ w.kv)
    unfolding request_email_verification mail_if_unverified mail_verification_if_found ◌>>=◌
    request_email_verification-quiet u found verified =
        let o = Offline-get_user_by_email email w in
        let quiet = outbox-get_user_by_email cfg email w in
        (ground arith, ground (arith, quiet), ground (arith, o.kv))

    -- A RequestEmailVerification that finds a user with an email that is not verified and succeeds
    -- has sent that user one mail, whose link holds a token that the store accepts for the
    -- verification of the user until the configured time has passed.
    pub request_email_verification-IsMailed :
        (u : User)
        → (get_user_by_email email w).0 ≡ ok u
        → u.email_verified ≡ false
        → (request_email_verification cfg email w).0 ≡ ok tt
        → IsMailed cfg purpose_verify_email
            (bytes "/verify-email")
            (verify_email_ttl cfg.mail)
            (λ link. render_verify_email e.mailer cfg.mail link (verify_email_ttl cfg.mail))
            u
            w
            (request_email_verification cfg email w).1
    unfolding request_email_verification mail_verification_if_found ◌>>=◌
    request_email_verification-IsMailed u found unverified done =
        let o = Offline-get_user_by_email email w in
        let quiet = outbox-get_user_by_email cfg email w in
        IsMailed-after cfg o quiet (
          rw found (
            mail_if_unverified-IsMailed u.email_verified u (get_user_by_email email w).1 unverified
              (rw found at done)))

    -- Where no mail can be sent, RequestPasswordReset fails for the address of an account.
    pub reset_reveals_account :
        (u : User)
        → ((m : Email) (o : e.mailer.Outbox) → (e.mailer.send m o).0 ≡ false)
        → (get_user_by_email email w).0 ≡ ok u
        → (request_password_reset cfg email w).0 ≢ ok tt
    unfolding request_password_reset mail_reset_if_found ◌>>=◌
    reset_reveals_account u dead found done =
        let (m, o, delivered) =
          mail_link_sends cfg purpose_reset_password (bytes "/reset-password")
            (reset_password_ttl cfg.mail)
            (λ link. render_reset_password e.mailer cfg.mail link (reset_password_ttl cfg.mail)) u
            (get_user_by_email email w).1 (rw found at done) in
        cc (dead m o, delivered)
