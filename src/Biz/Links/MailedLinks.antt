-- ===== src/Biz/Links/MailedLinks.antt =====
-- The mailing of a link, which RequestPasswordReset and RequestEmailVerification of
-- app/iam/service/internal/biz/authn.go share.
use servora_iam.Prelude.{
  ℕ, ◌+◌, ◌≤◌, ◌<◌, ◌≡◌, true, Option, [], ◌∷◌, ◌++◌, Str, arith, some, none, inl, inr, ltb,
  if◌then◌else◌, ℤ, pos, negsuc,
}
use servora_iam.Platform.Mailer.{Email}
use servora_iam.Errors.{Result, Reason, ok}
use servora_iam.Exec.{lift, on_error, as_reason, ◌>>◌, ◌>>=◌, Result-cases}
use servora_iam.Platform.World.{Action, Env, World, users_select, rand_read, send_mail, redis_set}
use servora_iam.Platform.Frames.{Offline}
use servora_iam.Data.Mapper.{User}
use servora_iam.Data.AuthnRepo.{get_user_by_email}
use servora_iam.Data.Otp.{otp_key, set_token}
use servora_iam.Data.Otp.OneTime.{holder}
use servora_iam.Biz.Config.{Config, MailConfig}
use servora_iam.Biz.MailRender.{Rendered}
use servora_iam.Biz.Authn.{
  internal, token_hash, mail_to, build_token_link, verify_email_ttl, reset_password_ttl,
  positive_or, generate_opaque_token,
}
use servora_iam.Biz.Sessions.Frames.{Offline-generate_opaque_token}

pub positive_or_pos : (default : ℕ) (d : Option ℤ) → 0 < default → 0 < positive_or default d
unfolding positive_or
positive_or_pos default none h = h
positive_or_pos default (some (pos n)) h = ground arith
positive_or_pos default (some (negsuc n)) h = h

pub verify_email_ttl_pos : (m : Option MailConfig) → 0 < verify_email_ttl m
unfolding verify_email_ttl
verify_email_ttl_pos none = omega arith
verify_email_ttl_pos (some m) = positive_or_pos _ m.verify_email_ttl (omega arith)

pub reset_password_ttl_pos : (m : Option MailConfig) → 0 < reset_password_ttl m
unfolding reset_password_ttl
reset_password_ttl_pos none = omega arith
reset_password_ttl_pos (some m) = positive_or_pos _ m.reset_password_ttl (omega arith)

module _ ⦃e : Env⦄ (cfg : Config) where
  -- One mail to a user was sent, its link holds a token, and the store accepts that token for the
  -- purpose and the user until the time has passed.
  pub record IsMailed (purpose path : Str) (ttl : ℕ) (render : Str → Result Rendered) (u : User)
      (w w' : World e) : Type 0 where
    pub raw : Str
    pub mail : Rendered
    pub rendered : render (build_token_link cfg.mail path raw) ≡ ok mail
    pub sent : e.mailer.sent w'.outbox ≡ e.mailer.sent w.outbox ++ mail_to cfg u.email mail ∷ []
    pub accepted :
        (n : ℕ)
        → w.clock ≤ n
        → holder w' n purpose (token_hash cfg raw)
          ≡ (if ltb n (w.clock + ttl) then some u.id else none)

  pub outbox-generate_opaque_token :
      (w : World e) → (generate_opaque_token cfg w).1.outbox ≡ w.outbox
  unfolding generate_opaque_token rand_read ◌>>=◌
  outbox-generate_opaque_token w = ground arith

  pub outbox-get_user_by_email :
      (email : Str) (w : World e) → (get_user_by_email email w).1.outbox ≡ w.outbox
  unfolding get_user_by_email users_select ◌>>=◌
  outbox-get_user_by_email email w = ground arith

  module _ (purpose path : Str) (ttl : ℕ) (render : Str → Result Rendered) where
    -- The steps that both requests take for a user.
    abbrev pub mail_link : User → Action Unit
    mail_link user = do
      raw ← on_error internal (generate_opaque_token cfg)
      on_error internal (set_token purpose (token_hash cfg raw) user.id ttl)
      mail ← on_error internal (lift (render (build_token_link cfg.mail path raw)))
      on_error (as_reason Reason.internal "failed to send email")
          (send_mail (mail_to cfg user.email mail))

    pub mail_link-IsMailed :
        (u : User) (w : World e)
        → 0 < ttl
        → (mail_link u w).0 ≡ ok tt
        → IsMailed purpose path ttl render u w (mail_link u w).1
    unfolding set_token redis_set send_mail ◌>>=◌
    mail_link-IsMailed u w positive done = elim (Result-cases (generate_opaque_token cfg w).0) [
      | inl (x, failed) ↦ absurd (ground arith)
      | inr (raw, drawn) ↦ elim (Result-cases (render (build_token_link cfg.mail path raw))) [
        | inl (x, failed) ↦ absurd (ground arith)
        | inr (mail, rendered) ↦
            let w_drawn : World e = (generate_opaque_token cfg w).1 in
            let o = Offline-generate_opaque_token cfg w in
            let key = otp_key purpose (token_hash cfg raw) in
            let stored : (e.redis.set key u.id ttl w_drawn.clock w_drawn.kv).0 ≡ true =
              ground arith in
            let delivered : (e.mailer.send (mail_to cfg u.email mail) w_drawn.outbox).0 ≡ true =
              ground arith in
            record {
              raw = raw;
              mail = mail;
              rendered = rendered;
              sent = ground (
                arith,
                e.mailer.send_sent (mail_to cfg u.email mail) w_drawn.outbox delivered,
                outbox-generate_opaque_token w,
              );
              accepted = λ n le. ground (
                arith,
                o.clock,
                e.redis.set_hit key u.id ttl w_drawn.clock n w_drawn.kv stored positive
                    (omega (arith, o.clock)),
              );
            }
      ]
    ]

  module _ (purpose path : Str) (ttl : ℕ) (render : Str → Result Rendered) where
    pub mail_link_sends :
        (u : User) (w : World e)
        → (mail_link purpose path ttl render u w).0 ≡ ok tt
        → (m : Email) × (o : e.mailer.Outbox) × ((e.mailer.send m o).0 ≡ true)
    unfolding set_token redis_set send_mail ◌>>=◌
    mail_link_sends u w done = elim (Result-cases (generate_opaque_token cfg w).0) [
      | inl (x, failed) ↦ absurd (ground arith)
      | inr (raw, drawn) ↦ elim (Result-cases (render (build_token_link cfg.mail path raw))) [
        | inl (x, failed) ↦ absurd (ground arith)
        | inr (mail, rendered) ↦
            (mail_to cfg u.email mail, (generate_opaque_token cfg w).1.outbox, ground arith)
      ]
    ]

  pub IsMailed-after :
      {p path : Str} {ttl : ℕ} {render : Str → Result Rendered} {u : User} {v w w' : World e}
      → Offline w v
      → v.outbox ≡ w.outbox
      → IsMailed p path ttl render u v w'
      → IsMailed p path ttl render u w w'
  IsMailed-after o same m = record {
    raw = m.raw;
    mail = m.mail;
    rendered = m.rendered;
    sent = ground (arith, same, m.sent);
    accepted = λ n le. ground (arith, o.clock, m.accepted n (omega (arith, o.clock)));
  }
