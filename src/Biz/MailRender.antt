-- ===== src/Biz/MailRender.antt =====
-- The mails with a link: app/iam/service/internal/biz/mail_render.go, and DefaultFrom of
-- pkg/mail/mailer.go. The data of a template holds the logo too, which is the same in every mail.
use servora_iam.Prelude.{
  ℕ, ◌/◌, Option, none, some, [], Str, bytes, decimal, is_empty, ltb, if◌then◌else◌,
}
use servora_iam.Errors.{Result, failure}
use servora_iam.Exec.{result_of_option}
use servora_iam.Platform.Mailer.{Mailer, MailData, From}
use servora_iam.Biz.Config.{MailConfig, hour, template_dir}

-- The hours of a duration, at least 1.
unfoldable pub ttl_hours : ℕ → Str
ttl_hours d = let h = d / hour in decimal (if ltb h 1 then 1 else h)

unfoldable pub default_from : Option MailConfig → From
default_from none = record { address = []; name = [] }
default_from (some m) = elim m.from [ none ↦ record { address = []; name = [] } | some f ↦ f ]

-- The template of the configured directory if it renders, else the embedded one.
render_template : Mailer → Option MailConfig → (name : Str) → MailData → Option Str
render_template m cfg name d =
    let file = m.render_file (template_dir cfg) name d in
    let embedded = m.render_embedded name d in
    if is_empty (template_dir cfg)
    then embedded
    else elim file [ some html ↦ some html | none ↦ embedded ]

-- A mail's subject and body.
pub record Rendered : Type 0 where
  pub subject : Str
  pub html : Str

with_subject : Str → Option Str → Result Rendered
with_subject subject none = result_of_option none failure
with_subject subject (some html) =
    result_of_option (some (record { subject = subject; html = html })) failure

unfoldable pub render_verify_email :
    Mailer → Option MailConfig → (link : Str) (ttl : ℕ) → Result Rendered
unfolding render_template with_subject
render_verify_email m cfg link ttl = with_subject (bytes "Verify your email") (
    render_template m cfg (bytes "verify_email.html")
      (record { link = link; expiry_hours = ttl_hours ttl }))

unfoldable pub render_reset_password :
    Mailer → Option MailConfig → (link : Str) (ttl : ℕ) → Result Rendered
unfolding render_template with_subject
render_reset_password m cfg link ttl = with_subject (bytes "Reset your password") (
    render_template m cfg (bytes "reset_password.html")
      (record { link = link; expiry_hours = ttl_hours ttl }))
