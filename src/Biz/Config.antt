-- ===== src/Biz/Config.antt =====
-- The settings that the use cases read: conf.App.Jwt and conf.Mail of
-- github.com/Servora-Kit/servora/api/gen/go/servora/conf/v1. Durations are
-- nanoseconds; a configured one may be negative.
use servora_iam.Prelude.{ℕ, ℤ, Option, none, some, [], Str}
use servora_iam.Platform.Mailer.{From}

abbrev pub second : ℕ
second = 1_000_000_000

abbrev pub hour : ℕ
hour = 3_600_000_000_000

pub record MailConfig : Type 0 where
  pub base_url : Str
  pub template_dir : Str
  pub from : Option From
  pub verify_email_ttl : Option ℤ
  pub reset_password_ttl : Option ℤ

pub record Config : Type 0 where
  pub audience : Str
  pub issuer : Str
  -- in seconds; the source has int32 here, of which negative ones are not modelled
  pub access_expire : ℕ
  pub refresh_expire : ℕ
  pub mail : Option MailConfig

-- `mailCfg.GetBaseUrl()` and `GetTemplateDir()`, which are "" where there is no config.
abbrev pub base_url : Option MailConfig → Str
base_url none = []
base_url (some m) = m.base_url

abbrev pub template_dir : Option MailConfig → Str
template_dir none = []
template_dir (some m) = m.template_dir
