-- ===== src/Platform/Mailer.antt =====
-- Mail: what a message holds (pkg/mail/mailer.go), and the sender and the templates that the
-- service calls. The SMTP client and html/template are no part of the service.
use servora_iam.Prelude.{◌≡◌, Bool, true, Option, List, [], ◌∷◌, ◌++◌, Str}

pub record From : Type 0 where
  pub address : Str
  pub name : Str

pub record Email : Type 0 where
  pub from : From
  pub to : List Str
  pub cc : List Str
  pub bcc : List Str
  pub subject : Str
  pub text : Str
  pub html : Str

-- The data of a mail template: the link, and the hours that it is valid.
pub record MailData : Type 0 where
  pub link : Str
  pub expiry_hours : Str

pub record Mailer : Type 1 where
  pub Outbox : Type 0
  pub sent : Outbox → List Email
  -- `Sender.Send`; the flag says that no error came back
  pub send : Email → Outbox → Bool × Outbox
  -- renderTemplateFile and renderEmbedded: a template by its name, and the data
  pub render_file : (directory template : Str) → MailData → Option Str
  pub render_embedded : (template : Str) → MailData → Option Str
  pub send_sent :
      (m : Email) (o : Outbox) → (send m o).0 ≡ true → sent (send m o).1 ≡ sent o ++ m ∷ []
