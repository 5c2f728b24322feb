-- ===== src/Smtp.antt =====
-- The SMTP sender: pkg/mail/smtp.go, and NewSender of pkg/mail/mailer.go. The client of
-- github.com/wneessen/go-mail is a parameter. Errors keep no text.
use servora_iam.Prelude.{
  ◌≡◌, ℤ, pos, negsuc, Bool, true, not, ◌||◌, Option, none, some, List, [], ◌∷◌, ◌++◌, Str, bytes,
  is_empty, ltb, nat_eq, arith, if◌then◌else◌,
}
use servora_iam.Errors.{ok, err, failure}
use servora_iam.Exec.{Exec, raise, ensure, ◌>>=◌, ◌>>◌}
use servora_iam.Platform.Mailer.{Email, From}

-- conf.Smtp; a duration is in nanoseconds.
pub record SmtpConfig : Type 0 where
  pub host : Str
  pub port : ℤ
  pub username : Str
  pub password : Str
  pub tls : Bool
  pub skip_verify_ssl : Bool
  pub send_timeout : Option ℤ

pub data TlsPolicy : Type 0 where
  mandatory opportunistic : TlsPolicy

-- gomail.Option
pub data SmtpOption : Type 0 where
  with_port : ℤ → SmtpOption
  with_smtp_auth_plain : SmtpOption
  with_username with_password : Str → SmtpOption
  with_tls_port_policy : TlsPolicy → SmtpOption
  -- a configuration that skips the verification of the certificate
  with_tls_config : (server_name : Str) → SmtpOption
  with_timeout : ℤ → SmtpOption

-- `if port == 0 { port = 587 }`
unfoldable pub port_or_default : ℤ → ℤ
port_or_default (pos n) = if nat_eq n 0 then pos 587 else pos n
port_or_default (negsuc n) = negsuc n

unfoldable pub auth_options : (username password : Str) → List SmtpOption
auth_options username password =
    if not (is_empty username) || not (is_empty password)
    then with_smtp_auth_plain ∷ with_username username ∷ with_password password ∷ []
    else []

unfoldable pub timeout_options : Option ℤ → List SmtpOption
timeout_options none = []
timeout_options (some (pos n)) = if ltb 0 n then with_timeout (pos n) ∷ [] else []
timeout_options (some (negsuc n)) = []

pub record SmtpSender : Type 0 where
  pub host : Str
  pub opts : List SmtpOption

-- newSMTPSender
unfoldable pub new_smtp_sender : SmtpConfig → SmtpSender
new_smtp_sender c = record {
  host = c.host;
  opts =
      with_port (port_or_default c.port)
      ∷ (auth_options c.username c.password
          ++ (with_tls_port_policy (if c.tls then mandatory else opportunistic)
              ∷ ((if c.skip_verify_ssl then with_tls_config c.host ∷ [] else [])
                  ++ timeout_options c.send_timeout)));
}

pub data ContentType : Type 0 where
  text_html text_plain : ContentType

-- gomail.Msg: its headers, and its body with the alternatives.
pub record Message : Type 0 where
  pub from : Str
  pub to : List Str
  pub cc : List Str
  pub bcc : List Str
  pub subject : Str
  pub parts : List (ContentType × Str)

pub record SmtpClient : Type 1 where
  pub State : Type 0
  -- whether the addresses are taken
  pub valid_from : Str → Bool
  pub valid_to : List Str → Bool
  -- whether NewClient takes the host and the options
  pub accepts : (host : Str) → List SmtpOption → Bool
  -- the messages that the server has taken
  pub delivered : State → List Message
  pub dial_and_send : SmtpSender → Message → State → Bool × State
  pub send_delivered :
      (s : SmtpSender) (m : Message) (t : State)
      → (dial_and_send s m t).0 ≡ true
      → delivered (dial_and_send s m t).1 ≡ delivered t ++ m ∷ []

-- `"name" <address>`
unfoldable pub from_header : From → Str
from_header f = 34 ∷ (f.name ++ (bytes "\" <" ++ (f.address ++ bytes ">")))

unfoldable pub parts_of : (html text : Str) → List (ContentType × Str)
parts_of [] [] = []
parts_of [] (c ∷ text) = (text_plain, c ∷ text) ∷ []
parts_of (c ∷ html) [] = (text_html, c ∷ html) ∷ []
parts_of (c ∷ html) (d ∷ text) = (text_html, c ∷ html) ∷ (text_plain, d ∷ text) ∷ []

unfoldable pub message_of : Email → Message
message_of m = record {
  from = from_header m.from;
  to = m.to;
  cc = m.cc;
  bcc = m.bcc;
  subject = m.subject;
  parts = parts_of m.html m.text;
}

module _ (c : SmtpClient) where
  unfoldable pub valid_list : List Str → Bool
  valid_list [] = true
  valid_list (a ∷ rest) = c.valid_to (a ∷ rest)

  unfoldable pub deliver : SmtpSender → Message → Exec c.State Unit
  deliver s m t =
      let (sent, t') = c.dial_and_send s m t in (if sent then ok tt else err failure, t')

  -- smtpSender.Send
  unfoldable pub send : SmtpSender → Email → Exec c.State Unit
  send s email = do
    ensure (c.valid_from (from_header email.from)) failure
    ensure (valid_list email.to) failure
    ensure (valid_list email.cc) failure
    ensure (valid_list email.bcc) failure
    ensure (c.accepts s.host s.opts) failure
    deliver s (message_of email)

  -- NewSender, with the sender that refuses where there is no configuration.
  unfoldable pub send_by : Option SmtpConfig → Email → Exec c.State Unit
  send_by none email = raise failure
  send_by (some conf) email = send (new_smtp_sender conf) email

  -- A Send that succeeds has delivered one message, with the addresses, the subject and the bodies of
  -- the email; there is none without a configuration.
  pub send_by-delivered :
      (conf : Option SmtpConfig) (email : Email) (t : c.State)
      → (send_by conf email t).0 ≡ ok tt
      → c.delivered (send_by conf email t).1 ≡ c.delivered t ++ message_of email ∷ []
  unfolding send_by send deliver ◌>>=◌
  send_by-delivered none email t h = cc
  send_by-delivered (some conf) email t h =
      ground (arith, c.send_delivered (new_smtp_sender conf) (message_of email) t)
