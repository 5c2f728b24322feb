-- ===== src/Server/Access/Exact.antt =====
-- Who may call what, as one table: NewHTTPMiddleware and NewGRPCMiddleware of
-- app/iam/service/internal/server.
use servora_iam.Prelude.{
  ◌≡◌, refl, ap, ◌∙◌, Bool-cases, inl, inr, In, here, there, List, [], ◌∷◌, Bool, true, false,
  Option, none, some, Str, ◌==◌,
}
use servora_iam.Server.Access.{
  Guard, AuthzRule, unchecked, checked, iam_rules, grpc_rules, grpc_method, http_whitelist,
  grpc_whitelist, listed, rule_of, authenticated, admit, http_admits, grpc_admits_method,
  grpc_admits,
}
use servora_iam.Server.Operations.{
  Operation, operation, grpc_method, create_application, delete_application, get_application,
  list_applications, regenerate_client_secret, update_application, change_password,
  login_by_email_password, logout, logout_all_devices, refresh_token, request_email_verification,
  request_password_reset, reset_password, signup_by_email, verify_email, create_user,
  current_user_info, delete_user, get_user, list_users, purge_user, restore_user, update_user,
}
use servora_iam.Server.Access.Audience.{
  Audience, anyone, nobody, signed_in, related, admits, http_audience, grpc_audience,
}

-- What the links of the mails need.
abbrev pub mail_links : List Operation
mail_links =
    request_email_verification ∷ verify_email ∷ request_password_reset ∷ reset_password ∷ []

mail_links-audience :
    (op : Operation)
    → In op mail_links
    → (http_audience op ≡ anyone) × (grpc_audience op ≡ signed_in)
unfolding http_audience grpc_audience
mail_links-audience op (here e) = rw e (refl, refl)
mail_links-audience op (there (here e)) = rw e (refl, refl)
mail_links-audience op (there (there (here e))) = rw e (refl, refl)
mail_links-audience op (there (there (there (here e)))) = rw e (refl, refl)
mail_links-audience op (there (there (there (there i)))) = elim i [ ]

-- What the middleware goes by: whether the whitelist has the operation, and its rule.
unfoldable standing :
    (whitelist : List Str) (rules : List (Str × AuthzRule))
    → Option Str
    → Option (Bool × Option AuthzRule)
standing whitelist rules none = none
standing whitelist rules (some op) = some (listed whitelist op, rule_of rules op)

unfoldable described : Audience → Option (Bool × Option AuthzRule)
described anyone = some (true, some unchecked)
described signed_in = some (false, some unchecked)
described (related relation) = some (false, some (checked relation "platform"))
described nobody = none

http_standing :
    (op : Operation)
    → standing http_whitelist iam_rules (some (operation op)) ≡ described (http_audience op)
unfolding standing described http_audience listed http_whitelist operation rule_of iam_rules ◌==◌
http_standing create_application = refl
http_standing delete_application = refl
http_standing get_application = refl
http_standing list_applications = refl
http_standing regenerate_client_secret = refl
http_standing update_application = refl
http_standing change_password = refl
http_standing login_by_email_password = refl
http_standing logout = refl
http_standing logout_all_devices = refl
http_standing refresh_token = refl
http_standing request_email_verification = refl
http_standing request_password_reset = refl
http_standing reset_password = refl
http_standing signup_by_email = refl
http_standing verify_email = refl
http_standing create_user = refl
http_standing current_user_info = refl
http_standing delete_user = refl
http_standing get_user = refl
http_standing list_users = refl
http_standing purge_user = refl
http_standing restore_user = refl
http_standing update_user = refl

grpc_standing :
    (op : Operation)
    → standing grpc_whitelist grpc_rules (grpc_method op) ≡ described (grpc_audience op)
unfolding standing described grpc_audience listed grpc_whitelist grpc_method rule_of grpc_rules ◌==◌
grpc_standing create_application = refl
grpc_standing delete_application = refl
grpc_standing get_application = refl
grpc_standing list_applications = refl
grpc_standing regenerate_client_secret = refl
grpc_standing update_application = refl
grpc_standing change_password = refl
grpc_standing login_by_email_password = refl
grpc_standing logout = refl
grpc_standing logout_all_devices = refl
grpc_standing refresh_token = refl
grpc_standing request_email_verification = refl
grpc_standing request_password_reset = refl
grpc_standing reset_password = refl
grpc_standing signup_by_email = refl
grpc_standing verify_email = refl
grpc_standing create_user = refl
grpc_standing current_user_info = refl
grpc_standing delete_user = refl
grpc_standing get_user = refl
grpc_standing list_users = refl
grpc_standing purge_user = refl
grpc_standing restore_user = refl
grpc_standing update_user = refl

module _ (g : Guard) where
  -- What the middleware answers, by the standing of an operation.
  unfoldable answer : Option (Bool × Option AuthzRule) → Option Str → Bool
  answer none user = false
  answer (some (true, rule)) user = g.authorize rule none
  answer (some (false, rule)) user = authenticated g rule user

  answer-described :
      (a : Audience) (user : Option Str) → answer (described a) user ≡ admits g a user
  unfolding answer described admits authenticated
  answer-described anyone user = g.authorize_unchecked none
  answer-described nobody user = refl
  answer-described signed_in none = refl
  answer-described signed_in (some u) = g.authorize_unchecked (some u)
  answer-described (related relation) none = refl
  answer-described (related relation) (some u) = g.authorize_checked relation "platform" u

  admit-answer :
      (whitelist : List Str) (rules : List (Str × AuthzRule)) (op token : Str)
      → admit g whitelist rules op token
        ≡ answer (standing whitelist rules (some op)) (g.authenticate token)
  unfolding admit answer standing
  admit-answer whitelist rules op token = elim (Bool-cases (listed whitelist op)) [
    | inl member ↦ rw (g.matches-listed whitelist op, member) refl
    | inr other ↦ rw (g.matches-listed whitelist op, other) refl
  ]

  grpc_admits-answer :
      (m : Option Str) (token : Str)
      → grpc_admits_method g m token
        ≡ answer (standing grpc_whitelist grpc_rules m) (g.authenticate token)
  unfolding grpc_admits_method answer standing
  grpc_admits-answer none token = refl
  grpc_admits-answer (some m) token = admit-answer grpc_whitelist grpc_rules m token

  -- Over HTTP and over gRPC, a request is let through exactly where the user of its token, if it
  -- carries one, belongs to the audience of the operation: everybody, who is signed in, who has the
  -- relation to the platform, or nobody.
  pub admits_exact :
      (op : Operation) (token : Str)
      → (http_admits g op token ≡ admits g (http_audience op) (g.authenticate token))
        × (grpc_admits g op token ≡ admits g (grpc_audience op) (g.authenticate token))
  unfolding http_admits grpc_admits
  admits_exact op token =
      let user = g.authenticate token in
      (
        admit-answer http_whitelist iam_rules (operation op) token
            ∙ (ap (λ x. answer x user) (http_standing op)
                ∙ answer-described (http_audience op) user),
        grpc_admits-answer (grpc_method op) token
            ∙ (ap (λ x. answer x user) (grpc_standing op)
                ∙ answer-described (grpc_audience op) user),
      )

  -- Without a token that names a user, a request by HTTP to send or to redeem a link of a mail is let
  -- through, and the same by gRPC is not.
  pub links_by_grpc :
      (op : Operation) (token : Str)
      → g.authenticate token ≡ none
      → In op mail_links
      → (http_admits g op token ≡ true) × (grpc_admits g op token ≡ false)
  unfolding admits
  links_by_grpc op token anonymous i =
      let (http, grpc) = admits_exact op token in
      let (open_to, closed_to) = mail_links-audience op i in
      (http ∙ rw open_to refl, grpc ∙ rw (closed_to, anonymous) refl)
