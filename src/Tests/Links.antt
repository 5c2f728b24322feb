-- ===== src/Tests/Links.antt =====
-- The theorems on mailed links, at concrete inputs.
use servora_iam.Platform.Rows.{within}
use servora_iam.Prelude.{sym, ◌≡◌, ◌≢◌, refl, false, none, some, [], Str, bytes, ◌==◌}
use servora_iam.Errors.{ok, err, not_found}
use servora_iam.Exec.{◌>>=◌}
use servora_iam.Platform.Table.{only}
use servora_iam.Platform.Mailer.{Mailer}
use servora_iam.Platform.World.{
  Env, World, redis_set, redis_get_del, redis_s_members, redis_del, rand_read, hex, users_select,
  users_update, bcrypt_hash, send_mail,
}
use servora_iam.Data.Mapper.{User, to_proto}
use servora_iam.Data.Otp.{set_token, consume_token, otp_key}
use servora_iam.Data.Otp.OneTime.{holder}
use servora_iam.Data.AuthnRepo.{
  the_user, get_user_by_email, parse_id, update_password, update_email_verified,
}
use servora_iam.Data.AuthnRepo.Updates.{rows_of}
use servora_iam.Data.RefreshTokens.{
  refresh_key, user_tokens_key, del_all, delete_user_refresh_tokens,
}
use servora_iam.Data.RefreshTokens.Index.{IsIndexed}
use servora_iam.Data.RefreshTokens.Ready.{IsReady}
use servora_iam.Biz.MailRender.{render_verify_email, render_reset_password}
use servora_iam.Biz.Authn.{
  purpose_verify_email, purpose_reset_password, token_hash, generate_opaque_token, build_token_link,
}
use servora_iam.Biz.Links.{
  mail_verification, mail_if_unverified, mail_verification_if_found, mail_reset_if_found,
  request_email_verification, verify_email, request_password_reset, reset_password,
}
use servora_iam.Biz.Links.Redeeming.{reset_password_lem}
use servora_iam.Biz.Links.Mailing.{reset_reveals_account}
use servora_iam.Biz.Sessions.Passwords.{IsRehashed, IsSignedOut}
use servora_iam.Tests.Memory.{memory}
use servora_iam.Tests.Memory.Rows.{of_true-false}
use servora_iam.Tests.Memory.Services.{memory_mailer}
use servora_iam.Tests.Worlds.{bob, carol, settings, town, lifetime}

-- A token was stored for Carol.
abbrev raw : Str
raw = bytes "r"

abbrev verifying : World memory
verifying = (set_token purpose_verify_email (token_hash settings raw) (bytes "c") 9 town).1

verify_done : (verify_email settings raw verifying).0 ≡ ok tt
unfolding verify_email set_token consume_token redis_set redis_get_del otp_key token_hash hex
    update_email_verified parse_id users_update ◌==◌ ◌>>=◌
verify_done = refl

not_for_reset :
    holder verifying verifying.clock purpose_reset_password (token_hash settings raw) ≡ none
unfolding set_token redis_set otp_key token_hash hex ◌==◌
not_for_reset = refl

abbrev resetting : World memory
resetting = (set_token purpose_reset_password (token_hash settings raw) (bytes "c") 9 town).1

resetting-IsReady : IsReady resetting
unfolding set_token redis_set otp_key user_tokens_key ◌==◌
resetting-IsReady = record { up = refl; sets = λ u n le. refl }

resetting-IsIndexed : IsIndexed lifetime resetting
unfolding set_token redis_set otp_key refresh_key ◌==◌
resetting-IsIndexed = record { listed = λ t u n le live. cc; bounded = λ t u n le live. cc }

reset_done : (reset_password settings raw (bytes "new") resetting).0 ≡ ok tt
unfolding within reset_password set_token consume_token redis_set redis_get_del otp_key token_hash
    hex bcrypt_hash update_password delete_user_refresh_tokens redis_s_members redis_del del_all
    user_tokens_key parse_id users_update ◌==◌ ◌>>=◌
reset_done = refl

reset_password_lem_example :
    let w' = (reset_password settings raw (bytes "new") resetting).1 in
    (user_id : Str) × (holder resetting resetting.clock purpose_reset_password
        (token_hash settings raw)
      ≡ some user_id)
    × IsRehashed user_id (bytes "new") (rows_of resetting) (rows_of w')
    × IsSignedOut user_id w'
reset_password_lem_example =
    reset_password_lem settings raw resetting (bytes "new") lifetime resetting-IsReady
      resetting-IsIndexed reset_done

nobody : (get_user_by_email (bytes "dave@x") town).0 ≡ err not_found
unfolding get_user_by_email the_user users_select only ◌==◌ ◌>>=◌
nobody = refl

abbrev bob_user : User
bob_user = to_proto memory.crypto bob

abbrev carol_user : User
carol_user = to_proto memory.crypto carol

bob_found : (get_user_by_email (bytes "bob@x") town).0 ≡ ok bob_user
unfolding get_user_by_email the_user users_select only ◌==◌ ◌>>=◌
bob_found = refl

carol_found : (get_user_by_email (bytes "carol@x") town).0 ≡ ok carol_user
unfolding get_user_by_email the_user users_select only ◌==◌ ◌>>=◌
carol_found = refl

request_done : (request_password_reset settings (bytes "carol@x") town).0 ≡ ok tt
unfolding request_password_reset mail_reset_if_found get_user_by_email the_user users_select only
    generate_opaque_token rand_read hex set_token redis_set render_reset_password build_token_link
    send_mail token_hash ◌==◌ ◌>>=◌
request_done = refl

carol_unverified : carol_user.email_verified ≡ false
unfolding to_proto
carol_unverified = refl

verification_done : (request_email_verification settings (bytes "carol@x") town).0 ≡ ok tt
unfolding request_email_verification mail_verification_if_found mail_if_unverified mail_verification
    get_user_by_email the_user users_select only generate_opaque_token rand_read hex set_token
    redis_set render_verify_email build_token_link send_mail token_hash to_proto ◌==◌ ◌>>=◌
verification_done = refl

-- A mail server that refuses every message.
abbrev dead_mailer : Mailer
dead_mailer = record memory_mailer {
  send = λ m o. (false, o);
  send_sent = λ m o h. of_true-false (sym h);
}

abbrev cut_off : Env
cut_off = record memory { mailer = dead_mailer }

abbrev dead_town : World cut_off
dead_town = record {
  kv = town.kv;
  users = town.users;
  applications = [];
  source = 0;
  outbox = [];
  clock = 5;
}

bob_found_still : (get_user_by_email ⦃e = cut_off⦄ (bytes "bob@x") dead_town).0 ≡ ok bob_user
unfolding get_user_by_email the_user users_select only ◌==◌ ◌>>=◌
bob_found_still = refl

reset_reveals_account_example :
    (request_password_reset ⦃e = cut_off⦄ settings (bytes "bob@x") dead_town).0 ≢ ok tt
reset_reveals_account_example =
    reset_reveals_account ⦃e = cut_off⦄ settings (bytes "bob@x") dead_town bob_user (λ m o. refl)
      bob_found_still
