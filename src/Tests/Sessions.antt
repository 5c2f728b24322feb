-- ===== src/Tests/Sessions.antt =====
-- The theorems on sessions, at concrete inputs.
use servora_iam.Prelude.{
  [], List, ◌∷◌, ◌<◌, ◌≡◌, refl, true, none, some, Str, bytes, arith, ◌==◌, In, replicate,
}
use servora_iam.Errors.{ok}
use servora_iam.Exec.{◌>>=◌}
use servora_iam.Platform.Rows.{within, UserRow}
use servora_iam.Platform.World.{
  World, redis_set, redis_get, redis_s_add, redis_expire, redis_s_members, redis_del, rand_read,
  hex, users_select, users_update, bcrypt_check, bcrypt_hash,
}
use servora_iam.Platform.Table.{only}
use servora_iam.Data.Mapper.{User, to_proto}
use servora_iam.Data.AuthnRepo.{
  the_user, get_user_by_email, get_user_by_id, get_password_hash, parse_id, update_password,
}
use servora_iam.Data.AuthnRepo.Updates.{rows_of}
use servora_iam.Data.RefreshTokens.{
  refresh_key, user_tokens_key, save_refresh_token, get_refresh_token, delete_refresh_token,
  delete_found, re_add, del_all, delete_user_refresh_tokens,
}
use servora_iam.Data.RefreshTokens.Index.{owner}
use servora_iam.Biz.Authn.{TokenPair, generate_opaque_token, generate_access_token, access_claims}
use servora_iam.Biz.Sessions.{
  logout_all_devices, check_credentials, new_access_token, login_by_email_password, refresh,
  change_password, refresh_lifetime,
}
use servora_iam.Biz.Sessions.Login.{login-IsSession, IsSession}
use servora_iam.Biz.Sessions.Rotation.{refresh-IsSession, owner-refresh}
use servora_iam.Biz.Sessions.Passwords.{change_password_lem, IsRehashed, IsSignedOut}
use servora_iam.Biz.Runs.{Request, login, renew, leave, wait, run, Reaches, start, next}
use servora_iam.Biz.Runs.Soundness.{Reaches-IsSound, logout_all-Reaches}
use servora_iam.Biz.Runs.Store.{IsSound}
use servora_iam.Tests.Memory.{memory}
use servora_iam.Tests.Memory.Services.{claims_list}
use servora_iam.Tests.Worlds.{
  town-IsReady, town-IsIndexed, bob, settings, town, token, lifetime, logged_in, logged_in-IsReady,
  logged_in-IsIndexed, logged_in-clock,
}

abbrev pub bob_user : User
bob_user = to_proto memory.crypto bob

-- What a login of Bob hands out.
abbrev pub pair : TokenPair
pair = record {
  access_token = claims_list (access_claims settings bob_user (hex (replicate 32 0)) 5);
  refresh_token = hex (replicate 32 1);
  expires_in = 60;
}

pub login_done :
    (login_by_email_password settings (bytes "bob@x") (bytes "secret") town).0 ≡ ok pair
unfolding login_by_email_password check_credentials new_access_token generate_opaque_token
    generate_access_token access_claims save_refresh_token redis_set redis_s_add redis_expire
    rand_read get_user_by_email get_password_hash the_user parse_id users_select only bcrypt_check
    ◌==◌ ◌>>=◌ to_proto refresh_lifetime refresh_key user_tokens_key
login_done = refl

login-IsSession_example :
    (u : User) × ((check_credentials settings (bytes "bob@x") (bytes "secret") town).0 ≡ ok u)
    × IsSession settings u pair 5
        (login_by_email_password settings (bytes "bob@x") (bytes "secret") town).1
unfolding refresh_lifetime
login-IsSession_example =
    login-IsSession settings (bytes "bob@x") (bytes "secret") town pair login_done (omega arith)

refresh_done : (refresh settings token logged_in).0 ≡ ok pair
unfolding refresh get_refresh_token redis_get get_user_by_id new_access_token generate_opaque_token
    generate_access_token access_claims save_refresh_token delete_refresh_token delete_found re_add
    redis_set redis_s_add redis_expire redis_del redis_s_members rand_read the_user parse_id
    users_select only ◌==◌ ◌>>=◌ to_proto refresh_lifetime refresh_key user_tokens_key
refresh_done = refl

pub lifetime_pos : 0 < refresh_lifetime settings
unfolding refresh_lifetime
lifetime_pos = omega arith

refresh-IsSession_example :
    (user_id : Str) × (u : User) × (owner logged_in logged_in.clock token ≡ some user_id)
    × ((get_user_by_id user_id (get_refresh_token token logged_in).1).0 ≡ ok u)
    × IsSession settings u pair logged_in.clock (refresh settings token logged_in).1
refresh-IsSession_example =
    refresh-IsSession settings token logged_in pair refresh_done logged_in-IsReady lifetime_pos

owner-refresh_example : owner (refresh settings token logged_in).1 9 token ≡ none
unfolding ◌==◌ hex
owner-refresh_example =
    owner-refresh settings token logged_in pair refresh_done logged_in-IsReady lifetime_pos 9 token
      (omega (arith, logged_in-clock)) refl

change_done :
    (change_password settings (bytes "b") (bytes "secret") (bytes "new") logged_in).0 ≡ ok tt
unfolding within change_password get_password_hash update_password users_update bcrypt_hash
    bcrypt_check delete_user_refresh_tokens del_all redis_s_members redis_del save_refresh_token
    redis_set redis_s_add redis_expire the_user parse_id users_select only ◌==◌ ◌>>=◌ refresh_key
    user_tokens_key
change_done = refl

change_password_lem_example :
    let w' = (change_password settings (bytes "b") (bytes "secret") (bytes "new") logged_in).1 in
    ((r : UserRow) × In r (rows_of logged_in)
      × (memory.crypto.parse_uuid (bytes "b") ≡ some r.id)
      × (bcrypt_check (bytes "secret") r.password ≡ true))
    × IsRehashed (bytes "b") (bytes "new") (rows_of logged_in) (rows_of w')
    × IsSignedOut (bytes "b") w'
change_password_lem_example =
    change_password_lem settings (bytes "b") (bytes "secret") (bytes "new") logged_in lifetime
      logged_in-IsReady logged_in-IsIndexed change_done

pub bob_checked : (check_credentials settings (bytes "bob@x") (bytes "secret") town).0 ≡ ok bob_user
unfolding check_credentials get_user_by_email get_password_hash the_user parse_id users_select only
    bcrypt_check ◌==◌ ◌>>=◌ to_proto
bob_checked = refl

town-IsSound : IsSound settings town
unfolding refresh_lifetime
town-IsSound = record { ready = town-IsReady; indexed = town-IsIndexed }

-- Bob logs in, a second later refreshes with a token that is wrong, and logs out.
abbrev requests : List Request
requests =
    login (bytes "bob@x") (bytes "secret")
    ∷ wait 1_000_000_000
    ∷ renew (bytes "wrong")
    ∷ leave pair.refresh_token
    ∷ []

abbrev after : List Request → World memory → World memory
after [] w = w
after (r ∷ rs) w = after rs (run settings r w)

reached :
    (rs : List Request) (v : World memory)
    → Reaches settings town v
    → Reaches settings town (after rs v)
reached [] v h = h
reached (r ∷ rs) v h = reached rs (run settings r v) (next h r)

Reaches-IsSound_example : IsSound settings (after requests town)
Reaches-IsSound_example =
    Reaches-IsSound settings lifetime_pos (reached requests town start) town-IsSound

logout_all-Reaches_example :
    ((logout_all_devices settings (bytes "b") (after requests town)).0 ≡ ok tt)
    × IsSignedOut (bytes "b") (logout_all_devices settings (bytes "b") (after requests town)).1
logout_all-Reaches_example =
    logout_all-Reaches settings lifetime_pos (bytes "b") (reached requests town start) town-IsSound
