-- ===== src/Tests/Tokens.antt =====
-- The theorems on refresh tokens and one-time tokens, at concrete inputs.
use servora_iam.Prelude.{◌≡◌, ◌≢◌, refl, some, [], bytes, arith, ◌==◌}
use servora_iam.Errors.{ok}
use servora_iam.Platform.World.{World, redis_set, redis_get_del}
use servora_iam.Data.Mapper.{UserProfile}
use servora_iam.Data.Otp.{otp_key, set_token, consume_token}
use servora_iam.Data.RefreshTokens.{delete_user_refresh_tokens}
use servora_iam.Data.RefreshTokens.Index.{owner}
use servora_iam.Data.RefreshTokens.Answers.{delete_user-Answers}
use servora_iam.Data.RefreshTokens.Revocation.{delete_user_revokes}
use servora_iam.Tests.Memory.{memory}
use servora_iam.Tests.Worlds.{
  town, token, lifetime, logged_in, logged_in-IsReady, logged_in-IsIndexed, logged_in-clock,
}

delete_user_revokes_example :
    owner (delete_user_refresh_tokens (bytes "b") logged_in).1 8 token ≢ some (bytes "b")
delete_user_revokes_example =
    delete_user_revokes lifetime (bytes "b") logged_in logged_in-IsIndexed
      (delete_user-Answers (bytes "b") logged_in logged_in-IsReady).0 8 token
      (omega (arith, logged_in-clock))

abbrev offered : World memory
offered = (set_token (bytes "p") (bytes "t") (bytes "b") 9 town).1

offered_once : (consume_token (bytes "p") (bytes "t") offered).0 ≡ ok (bytes "b")
unfolding consume_token set_token redis_set redis_get_del otp_key ◌==◌
offered_once = refl

abbrev profile : UserProfile
profile = record {
  name = bytes "Bob";
  given_name = [];
  family_name = [];
  nickname = [];
  picture = [];
  gender = [];
  birthdate = [];
  zoneinfo = bytes "UTC";
  locale = [];
}
