-- ===== src/Tests/Worlds.antt =====
-- The data of the tests.
use servora_iam.Prelude.{
  here, there, ℕ, ◌≡◌, refl, true, false, none, [], ◌∷◌, Str, bytes, arith, ◌==◌,
}
use servora_iam.Errors.{ok}
use servora_iam.Data.AuthnRepo.Queries.{IsKeyed}
use servora_iam.Platform.Rows.{UserRow}
use servora_iam.Platform.World.{World, redis_set, redis_s_add, redis_expire}
use servora_iam.Exec.{◌>>=◌}
use servora_iam.Data.RefreshTokens.{refresh_key, user_tokens_key, save_refresh_token}
use servora_iam.Data.RefreshTokens.Index.{IsIndexed, save_refresh_token-IsIndexed}
use servora_iam.Data.RefreshTokens.Answers.{save-Answers}
use servora_iam.Data.RefreshTokens.Ready.{IsReady}
use servora_iam.Biz.Config.{Config}
use servora_iam.Tests.Memory.{memory, blank}

abbrev pub bob : UserRow
bob = record {
  id = bytes "b";
  username = bytes "bob";
  email = bytes "bob@x";
  password = 1 ∷ bytes "secret";
  phone = [];
  phone_verified = false;
  role = bytes "user";
  status = bytes "active";
  email_verified = true;
  email_verified_at = none;
  profile = none;
  deleted_at = none;
}

abbrev pub carol : UserRow
carol = record bob {
  id = bytes "c";
  username = bytes "carol";
  email = bytes "carol@x";
  email_verified = false;
}

abbrev pub settings : Config
settings = record {
  audience = [];
  issuer = [];
  access_expire = 60;
  refresh_expire = 3600;
  mail = none;
}

abbrev pub lifetime : ℕ
lifetime = 3_600_000_000_000

-- Two users, and no token.
abbrev pub town : World memory
town = record blank { users = bob ∷ carol ∷ []; clock = 5 }

pub town-IsReady : IsReady town
town-IsReady = record { up = refl; sets = λ u n le. refl }

pub town-IsIndexed : IsIndexed lifetime town
town-IsIndexed = record { listed = λ t u n le live. cc; bounded = λ t u n le live. cc }

-- Bob has a refresh token.
abbrev pub token : Str
token = bytes "t"

abbrev pub logged_in : World memory
logged_in = (save_refresh_token (bytes "b") token lifetime town).1

pub saved : (save_refresh_token (bytes "b") token lifetime town).0 ≡ ok tt
saved = (save-Answers (bytes "b") token lifetime town town-IsReady).0

pub logged_in-IsReady : IsReady logged_in
logged_in-IsReady = (save-Answers (bytes "b") token lifetime town town-IsReady).1

pub logged_in-IsIndexed : IsIndexed lifetime logged_in
logged_in-IsIndexed =
    save_refresh_token-IsIndexed lifetime (bytes "b") token town (omega arith) saved town-IsIndexed

pub logged_in-clock : logged_in.clock ≡ 5
unfolding save_refresh_token redis_set redis_s_add redis_expire ◌>>=◌ ◌==◌ refresh_key
    user_tokens_key
logged_in-clock = refl

pub town-IsKeyed : IsKeyed (bob ∷ carol ∷ [])
unfolding ◌==◌
town-IsKeyed r (here e) = rw e refl
town-IsKeyed r (there (here e)) = rw e refl
town-IsKeyed r (there (there i)) = elim i [ ]
