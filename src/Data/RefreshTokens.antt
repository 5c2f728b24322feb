-- ===== src/Data/RefreshTokens.antt =====
-- The refresh tokens in Redis: app/iam/service/internal/data/authn.go. Each token has a key that
-- holds its user, and each user has a set of tokens.
pub mod Keys
pub mod Loops
pub mod Index
pub mod Deletion
pub mod Frames
pub mod Revocation
pub mod Ready
pub mod Answers
pub mod Upkeep
pub mod Sessions
use servora_iam.Prelude.{ℕ, ◌++◌, List, [], ◌∷◌, Str, bytes, ◌==◌, if◌then◌else◌}
use servora_iam.Errors.{Error, Result, ok, err}
use servora_iam.Exec.{pure, attempt, ◌>>=◌, ◌>>◌}
use servora_iam.Platform.World.{
  Env, Action, redis_set, redis_get, redis_del, redis_s_add, redis_s_members, redis_expire,
}

-- fmt.Sprintf("refresh_token:%s", token)
unfoldable pub refresh_key : Str → Str
refresh_key token = bytes "refresh_token:" ++ token

-- fmt.Sprintf("user_tokens:%s", userID)
unfoldable pub user_tokens_key : Str → Str
user_tokens_key user_id = bytes "user_tokens:" ++ user_id

module _ ⦃e : Env⦄ where
  unfoldable pub save_refresh_token : (user_id token : Str) (expiration : ℕ) → Action Unit
  save_refresh_token user_id token expiration = do
    redis_set (refresh_key token) user_id expiration
    redis_s_add (user_tokens_key user_id) token
    redis_expire (user_tokens_key user_id) expiration

  unfoldable pub get_refresh_token : (token : Str) → Action Str
  get_refresh_token token = redis_get (refresh_key token)

  -- `for _, t := range tokens { if t != token { SAdd } }`
  unfoldable pub re_add : (key token : Str) → List Str → Action Unit
  re_add key token [] = pure tt
  re_add key token (t ∷ ts) =
      let rest = re_add key token ts in if t == token then rest else redis_s_add key t >> rest

  -- The rest of DeleteRefreshToken, by the result of the look-up.
  unfoldable pub delete_found : (token : Str) → Result Str → Action Unit
  delete_found token (err x) = pure tt
  delete_found token (ok user_id) = do
    redis_del (refresh_key token)
    tokens ← redis_s_members (user_tokens_key user_id)
    redis_del (user_tokens_key user_id)
    re_add (user_tokens_key user_id) token tokens

  unfoldable pub delete_refresh_token : (token : Str) → Action Unit
  delete_refresh_token token = do
    found ← attempt (get_refresh_token token)
    delete_found token found

  -- `for _, token := range tokens { Del }`
  unfoldable pub del_all : List Str → Action Unit
  del_all [] = pure tt
  del_all (t ∷ ts) = redis_del (refresh_key t) >> del_all ts

  unfoldable pub delete_user_refresh_tokens : (user_id : Str) → Action Unit
  delete_user_refresh_tokens user_id = do
    tokens ← redis_s_members (user_tokens_key user_id)
    del_all tokens
    redis_del (user_tokens_key user_id)
