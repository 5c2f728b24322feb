-- ===== src/Data/RefreshTokens/Keys.antt =====
-- The keys of app/iam/service/internal/data/authn.go, and when two are the same.
use servora_iam.Prelude.{◌≡◌, refl, false, Str, ◌==◌, ==-append_left, bytes}
use servora_iam.Data.RefreshTokens.{refresh_key, user_tokens_key}

pub ==-refresh_key : (t u : Str) → (refresh_key t == refresh_key u) ≡ (t == u)
unfolding refresh_key
==-refresh_key t u = ==-append_left (bytes "refresh_token:") t u

pub ==-user_tokens_key : (t u : Str) → (user_tokens_key t == user_tokens_key u) ≡ (t == u)
unfolding user_tokens_key
==-user_tokens_key t u = ==-append_left (bytes "user_tokens:") t u

pub refresh_key-ne-user_tokens_key : (t u : Str) → (refresh_key t == user_tokens_key u) ≡ false
unfolding refresh_key user_tokens_key ◌==◌
refresh_key-ne-user_tokens_key t u = refl

pub user_tokens_key-ne-refresh_key : (t u : Str) → (user_tokens_key u == refresh_key t) ≡ false
unfolding refresh_key user_tokens_key ◌==◌
user_tokens_key-ne-refresh_key t u = refl
