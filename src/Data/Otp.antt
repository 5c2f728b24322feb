-- ===== src/Data/Otp.antt =====
-- One-time tokens in Redis: app/iam/service/internal/data/otp.go.
pub mod OneTime
use servora_iam.Prelude.{ℕ, ◌++◌, Str, bytes}
use servora_iam.Errors.{failure}
use servora_iam.Exec.{on_error}
use servora_iam.Platform.World.{Env, Action, redis_set, redis_get_del}

-- fmt.Sprintf("iam:%s:%s", purpose, hashedToken)
unfoldable pub otp_key : (purpose hashed_token : Str) → Str
otp_key purpose hashed_token = bytes "iam:" ++ (purpose ++ (bytes ":" ++ hashed_token))

module _ ⦃e : Env⦄ where
  unfoldable pub set_token : (purpose hashed_token user_id : Str) (ttl : ℕ) → Action Unit
  set_token purpose hashed_token user_id ttl = redis_set (otp_key purpose hashed_token) user_id ttl

  unfoldable pub consume_token : (purpose hashed_token : Str) → Action Str
  consume_token purpose hashed_token =
      on_error (λ _. failure) (redis_get_del (otp_key purpose hashed_token))
