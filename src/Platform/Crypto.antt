-- ===== src/Platform/Crypto.antt =====
-- Randomness, password hashes, digests and tokens that the service takes from other packages:
-- crypto/rand, golang.org/x/crypto/bcrypt, crypto/sha256, github.com/google/uuid, and the signer
-- and verifier of github.com/Servora-Kit/servora/security/jwt.
use servora_iam.Prelude.{ℕ, ◌≡◌, Bool, true, Option, some, List, Str, length, ltb, if◌then◌else◌}

pub record Crypto : Type 1 where
  pub Source : Type 0
  -- rand.Read of so many bytes
  pub read : ℕ → Source → Option (List ℕ) × Source
  -- uuid.NewV7; a UUID is its 16 bytes
  pub new_uuid : Source → Str × Source
  -- uuid.Parse and (uuid.UUID).String
  pub parse_uuid : Str → Option Str
  pub uuid_string : Str → Str
  -- bcrypt.GenerateFromPassword at cost 12, and bcrypt.CompareHashAndPassword
  pub bcrypt_generate : (password : Str) → Source → Option Str × Source
  pub bcrypt_compare : (hash password : Str) → Bool
  -- sha256.Sum256
  pub sha256 : Str → List ℕ
  pub read_length : (n : ℕ) (s : Source) {bs : List ℕ} → (read n s).0 ≡ some bs → length bs ≡ n
  pub parse-uuid_string : (u : Str) → parse_uuid (uuid_string u) ≡ some u
  pub compare-generate :
      (password : Str) (s : Source) {hash : Str}
      → (bcrypt_generate password s).0 ≡ some hash
      → bcrypt_compare hash password ≡ true

-- biz.UserClaims, with the registered claims that the service sets.
pub record UserClaims : Type 0 where
  pub id : Str
  pub username : Str
  pub role : Str
  pub nonce : Str
  pub subject : Str
  pub audience : Str
  pub expires_at : ℕ
  pub issued_at : ℕ
  pub issuer : Str

pub data Verdict : Type 0 where
  valid : UserClaims → Verdict
  expired invalid : Verdict

pub record Jwt : Type 0 where
  pub sign : UserClaims → Option Str
  pub verify : (token : Str) (now : ℕ) → Verdict
  -- jwt.NewNumericDate, which drops the fraction of a second
  pub numeric_date : ℕ → ℕ
  pub verify-sign :
      (c : UserClaims) (now : ℕ) {token : Str}
      → sign c ≡ some token
      → verify token now ≡ (if ltb now c.expires_at then valid c else expired)
