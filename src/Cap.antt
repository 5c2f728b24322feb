-- ===== src/Cap.antt =====
-- The captcha of pkg/cap/cap.go: a client solves puzzles, gets a token for the solution, and hands
-- it to the service.
pub mod Prng
pub mod Challenges
pub mod OneTime
pub mod Acceptance
use servora_iam.Prelude.{
  ◌≡◌, ℕ, ◌+◌, ◌*◌, ◌/◌, suc, Bool, true, false, not, ◌&&◌, ◌||◌, Option, none, some, List, [], ◌∷◌,
  ◌++◌, Str, String, ◌==◌, bytes, is_empty, ltb, nat_eq, if◌then◌else◌, length, decimal, ℤ, pos,
  negsuc,
}
use servora_iam.Errors.{Result, ok, err, failure}
use servora_iam.Exec.{pure, gets, attempt, ◌>>=◌, ◌>>◌}
use servora_iam.Platform.World.{Env, World, Action, redis_set, redis_get_del, rand_read, hex}
use mathlib.Core.Option
use Prng.{prng}

abbrev pub millisecond : ℕ
millisecond = 1_000_000

abbrev pub token_ttl : ℕ
token_ttl = 1_200_000 * millisecond

pub record ChallengeParams : Type 0 where
  pub c : ℕ
  pub s : ℕ
  pub d : ℕ

pub record ChallengeRecord : Type 0 where
  pub challenge : ChallengeParams
  pub expires : ℕ

-- The JSON of a record, written and read by encoding/json.
pub record Codec : Type 0 where
  pub marshal : ChallengeRecord → Str
  pub unmarshal : Str → Option ChallengeRecord
  pub unmarshal-marshal : (r : ChallengeRecord) → unmarshal (marshal r) ≡ some r

pub record ChallengeConfig : Type 0 where
  pub challenge_count : ℤ
  pub challenge_size : ℤ
  pub challenge_difficulty : ℤ
  pub expires_ms : ℤ

pub record ChallengeResponse : Type 0 where
  pub challenge : ChallengeParams
  pub token : Str
  pub expires : ℕ

pub record RedeemResponse : Type 0 where
  pub success : Bool
  pub message : String
  pub token : Str
  pub expires : ℕ

unfoldable pub challenge_key : Str → Str
challenge_key token = bytes "cap:challenge:" ++ token

unfoldable pub token_key : (id hash : Str) → Str
token_key id hash = bytes "cap:token:" ++ (id ++ (bytes ":" ++ hash))

-- `if conf.Field > 0 { value = conf.Field }`
unfoldable pub positive_int : ℕ → ℤ → ℕ
positive_int default (pos n) = if ltb 0 n then n else default
positive_int default (negsuc n) = default

unfoldable pub params_of : Option ChallengeConfig → ChallengeParams
unfolding positive_int
params_of none = record { c = 50; s = 32; d = 4 }
params_of (some conf) = record {
  c = positive_int 50 conf.challenge_count;
  s = positive_int 32 conf.challenge_size;
  d = positive_int 4 conf.challenge_difficulty;
}

unfoldable pub expires_ms_of : Option ChallengeConfig → ℕ
unfolding positive_int
expires_ms_of none = 600_000
expires_ms_of (some conf) = positive_int 600_000 conf.expires_ms

-- The verb %d on an int.
pub decimal_int : ℤ → Str
decimal_int (pos n) = decimal n
decimal_int (negsuc n) = bytes "-" ++ decimal (suc n)

-- strings.HasPrefix
unfoldable pub has_prefix : (s prefix : Str) → Bool
has_prefix s [] = true
has_prefix [] (y ∷ ys) = false
has_prefix (x ∷ xs) (y ∷ ys) = nat_eq x y && has_prefix xs ys

-- strings.SplitN(s, ":", 2), where the result has two parts.
unfoldable pub split_colon : Str → Option (Str × Str)
split_colon [] = none
split_colon (x ∷ xs) =
    let rest = Option.map (λ p. (x ∷ p.0, p.1)) (split_colon xs) in
    if nat_eq x b':' then some ([], xs) else rest

module _ ⦃e : Env⦄ where
  unfoldable pub random_hex : ℕ → Action Str
  random_hex byte_count = do b ← rand_read byte_count; pure (hex b)

  unfoldable pub hash_sha256 : Str → Str
  hash_sha256 s = hex (e.crypto.sha256 s)

  -- Whether the digest of one puzzle starts with its target.
  unfoldable pub is_solution :
      (token : Str) (params : ChallengeParams) (index : ℕ) (solution : ℤ) → Bool
  is_solution token params index solution =
      let seed = token ++ decimal index in
      let salt = prng seed params.s in
      let target = prng (seed ++ bytes "d") params.d in
      has_prefix (hash_sha256 (salt ++ decimal_int solution)) target

  -- The loop over the solutions, from an index.
  unfoldable pub all_solved : (token : Str) (params : ChallengeParams) (index : ℕ) → List ℤ → Bool
  all_solved token params index [] = true
  all_solved token params index (x ∷ xs) =
      is_solution token params index x && all_solved token params (index + 1) xs

  module _ (json : Codec) where
    unfoldable pub create_challenge : Option ChallengeConfig → Action ChallengeResponse
    create_challenge conf = do
      token ← random_hex 25
      now ← gets (λ (w : World e). w.clock)
      let expires = now / millisecond + expires_ms_of conf
      redis_set (challenge_key token)
          (json.marshal (record { challenge = params_of conf; expires = expires }))
          (expires_ms_of conf * millisecond)
      pure (record { challenge = params_of conf; token = token; expires = expires })

    -- Why a record is refused, if it is.
    unfoldable pub refusal_of_record :
        (token : Str) (solutions : List ℤ) (now : ℕ) → ChallengeRecord → Option String
    refusal_of_record token solutions now r =
        if ltb r.expires (now / millisecond)
        then some "Challenge invalid or expired"
        else if not (nat_eq (length solutions) r.challenge.c)
        then some "Invalid solution count"
        else if not (all_solved token r.challenge 1 solutions)
        then some "Invalid solution"
        else none

    -- Why what the store answers is refused, if it is.
    unfoldable pub refusal :
        (token : Str) (solutions : List ℤ) (now : ℕ) → Result Str → Option String
    refusal token solutions now (err x) = some "Challenge invalid or expired"
    refusal token solutions now (ok raw) = elim (json.unmarshal raw) [
      | none ↦ some "Challenge invalid or expired"
      | some r ↦ refusal_of_record token solutions now r
    ]

    unfoldable pub refused : String → RedeemResponse
    refused message = record { success = false; message = message; token = []; expires = 0 }

    -- The answer to solutions that are refused for a reason, or accepted.
    unfoldable pub issue : Option String → Action RedeemResponse
    issue (some message) = pure (refused message)
    issue none = do
      ver_token ← random_hex 15
      id ← random_hex 8
      now ← gets (λ (w : World e). w.clock)
      redis_set (token_key id (hash_sha256 ver_token)) (bytes "1") token_ttl
      pure (record {
        success = true;
        message = "";
        token = id ++ (bytes ":" ++ ver_token);
        expires = now / millisecond + token_ttl / millisecond;
      })

    unfoldable pub redeem_body : (token : Str) (solutions : List ℤ) → Action RedeemResponse
    redeem_body token solutions = do
      now ← gets (λ (w : World e). w.clock)
      raw ← attempt (redis_get_del (challenge_key token))
      issue (refusal token solutions now raw)

    -- `solutions` is none for a nil slice.
    unfoldable pub redeem_challenge : (token : Str) → Option (List ℤ) → Action RedeemResponse
    redeem_challenge token none = pure (refused "Invalid body")
    redeem_challenge token (some solutions) =
        if is_empty token then pure (refused "Invalid body") else redeem_body token solutions

  -- `err != nil || val == ""` makes the token invalid.
  unfoldable pub is_marked : Result Str → Bool
  is_marked (err x) = false
  is_marked (ok val) = not (is_empty val)

  unfoldable pub validate_parts : (id ver_token : Str) → Action Bool
  validate_parts id ver_token = do
    val ← attempt (redis_get_del (token_key id (hash_sha256 ver_token)))
    pure (is_marked val)

  unfoldable pub validate_split : Option (Str × Str) → Action Bool
  validate_split none = pure false
  validate_split (some (id, ver_token)) =
      if is_empty id || is_empty ver_token then pure false else validate_parts id ver_token

  unfoldable pub validate_token : (token : Str) → Action Bool
  validate_token token = if is_empty token then pure false else validate_split (split_colon token)
