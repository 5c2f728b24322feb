-- ===== src/Tests/Captcha.antt =====
-- The theorems on the captcha, at concrete inputs.
use servora_iam.Prelude.{
  ℕ, ◌≡◌, refl, true, false, Option, none, some, List, [], ◌∷◌, ◌++◌, bytes, ◌==◌, replicate, ltb,
  pos,
}
use servora_iam.Errors.{ok}
use servora_iam.Exec.{◌>>=◌}
use servora_iam.Platform.World.{World, redis_set, redis_get_del, rand_read, hex}
use servora_iam.Data.RefreshTokens.Index.{elapse}
use servora_iam.Cap.{
  Codec, ChallengeRecord, ChallengeResponse, RedeemResponse, challenge_key, refused, token_key,
  random_hex, hash_sha256, create_challenge, expires_ms_of, params_of, refusal, refusal_of_record,
  issue, redeem_body, redeem_challenge, all_solved, is_solution, has_prefix, token_ttl,
  validate_token, is_marked, validate_parts, validate_split, split_colon,
}
use servora_iam.Cap.Prng.{prng}
use servora_iam.Cap.OneTime.{IsSolved, redeem-IsSolved}
use servora_iam.Cap.Acceptance.{validate-redeem}
use servora_iam.Tests.Memory.{memory}
use servora_iam.Tests.Worlds.{town}

-- A record as four numbers.
abbrev read_record : List ℕ → Option ChallengeRecord
read_record (c ∷ s ∷ d ∷ x ∷ []) =
    some (record { challenge = record { c = c; s = s; d = d }; expires = x })
read_record xs = none

abbrev json : Codec
json = record {
  marshal = λ r. r.challenge.c ∷ r.challenge.s ∷ r.challenge.d ∷ r.expires ∷ [];
  unmarshal = read_record;
  unmarshal-marshal = λ r. refl;
}

abbrev new_challenge : ChallengeResponse
new_challenge = record {
  challenge = record { c = 50; s = 32; d = 4 };
  token = hex (replicate 25 0);
  expires = 600_000;
}

create_done : (create_challenge json none town).0 ≡ ok new_challenge
unfolding create_challenge random_hex rand_read redis_set params_of expires_ms_of ◌>>=◌
create_done = refl

-- One puzzle without a target.
abbrev easy : World memory
easy = (redis_set (challenge_key (bytes "t")) (1 ∷ 2 ∷ 0 ∷ 9 ∷ []) 60 town).1

abbrev answer : RedeemResponse
answer = record {
  success = true;
  message = "";
  token = hex (replicate 8 1) ++ (bytes ":" ++ hex (replicate 15 0));
  expires = 1_200_000;
}

redeem_done : (redeem_challenge json (bytes "t") (some (pos 5 ∷ [])) easy).0 ≡ ok answer
unfolding redeem_challenge redeem_body refusal refusal_of_record all_solved is_solution has_prefix
    issue random_hex rand_read redis_set redis_get_del challenge_key prng ◌==◌ ◌>>=◌
redeem_done = refl

redeem-IsSolved_example : IsSolved json (bytes "t") (pos 5 ∷ []) easy
redeem-IsSolved_example = redeem-IsSolved json (bytes "t") (pos 5 ∷ []) easy redeem_done refl

abbrev refusal_answer : RedeemResponse
refusal_answer = record {
  success = false;
  message = "Challenge invalid or expired";
  token = [];
  expires = 0;
}

redeem_again :
    (redeem_challenge json
      (bytes "t")
      (some [])
      (elapse 1 (redeem_challenge json (bytes "t") (some (pos 5 ∷ [])) easy).1)).0
    ≡ ok refusal_answer
unfolding redeem_challenge redeem_body refusal refusal_of_record all_solved is_solution has_prefix
    issue random_hex rand_read redis_set redis_get_del challenge_key prng ◌==◌ ◌>>=◌ token_key
    refused
redeem_again = refl

validate-redeem_example :
    (validate_token answer.token
      (elapse 7 (redeem_challenge json (bytes "t") (some (pos 5 ∷ [])) easy).1)).0
    ≡ ok (ltb 7 token_ttl)
validate-redeem_example = validate-redeem json (bytes "t") (pos 5 ∷ []) easy refl redeem_done refl 7

abbrev token_world : World memory
token_world = (redis_set (token_key (bytes "a") (hash_sha256 (bytes "b"))) (bytes "1") 60 town).1

validate_once : (validate_token (bytes "a:b") token_world).0 ≡ ok true
unfolding validate_token validate_split validate_parts split_colon is_marked redis_set redis_get_del
    hash_sha256 hex token_key ◌==◌ ◌>>=◌
validate_once = refl
