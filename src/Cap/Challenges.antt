-- ===== src/Cap/Challenges.antt =====
-- What becomes of a challenge that CreateChallenge of pkg/cap/cap.go stored.
use servora_iam.Prelude.{
  ℕ, ◌+◌, ◌*◌, ◌/◌, ◌<◌, ◌≡◌, refl, Bool, true, false, not, Option, none, some, List, Str, String,
  arith, ltb, nat_eq, length, if◌then◌else◌, inl, inr, ℤ, pos, negsuc,
}
use servora_iam.Errors.{ok, err, failure}
use servora_iam.Exec.{◌>>=◌, Result-cases}
use servora_iam.Platform.World.{Env, World, redis_set, redis_get_del}
use servora_iam.Data.RefreshTokens.Index.{elapse}
use servora_iam.Cap.{
  Codec, ChallengeRecord, ChallengeConfig, ChallengeParams, ChallengeResponse, challenge_key,
  random_hex, create_challenge, params_of, expires_ms_of, positive_int, refusal, refusal_of_record,
  all_solved, millisecond,
}
use servora_iam.Cap.OneTime.{kv-random_hex, clock-random_hex}

positive_int_pos : (default : ℕ) (n : ℤ) → 0 < default → 0 < positive_int default n
unfolding positive_int
positive_int_pos default (pos n) h = ground arith
positive_int_pos default (negsuc n) h = h

pub expires_ms_pos : (conf : Option ChallengeConfig) → 0 < expires_ms_of conf
unfolding expires_ms_of
expires_ms_pos none = omega arith
expires_ms_pos (some conf) = positive_int_pos 600_000 conf.expires_ms (omega arith)

-- A challenge that is still in the store has not passed the time that it names.
in_time :
    (now d e : ℕ)
    → d < e * millisecond
    → ltb (now / millisecond + e) ((now + d) / millisecond) ≡ false
in_time now d e h = ground arith

module _ ⦃e : Env⦄ where
  -- The answer to solutions of puzzles that are in time.
  pub verdict : (token : Str) (params : ChallengeParams) (solutions : List ℤ) → Option String
  verdict token params solutions =
      if not (nat_eq (length solutions) params.c)
      then some "Invalid solution count"
      else if all_solved token params 1 solutions
      then none
      else some "Invalid solution"

  module _ (json : Codec) (conf : Option ChallengeConfig) (w : World e) {resp : ChallengeResponse}
      (up : e.redis.up w.kv ≡ true) (created : (create_challenge json conf w).0 ≡ ok resp) where
    expires_at : resp.expires ≡ w.clock / millisecond + expires_ms_of conf
    unfolding create_challenge redis_set ◌>>=◌
    expires_at = elim (Result-cases (random_hex 25 w).0) [
      | inl (x, failed) ↦ absurd (ground arith)
      | inr (token, drawn) ↦ ground (arith, clock-random_hex 25 w)
    ]

    -- The store holds the record until its time has passed.
    found :
        (d : ℕ)
        → (redis_get_del (challenge_key resp.token) (elapse d (create_challenge json conf w).1)).0
          ≡ (if ltb d (expires_ms_of conf * millisecond)
              then ok (json.marshal (record { challenge = resp.challenge; expires = resp.expires }))
              else err failure)
    unfolding create_challenge redis_set redis_get_del ◌>>=◌
    found d = elim (Result-cases (random_hex 25 w).0) [
      | inl (x, failed) ↦ absurd (ground arith)
      | inr (token, drawn) ↦
          let v : World e = (random_hex 25 w).1 in
          let ttl = expires_ms_of conf * millisecond in
          let stored = json.marshal (record {
            challenge = params_of conf;
            expires = v.clock / millisecond + expires_ms_of conf;
          }) in
          let key = challenge_key token in
          let kv = (e.redis.set key stored ttl v.clock v.kv).1 in
          let up' : e.redis.up v.kv ≡ true = ground (arith, kv-random_hex 25 w) in
          let (set, up'') = e.redis.set_up key stored ttl v.clock v.kv up' in
          let lasting : 0 < ttl = omega (arith, expires_ms_pos conf) in
          ground (
            arith,
            e.redis.set_hit key stored ttl v.clock (v.clock + d) v.kv set lasting (omega arith),
            e.redis.get_del_up key (v.clock + d) kv up'',
            clock-random_hex 25 w,
          )
    ]

    judged :
        (solutions : List ℤ) (d : ℕ) (early : Bool)
        → ltb d (expires_ms_of conf * millisecond) ≡ early
        → refusal json resp.token solutions (w.clock + d) (
            if early
            then ok (json.marshal (record { challenge = resp.challenge; expires = resp.expires }))
            else err failure)
          ≡ (if early
              then verdict resp.token resp.challenge solutions
              else some "Challenge invalid or expired")
    unfolding refusal refusal_of_record verdict
    judged solutions d false late = refl
    judged solutions d true early =
        let r : ChallengeRecord = record { challenge = resp.challenge; expires = resp.expires } in
        let before : d < expires_ms_of conf * millisecond = ground arith in
        rw (json.unmarshal-marshal r, expires_at, in_time w.clock d (expires_ms_of conf) before)
          (ground arith)

    -- While Redis answers, solutions of a challenge that was created are judged by their number and
    -- their digests until the time of the challenge has passed, and are refused from then on.
    pub refusal-create :
        (solutions : List ℤ) (d : ℕ)
        → refusal json resp.token solutions
            (w.clock + d)
            (redis_get_del (challenge_key resp.token) (elapse d (create_challenge json conf w).1)).0
          ≡ (if ltb d (expires_ms_of conf * millisecond)
              then verdict resp.token resp.challenge solutions
              else some "Challenge invalid or expired")
    refusal-create solutions d =
        rw (found d) (judged solutions d (ltb d (expires_ms_of conf * millisecond)) refl)
