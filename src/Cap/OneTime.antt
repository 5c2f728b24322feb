-- ===== src/Cap/OneTime.antt =====
-- The redemption of a challenge of pkg/cap/cap.go.
use servora_iam.Prelude.{
  ap, ◌∙◌, ℕ, ◌/◌, ◌≡◌, ◌≢◌, refl, true, false, Option, none, some, List, Str, String, ◌==◌, arith,
  is_empty, ltb, length, Option-cases, Bool-cases, inl, inr, ℤ, bytes, ◌+◌, ◌++◌, [], ◌∷◌, decimal,
  zero, suc,
}
use servora_iam.Errors.{Error, Result, ok, err}
use servora_iam.Exec.{◌>>=◌, Result-cases}
use servora_iam.Platform.World.{Env, World, redis_set, redis_get_del, rand_read}
use servora_iam.Data.RefreshTokens.Index.{elapse}
use servora_iam.Cap.{
  ChallengeRecord, Codec, RedeemResponse, challenge_key, token_key, random_hex, refusal,
  refusal_of_record, refused, issue, redeem_body, redeem_challenge, all_solved, millisecond,
  hash_sha256, token_ttl, has_prefix, decimal_int, is_solution, ChallengeParams,
}
use servora_iam.Cap.Prng.{prng}

abbrev pub get_elem? {ℓ} : {A : Type ℓ} → List A → ℕ → Option A
get_elem? [] n = none
get_elem? (x ∷ xs) zero = some x
get_elem? (x ∷ xs) (suc n) = get_elem? xs n

challenge_key-ne-token_key : (t id hash : Str) → (token_key id hash == challenge_key t) ≡ false
unfolding token_key challenge_key ◌==◌
challenge_key-ne-token_key t id hash = refl

module _ ⦃e : Env⦄ where
  -- The loop looks at every solution, the one at i against puzzle index + i.
  all_solved_sound :
      (token : Str) (params : ChallengeParams) (index : ℕ) (solutions : List ℤ)
      → all_solved token params index solutions ≡ true
      → (i : ℕ) (x : ℤ) → get_elem? solutions i ≡ some x
      → let seed = token ++ decimal (i + index) in
        has_prefix
          (hash_sha256 (prng seed params.s ++ decimal_int x))
          (prng (seed ++ bytes "d") params.d)
        ≡ true
  unfolding all_solved is_solution
  all_solved_sound token params index [] all i x here = absurd (cc)
  all_solved_sound token params index (y ∷ ys) all zero x here = ground arith
  all_solved_sound token params index (y ∷ ys) all (suc i) x here =
      let shift : i + (index + 1) ≡ suc i + index = omega arith in
      rw shift at (all_solved_sound token params (index + 1) ys (ground arith) i x here)

  -- the record that the store holds for a challenge, as its text, at a time from now on
  abbrev pub pending : World e → ℕ → (token : Str) → Option Str
  pending w n t = (e.redis.slot w.kv (challenge_key t)).value n

  pub kv-random_hex : (n : ℕ) (w : World e) → (random_hex n w).1.kv ≡ w.kv
  unfolding random_hex rand_read ◌>>=◌
  kv-random_hex n w = ground arith

  pub clock-random_hex : (n : ℕ) (w : World e) → (random_hex n w).1.clock ≡ w.clock
  unfolding random_hex rand_read ◌>>=◌
  clock-random_hex n w = ground arith

  module _ (json : Codec) (token : Str) (solutions : List ℤ) (w : World e) where
    abbrev pub w_read : World e
    w_read = (redis_get_del (challenge_key token) w).1

    abbrev pub raw : Result Str
    raw = (redis_get_del (challenge_key token) w).0

    -- Issuing a token leaves the key of every challenge alone.
    issue-pending :
        (why : Option String) (v : World e) (n : ℕ)
        → pending (issue json why v).1 n token ≡ pending v n token
    unfolding issue redis_set ◌>>=◌
    issue-pending (some message) v n = refl
    issue-pending none v n = elim (Result-cases (random_hex 15 v).0) [
      | inl (x, failed) ↦ ground (arith, kv-random_hex 15 v)
      | inr (ver_token, drawn) ↦
          let v₁ : World e = (random_hex 15 v).1 in
          let v₂ : World e = (random_hex 8 v₁).1 in
          elim (Result-cases (random_hex 8 v₁).0) [
            | inl (x, failed) ↦ ground (arith, kv-random_hex 15 v, kv-random_hex 8 v₁)
            | inr (id, drawn') ↦ ground (
              arith,
              kv-random_hex 15 v,
              kv-random_hex 8 v₁,
              e.redis.set_frame (token_key id (hash_sha256 ver_token)) (bytes "1") token_ttl
                  v₂.clock v₂.kv (challenge_key token)
                  (challenge_key-ne-token_key token id (hash_sha256 ver_token)),
            )
          ]
    ]

    accepted-none :
        (why : Option String) (v : World e) {resp : RedeemResponse}
        → (issue json why v).0 ≡ ok resp
        → resp.success ≡ true
        → why ≡ none
    unfolding issue refused ◌>>=◌
    accepted-none (some message) v done success = ground arith
    accepted-none none v done success = refl

    -- What an accepted redemption has found and checked.
    pub record IsSolved : Type 0 where
      pub text : Str
      pub puzzles : ChallengeRecord
      pub stored : pending w w.clock token ≡ some text
      pub parsed : json.unmarshal text ≡ some puzzles
      pub in_time : ltb puzzles.expires (w.clock / millisecond) ≡ false
      pub complete : length solutions ≡ puzzles.challenge.c
      pub right :
          (i : ℕ) (x : ℤ)
          → get_elem? solutions i ≡ some x
          → let seed = token ++ decimal (i + 1) in
            has_prefix
              (hash_sha256 (prng seed puzzles.challenge.s ++ decimal_int x))
              (prng (seed ++ bytes "d") puzzles.challenge.d)
            ≡ true

    read_sound : {text : Str} → raw ≡ ok text → pending w w.clock token ≡ some text
    unfolding redis_get_del
    read_sound {text} h =
        e.redis.get_del_sound (challenge_key token) w.clock w.kv {v = text} (ground arith)

    read_spent : {text : Str} (n : ℕ) → raw ≡ ok text → pending w_read n token ≡ none
    unfolding redis_get_del
    read_spent {text} n h =
        e.redis.get_del_hit (challenge_key token) w.clock n w.kv {v = text} (ground arith)

    not_accepted : {x : Error} → raw ≡ err x → refusal json token solutions w.clock raw ≢ none
    unfolding refusal
    not_accepted missing = rw missing (λ h. cc)

    module _ {resp : RedeemResponse}
        (done : (redeem_challenge json token (some solutions) w).0 ≡ ok resp)
        (success : resp.success ≡ true) where
      pub accepted :
          (refusal json token solutions w.clock raw ≡ none)
          × ((redeem_challenge json token (some solutions) w).1
              ≡ (issue json (refusal json token solutions w.clock raw) w_read).1)
          × ((issue json (refusal json token solutions w.clock raw) w_read).0 ≡ ok resp)
      unfolding redeem_challenge redeem_body refused ◌>>=◌
      accepted = elim (Bool-cases (is_empty token)) [
        | inl empty ↦ absurd (ground arith)
        | inr given ↦
            let issued : (issue json (refusal json token solutions w.clock raw) w_read).0
                ≡ ok resp =
              ground arith in
            (
              accepted-none (refusal json token solutions w.clock raw) w_read issued success,
              ground arith,
              issued,
            )
      ]

      -- A RedeemChallenge that succeeds was given a token that the store held a record for, which had
      -- not expired, and as many solutions as the record has puzzles: for each, the hash of the salt
      -- of its puzzle with the solution begins with the target of that puzzle, where the salt and the
      -- target are drawn from the token and the number of the puzzle, from 1.
      pub redeem-IsSolved : IsSolved
      unfolding refusal refusal_of_record
      redeem-IsSolved =
          let (none_refused, _, _) = accepted in
          elim (Result-cases raw) [
            | inl (x, missing) ↦ absurd (ground arith)
            | inr (text, found) ↦ elim (Option-cases (json.unmarshal text)) [
              | inl broken ↦ absurd (ground arith)
              | inr (r, parsed) ↦ record {
                text = text;
                puzzles = r;
                stored = read_sound found;
                parsed = parsed;
                in_time = ground arith;
                complete = ground arith;
                right = all_solved_sound token r.challenge 1 solutions (ground arith);
              }
            ]
          ]

      pub spent :
          (n : ℕ) → pending (redeem_challenge json token (some solutions) w).1 n token ≡ none
      spent n = elim (Result-cases raw) [
        | inl (x, missing) ↦ absurd (not_accepted missing accepted.0)
        | inr (text, found) ↦
            let (_, same, _) = accepted in
            ap (λ (v : World e). pending v n token) same
            ∙ (issue-pending (refusal json token solutions w.clock raw) w_read n
                ∙ read_spent n found)
      ]

  nil_refused :
      (json : Codec) (token : Str) (w : World e) {resp : RedeemResponse}
      → (redeem_challenge json token none w).0 ≡ ok resp
      → resp.success ≡ false
  unfolding redeem_challenge refused
  nil_refused json token w {resp} done = ground arith

  module _ (json : Codec) (token : Str) (solutions : List ℤ) (w : World e) (d : ℕ) where
    -- A challenge that was redeemed with success is never redeemed with success again.
    pub redeem_twice :
        {resp again : RedeemResponse} (others : Option (List ℤ))
        → (redeem_challenge json token (some solutions) w).0 ≡ ok resp
        → resp.success ≡ true
        → (redeem_challenge json token others
            (elapse d (redeem_challenge json token (some solutions) w).1)).0
          ≡ ok again
        → again.success ≡ false
    redeem_twice {resp} {again} none done success twice = nil_refused json token _ twice
    redeem_twice {resp} {again} (some others) done success twice =
        let w' : World e = elapse d (redeem_challenge json token (some solutions) w).1 in
        elim (Bool-cases again.success) [
          | inl accepted_again ↦
              let s = redeem-IsSolved json token others w' twice accepted_again in
              absurd (cc (s.stored, spent json token solutions w done success w'.clock))
          | inr failed ↦ failed
        ]
