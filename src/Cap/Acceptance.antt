-- ===== src/Cap/Acceptance.antt =====
-- The token of a redeemed challenge of pkg/cap/cap.go, as ValidateToken judges it.
use mathlib.Core.Path.{subst}
use servora_iam.Prelude.{
  ◌∙◌, sym, ℕ, suc, ◌+◌, ◌≡◌, refl, true, false, Option, none, some, List, [], ◌∷◌, Str, String,
  arith, is_empty, ltb, length, Option-cases, Bool-cases, inl, inr, ℤ, ◌++◌, bytes,
}
use servora_iam.Errors.{ok}
use servora_iam.Exec.{◌>>=◌, Result-cases}
use servora_iam.Platform.World.{Env, World, redis_set, redis_get_del, rand_read, hex}
use servora_iam.Data.RefreshTokens.Index.{elapse}
use servora_iam.Cap.{
  Codec, RedeemResponse, challenge_key, token_key, random_hex, hash_sha256, token_ttl, refusal,
  issue, redeem_challenge, is_marked, split_colon, validate_parts, validate_split, validate_token,
}
use servora_iam.Cap.OneTime.{w_read, raw, kv-random_hex, clock-random_hex, accepted}

-- Hexadecimal digits hold no colon, so a token splits where it was joined.
split_colon-hex :
    (bs : List ℕ) (rest : Str) → split_colon (hex bs ++ (b':' ∷ rest)) ≡ some (hex bs, rest)
unfolding split_colon hex
split_colon-hex [] rest = refl
split_colon-hex (b ∷ bs) rest = ground (arith, split_colon-hex bs rest)

module _ ⦃e : Env⦄ where
  -- A hexadecimal string is drawn.
  pub record IsDrawn (n : ℕ) (s : Str) : Type 0 where
    pub source : List ℕ
    pub is_hex : s ≡ hex source
    pub size : length source ≡ n

  random_hex-IsDrawn : (n : ℕ) (w : World e) {s : Str} → (random_hex n w).0 ≡ ok s → IsDrawn n s
  unfolding random_hex rand_read ◌>>=◌
  random_hex-IsDrawn n w {s} h = elim (Option-cases (e.crypto.read n w.source).0) [
    | inl failed ↦ absurd (ground arith)
    | inr (bs, drawn) ↦ record {
      source = bs;
      is_hex = ground arith;
      size = e.crypto.read_length n w.source drawn;
    }
  ]

  -- The token that was issued: its two parts are hexadecimal, and the store holds its key.
  pub record IsIssued (resp : RedeemResponse) (w w' : World e) : Type 0 where
    pub id : Str
    pub ver_token : Str
    pub id_drawn : IsDrawn 8 id
    pub ver_drawn : IsDrawn 15 ver_token
    pub token : resp.token ≡ id ++ (bytes ":" ++ ver_token)
    pub stored :
        (e.redis.set (token_key id (hash_sha256 ver_token)) (bytes "1") token_ttl w.clock w.kv).0
        ≡ true
    pub kv :
        w'.kv
        ≡ (e.redis.set (token_key id (hash_sha256 ver_token)) (bytes "1") token_ttl w.clock w.kv).1
    pub clock : w'.clock ≡ w.clock

  issue-IsIssued :
      (json : Codec) (why : Option String) (v : World e) {resp : RedeemResponse}
      → (issue json why v).0 ≡ ok resp
      → why ≡ none
      → IsIssued resp v (issue json why v).1
  unfolding issue redis_set ◌>>=◌
  issue-IsIssued json (some message) v {resp} done accepted = cc
  issue-IsIssued json none v {resp} done accepted =
      let v₁ : World e = (random_hex 15 v).1 in
      let v₂ : World e = (random_hex 8 v₁).1 in
      let kv : v₂.kv ≡ v.kv = kv-random_hex 8 v₁ ∙ kv-random_hex 15 v in
      let at : v₂.clock ≡ v.clock = clock-random_hex 8 v₁ ∙ clock-random_hex 15 v in
      elim (Result-cases (random_hex 15 v).0) [
        | inl (x, failed) ↦ absurd (ground arith)
        | inr (ver_token, drawn) ↦ elim (Result-cases (random_hex 8 v₁).0) [
          | inl (x, failed) ↦ absurd (ground arith)
          | inr (id, drawn') ↦ record {
            id = id;
            ver_token = ver_token;
            id_drawn = random_hex-IsDrawn 8 v₁ drawn';
            ver_drawn = random_hex-IsDrawn 15 v drawn;
            token = ground arith;
            stored = ground arith;
            kv = ground arith;
            clock = ground arith;
          }
        ]
      ]

  hex-not_empty : (n : ℕ) (bs : List ℕ) → length bs ≡ suc n → is_empty (hex bs) ≡ false
  unfolding hex
  hex-not_empty n [] h = absurd (omega arith)
  hex-not_empty n (b ∷ bs) h = refl

  not_empty-append : (s t : Str) → is_empty s ≡ false → is_empty (s ++ t) ≡ false
  not_empty-append [] t h = cc
  not_empty-append (x ∷ s) t h = refl

  -- A token that was issued leads to the look-up of its key.
  validate_issued :
      {id ver_token : Str} (w : World e)
      → IsDrawn 8 id
      → IsDrawn 15 ver_token
      → validate_token (id ++ (bytes ":" ++ ver_token)) w ≡ validate_parts id ver_token w
  unfolding validate_token validate_split
  validate_issued {id} {ver_token} w d v =
      let given : is_empty id ≡ false = rw d.is_hex (hex-not_empty 7 d.source d.size) in
      let given' : is_empty ver_token ≡ false = rw v.is_hex (hex-not_empty 14 v.source v.size) in
      let parts : split_colon (id ++ (bytes ":" ++ ver_token)) ≡ some (id, ver_token) =
        rw d.is_hex (split_colon-hex d.source ver_token) in
      rw (not_empty-append id (bytes ":" ++ ver_token) given, parts, given, given') refl

  module _ (json : Codec) (token : Str) (solutions : List ℤ) (w : World e) {resp : RedeemResponse}
      (up : e.redis.up w.kv ≡ true)
      (done : (redeem_challenge json token (some solutions) w).0 ≡ ok resp)
      (success : resp.success ≡ true) where
    up-read : e.redis.up (w_read json token solutions w).kv ≡ true
    unfolding redis_get_del
    up-read = (e.redis.get_del_up (challenge_key token) w.clock w.kv up).1

    clock-read : (w_read json token solutions w).clock ≡ w.clock
    unfolding redis_get_del
    clock-read = refl

    issued :
        IsIssued resp
          (w_read json token solutions w)
          (redeem_challenge json token (some solutions) w).1
    issued =
        let (fine, same, answer) = accepted json token solutions w done success in
        let v : World e = w_read json token solutions w in
        subst (IsIssued resp v) (sym same) (
          issue-IsIssued json (refusal json token solutions w.clock (raw json token solutions w)) v
            answer fine)

    -- While Redis answers, the token of a RedeemChallenge that succeeds is valid exactly until its
    -- time has passed.
    pub validate-redeem :
        (d : ℕ)
        → (validate_token resp.token
            (elapse d (redeem_challenge json token (some solutions) w).1)).0
          ≡ ok (ltb d token_ttl)
    unfolding validate_parts redis_get_del is_marked ◌>>=◌
    validate-redeem d =
        let i = issued in
        let w' : World e = (redeem_challenge json token (some solutions) w).1 in
        let v : World e = w_read json token solutions w in
        let key = token_key i.id (hash_sha256 i.ver_token) in
        let same : validate_token resp.token (elapse d w')
            ≡ validate_parts i.id i.ver_token (elapse d w') =
          rw i.token (validate_issued (elapse d w') i.id_drawn i.ver_drawn) in
        ground (
          arith,
          same,
          i.kv,
          i.clock,
          e.redis.set_hit key (bytes "1") token_ttl v.clock (v.clock + d) v.kv i.stored
              (omega arith) (omega arith),
          e.redis.set_up key (bytes "1") token_ttl v.clock v.kv up-read,
          e.redis.get_del_up key (v.clock + d)
              (e.redis.set key (bytes "1") token_ttl v.clock v.kv).1,
        )

  module _ (token : Str) (w : World e) (d : ℕ) where
    -- A token that was found valid is never valid again.
    pub validate_twice :
        (validate_token token w).0 ≡ ok true
        → (validate_token token (elapse d (validate_token token w).1)).0 ≡ ok false
    unfolding validate_token validate_split validate_parts redis_get_del is_marked ◌>>=◌
    validate_twice valid = elim (Bool-cases (is_empty token)) [
      | inl empty ↦ absurd (ground arith)
      | inr given ↦ elim (Option-cases (split_colon token)) [
        | inl whole ↦ absurd (ground arith)
        | inr ((id, ver_token), parts) ↦
            let key = token_key id (hash_sha256 ver_token) in
            elim (Option-cases (e.redis.get_del key w.clock w.kv).0) [
              | inl missing ↦ absurd (ground arith)
              | inr (val, found) ↦
                  let kv = (e.redis.get_del key w.clock w.kv).1 in
                  let gone = e.redis.get_del_hit key w.clock (w.clock + d) w.kv found in
                  elim (Option-cases (e.redis.get_del key (w.clock + d) kv).0) [
                    | inl missing ↦ ground arith
                    | inr (again, refound) ↦
                        absurd (cc (gone, e.redis.get_del_sound key (w.clock + d) kv refound))
                  ]
            ]
      ]
    ]
