-- ===== src/Data/OidcStorage/AuthRequests.antt =====
-- Authorization requests and codes of app/iam/service/internal/data/oidc_storage.go: which are
-- found after each operation.
use servora_iam.Prelude.{
  ℕ, ◌+◌, ◌≤◌, ◌<◌, ◌≡◌, refl, ap, sym, ◌∙◌, true, false, Option, none, some, Str, bytes, ◌==◌,
  ==-append_left, ltb, if◌then◌else◌, arith, Option-cases, inl, inr,
}
use servora_iam.Errors.{ok, err, failure}
use servora_iam.Exec.{result_of_option, ◌>>=◌}
use servora_iam.Platform.Json.{Json}
use servora_iam.Platform.World.{Env, World, redis_set, redis_get, redis_del, new_uuid}
use servora_iam.Data.RefreshTokens.Index.{elapse}
use servora_iam.Data.OidcStorage.{
  OidcAuthRequest, auth_request_key, auth_code_key, auth_request_ttl, auth_code_ttl, challenge_of,
  new_auth_request, create_auth_request, auth_request_by_id, auth_request_by_code, save_auth_code,
  delete_auth_request,
}
use servora_iam.Data.OidcStorage.Codec.{AuthRequest, encode_auth_request, decode_auth_request}
use servora_iam.Data.OidcStorage.Codec.RoundTrip.{decode-encode_auth_request}

pub auth_code_key-ne-auth_request_key :
    (code id : Str) → (auth_code_key code == auth_request_key id) ≡ false
unfolding auth_code_key auth_request_key ◌==◌
auth_code_key-ne-auth_request_key code id = refl

auth_request_key-ne-auth_code_key :
    (id code : Str) → (auth_request_key id == auth_code_key code) ≡ false
unfolding auth_code_key auth_request_key ◌==◌
auth_request_key-ne-auth_code_key id code = refl

pub ==-auth_request_key : (s t : Str) → (auth_request_key s == auth_request_key t) ≡ (s == t)
unfolding auth_request_key
==-auth_request_key s t = ==-append_left (bytes "oidc:auth_request:") s t

module _ ⦃e : Env⦄ where
  pub redis_set-up :
      (key v : Str) (ttl : ℕ) (w : World e)
      → e.redis.up w.kv ≡ true
      → ((redis_set key v ttl w).0 ≡ ok tt) × (e.redis.up (redis_set key v ttl w).1.kv ≡ true)
  unfolding redis_set
  redis_set-up key v ttl w up =
      let answer = e.redis.set_up key v ttl w.clock w.kv up in (rw answer.0 refl, answer.1)

module _ ⦃e : Env⦄ (j : Json) where
  abbrev decoded : Option Str → Option AuthRequest
  decoded none = none
  decoded (some s) = decode_auth_request j s

  -- The request that an id stands for at a time from now on.
  abbrev pub request_at : World e → ℕ → (id : Str) → Option AuthRequest
  request_at w n id = decoded ((e.redis.slot w.kv (auth_request_key id)).value n)

  -- The id that a code stands for.
  abbrev pub code_at : World e → ℕ → (code : Str) → Option Str
  code_at w n code = (e.redis.slot w.kv (auth_code_key code)).value n

  -- A run of AuthRequestByID reads what the id stands for, and answers as the server does.
  pub by_id_lem :
      (id : Str) (w : World e)
      → e.redis.up w.kv ≡ true
      → ((auth_request_by_id j id w).0 ≡ result_of_option (request_at w w.clock id) failure)
        × (e.redis.up (auth_request_by_id j id w).1.kv ≡ true)
  unfolding auth_request_by_id redis_get ◌>>=◌
  by_id_lem id w up =
      let answer = e.redis.get_up (auth_request_key id) w.clock w.kv up in
      elim (Option-cases ((e.redis.slot w.kv (auth_request_key id)).value w.clock)) [
        | inl missing ↦ rw (answer.0, missing) (refl, answer.1)
        | inr (v, there) ↦ rw (answer.0, there) (refl, answer.1)
      ]

  -- What a request stands for that was written.
  pub request_at-set :
      (id v : Str) (n : ℕ) (w : World e)
      → (redis_set (auth_request_key id) v auth_request_ttl w).0 ≡ ok tt
      → w.clock ≤ n
      → request_at (redis_set (auth_request_key id) v auth_request_ttl w).1 n id
        ≡ (if ltb n (w.clock + auth_request_ttl) then decode_auth_request j v else none)
  unfolding redis_set
  request_at-set id v n w done le =
      let key = auth_request_key id in
      let flag : (e.redis.set key v auth_request_ttl w.clock w.kv).0 ≡ true = ground arith in
      ground (arith, e.redis.set_hit key v auth_request_ttl w.clock n w.kv flag (omega arith) le)

  -- While the server answers, a request that is created is found by its id, with what the client
  -- asked for and no user, exactly until its time has passed.
  pub by_id-create :
      (oidc_req : OidcAuthRequest) (user_id : Str) (w : World e)
      → e.redis.up w.kv ≡ true
      → (r : AuthRequest) × ((create_auth_request j oidc_req user_id w).0 ≡ ok r)
        × (r ≡ new_auth_request r.id oidc_req)
        × ((d : ℕ)
            → (auth_request_by_id j r.id (elapse d (create_auth_request j oidc_req user_id w).1)).0
              ≡ (if ltb d auth_request_ttl then ok r else err failure))
  unfolding create_auth_request new_uuid new_auth_request challenge_of auth_request_key redis_set
      ◌>>=◌
  by_id-create oidc_req user_id w up =
      let drawn = e.crypto.new_uuid w.source in
      let r : AuthRequest = new_auth_request (e.crypto.uuid_string drawn.0) oidc_req in
      let text : Str = j.marshal (encode_auth_request j r) in
      let w₁ : World e = record w { source = drawn.1 } in
      let (done, up₁) = redis_set-up (auth_request_key r.id) text auth_request_ttl w₁ up in
      let w₂ : World e = (redis_set (auth_request_key r.id) text auth_request_ttl w₁).1 in
      (
        r,
        rw done refl,
        refl,
        λ d.
            let found = (by_id_lem r.id (elapse d w₂) up₁).0 in
            let there = request_at-set r.id text (w.clock + d) w₁ done (omega arith) in
            let read = decode-encode_auth_request j r (omega arith) in
            rw done (rw found (rw there (rw read (ground arith)))),
      )

  -- What a step leaves alone that writes no request or code.
  pub request_at-save_auth_code :
      (id code : Str) (n : ℕ) (w : World e) (i : Str)
      → request_at (save_auth_code j id code w).1 n i ≡ request_at w n i
  unfolding save_auth_code redis_set
  request_at-save_auth_code id code n w i =
      ap (λ s. decoded (s.value n))
        (e.redis.set_frame (auth_code_key code) id auth_code_ttl w.clock w.kv (auth_request_key i)
          (auth_code_key-ne-auth_request_key code i))

  -- A run of AuthRequestByCode reads the request of the id that the code stands for.
  pub by_code_lem :
      (code : Str) (w : World e) {id : Str}
      → e.redis.up w.kv ≡ true
      → code_at w w.clock code ≡ some id
      → (auth_request_by_code j code w).0 ≡ result_of_option (request_at w w.clock id) failure
  unfolding auth_request_by_code redis_get ◌>>=◌
  by_code_lem code w {id} up known =
      let answer = e.redis.get_up (auth_code_key code) w.clock w.kv up in
      let kv = (e.redis.get (auth_code_key code) w.clock w.kv).1 in
      let frame = e.redis.get_frame (auth_code_key code) w.clock w.kv (auth_request_key id) in
      rw (answer.0, known)
        ((by_id_lem id (record w { kv = kv }) answer.1).0
          ∙ ap (λ s. result_of_option (decoded (s.value w.clock)) failure) frame)

  -- While the server answers, a code that was saved for a request finds it for as long as neither
  -- the code nor the request has expired.
  pub by_code-save :
      (id code : Str) (d : ℕ) (w : World e)
      → e.redis.up w.kv ≡ true
      → d < auth_code_ttl
      → (auth_request_by_code j code (elapse d (save_auth_code j id code w).1)).0
        ≡ result_of_option (request_at w (w.clock + d) id) failure
  unfolding save_auth_code redis_set
  by_code-save id code d w up soon =
      let key = auth_code_key code in
      let answer = e.redis.set_up key id auth_code_ttl w.clock w.kv up in
      let w₁ : World e = (save_auth_code j id code w).1 in
      let known : code_at w₁ (w.clock + d) code ≡ some id = ground (
        arith,
        e.redis.set_hit key id auth_code_ttl w.clock (w.clock + d) w.kv answer.0 (omega arith)
            (omega arith),
      ) in
      by_code_lem code (elapse d w₁) answer.1 known
      ∙ ap (λ r. result_of_option r failure) (request_at-save_auth_code id code (w.clock + d) w id)

  by_id-none :
      (id : Str) (w : World e)
      → (e.redis.slot w.kv (auth_request_key id)).value w.clock ≡ none
      → (auth_request_by_id j id w).0 ≡ err failure
  unfolding auth_request_by_id redis_get ◌>>=◌
  by_id-none id w gone = elim (Option-cases (e.redis.get (auth_request_key id) w.clock w.kv).0) [
    | inl missing ↦ rw missing refl
    | inr (v, found) ↦
        absurd (cc (gone, e.redis.get_sound (auth_request_key id) w.clock w.kv found))
  ]

  by_code-none :
      (id code : Str) (w : World e)
      → ((v : Str) → code_at w w.clock code ≡ some v → v ≡ id)
      → (e.redis.slot w.kv (auth_request_key id)).value w.clock ≡ none
      → (auth_request_by_code j code w).0 ≡ err failure
  unfolding auth_request_by_code redis_get ◌>>=◌
  by_code-none id code w only gone =
      elim (Option-cases (e.redis.get (auth_code_key code) w.clock w.kv).0) [
        | inl missing ↦ rw missing refl
        | inr (v, found) ↦
            let kv = (e.redis.get (auth_code_key code) w.clock w.kv).1 in
            let same = only v (e.redis.get_sound (auth_code_key code) w.clock w.kv found) in
            let frame = e.redis.get_frame (auth_code_key code) w.clock w.kv (auth_request_key id) in
            rw (found, same)
              (by_id-none id (record w { kv = kv }) (ap (λ s. s.value w.clock) frame ∙ gone))
      ]

  -- Once a request is deleted without an error, a code that stood for it finds nothing, however
  -- much later.
  pub by_code-delete :
      (id code : Str) (d : ℕ) (w : World e)
      → code_at w w.clock code ≡ some id
      → (delete_auth_request j id w).0 ≡ ok tt
      → (auth_request_by_code j code (elapse d (delete_auth_request j id w).1)).0 ≡ err failure
  unfolding delete_auth_request redis_del
  by_code-delete id code d w known done =
      let key = auth_request_key id in
      let flag : (e.redis.del key w.kv).0 ≡ true = ground arith in
      let w₁ : World e = (delete_auth_request j id w).1 in
      let frame : e.redis.slot w₁.kv (auth_code_key code) ≡ e.redis.slot w.kv (auth_code_key code) =
        e.redis.del_frame key w.kv (auth_code_key code)
          (auth_request_key-ne-auth_code_key id code) in
      by_code-none id code (elapse d w₁)
        (λ v found.
          let before : code_at w (w.clock + d) code ≡ some v =
            sym (ap (λ s. s.value (w.clock + d)) frame) ∙ found in
          let earlier =
            e.redis.value_earlier w.kv (auth_code_key code) w.clock (w.clock + d) (omega arith)
              before in
          ground (arith, earlier, known))
        (e.redis.del_value key (w.clock + d) w.kv flag)
