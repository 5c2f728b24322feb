-- ===== src/Oidc/Login/Completion.antt =====
-- The completion of an OIDC login by app/iam/service/internal/oidc/login.go, in what
-- app/iam/service/internal/data/oidc_storage.go then reads.
use servora_iam.Prelude.{
  ℕ, ◌+◌, ◌≤◌, ◌<◌, ◌≡◌, refl, ◌∙◌, true, false, ◌||◌, Option, none, some, ◌++◌, Str, bytes,
  is_empty, ◌==◌, ltb, if◌then◌else◌, arith, Option-cases, Bool-cases, inl, inr,
}
use servora_iam.Errors.{Result, ok, err}
use servora_iam.Exec.{◌>>=◌, Result-cases}
use servora_iam.Platform.Crypto.{UserClaims, Verdict, valid, expired, invalid}
use servora_iam.Platform.Json.{Json, Object, Value, lookup, unix_epoch, year_10000}
use servora_iam.Platform.Json
use servora_iam.Platform.World.{Env, World, redis_set, redis_get}
use servora_iam.Data.OidcStorage.{auth_request_key, auth_request_ttl}
use servora_iam.Data.OidcStorage.Codec.{AuthRequest, decode_auth_request}
use servora_iam.Data.OidcStorage.Codec.RoundTrip.{completed, read-completed}
use servora_iam.Data.OidcStorage.AuthRequests.{request_at, request_at-set}
use servora_iam.Oidc.Login.{
  Method, get, post, other, callback_url, complete_entries, login_subject, response_of,
  complete_oidc_request, complete_login, serve_login_complete,
}
use mathlib.Core.Path.{fun_ext}

abbrev pub completed_by : (user_id : Str) → (now : ℕ) → AuthRequest → AuthRequest
completed_by user_id now r = record r {
  user_id = user_id;
  auth_time = unix_epoch + now;
  is_done = true;
}

module _ (j : Json) where
  lookup-complete_entries :
      (user_id : Str) (now : ℕ) (o : Object) (k : Str)
      → lookup k (complete_entries j user_id now o)
        ≡ completed j (λ i. lookup i o) user_id (unix_epoch + now) k
  unfolding complete_entries lookup
  lookup-complete_entries user_id now o k = refl

  -- The text of a request, parsed, written over and printed, is that of the completed request.
  decode-complete_entries :
      (user_id : Str) (now : ℕ) (stored : Str) (o : Object) (r : AuthRequest)
      → unix_epoch + now < year_10000
      → j.unmarshal stored ≡ some o
      → decode_auth_request j stored ≡ some r
      → decode_auth_request j (j.marshal (complete_entries j user_id now o))
        ≡ some (completed_by user_id now r)
  unfolding decode_auth_request Json.◌>>=◌
  decode-complete_entries user_id now stored o r past parsed read =
      let (o', again, same) = j.unmarshal-marshal (complete_entries j user_id now o) in
      let all = λ (k : Str). same k ∙ lookup-complete_entries user_id now o k in
      rw again (
        rw (fun_ext all) (
          read-completed j (λ k. lookup k o) user_id (unix_epoch + now) r past (rw parsed at read)))

module _ ⦃e : Env⦄ (j : Json) where
  -- A login that is completed for a user: an object was stored for the id, and the object that is
  -- stored from now on, for as long as a request lasts, has the user, the time and the mark, and every
  -- other key as before.
  pub record IsCompleted (id user_id : Str) (w w' : World e) : Type 0 where
    pub named : is_empty user_id ≡ false
    pub clock : w'.clock ≡ w.clock
    pub old_text : Str
    pub old : Object
    pub new_text : Str
    pub new : Object
    pub there : (e.redis.slot w.kv (auth_request_key id)).value w.clock ≡ some old_text
    pub parsed : j.unmarshal old_text ≡ some old
    pub written :
        (n : ℕ)
        → w.clock ≤ n
        → (e.redis.slot w'.kv (auth_request_key id)).value n
          ≡ (if ltb n (w.clock + auth_request_ttl) then some new_text else none)
    pub reads : j.unmarshal new_text ≡ some new
    pub filled :
        (k : Str) → lookup k new ≡ completed j (λ i. lookup i old) user_id (unix_epoch + w.clock) k
    pub request :
        (r : AuthRequest) (n : ℕ)
        → w.clock ≤ n
        → request_at j w w.clock id ≡ some r
        → request_at j w' n id ≡ (
            if ltb n (w.clock + auth_request_ttl)
            then some (completed_by user_id w.clock r)
            else none)
    pub others :
        (key : Str)
        → (auth_request_key id == key) ≡ false
        → e.redis.slot w'.kv key ≡ e.redis.slot w.kv key

  -- The request was read, and is written over.
  rewritten-IsCompleted :
      (id user_id stored : Str) (o : Object) (w : World e)
      → is_empty user_id ≡ false
      → unix_epoch + w.clock < year_10000
      → (e.redis.get (auth_request_key id) w.clock w.kv).0 ≡ some stored
      → j.unmarshal stored ≡ some o
      → let w₁ : World e = (redis_get (auth_request_key id) w).1 in
        let text : Str = j.marshal (complete_entries j user_id w.clock o) in
        (redis_set (auth_request_key id) text auth_request_ttl w₁).0 ≡ ok tt
        → IsCompleted id user_id w (redis_set (auth_request_key id) text auth_request_ttl w₁).1
  unfolding redis_get redis_set
  rewritten-IsCompleted id user_id stored o w named past found parsed saved =
      let key = auth_request_key id in
      let w₁ : World e = (redis_get key w).1 in
      let text : Str = j.marshal (complete_entries j user_id w.clock o) in
      let there = e.redis.get_sound key w.clock w.kv found in
      let (o', again, same) = j.unmarshal-marshal (complete_entries j user_id w.clock o) in
      record {
        named = named;
        clock = refl;
        old_text = stored;
        old = o;
        new_text = text;
        new = o';
        there = there;
        parsed = parsed;
        written = λ n le.
            e.redis.set_hit key text auth_request_ttl w.clock n w₁.kv (ground arith) (omega arith)
              le;
        reads = again;
        filled = λ k. same k ∙ lookup-complete_entries j user_id w.clock o k;
        request = λ r n le held. rw (request_at-set j id text n w₁ saved le) (
            rw (decode-complete_entries j user_id w.clock stored o r past parsed (rw there at held))
              refl);
        others = λ other apart.
            e.redis.set_frame key text auth_request_ttl w.clock w₁.kv other apart
            ∙ e.redis.get_frame key w.clock w.kv other;
      }

  complete_oidc_request-IsCompleted :
      (id user_id : Str) (w : World e) {url : Str}
      → unix_epoch + w.clock < year_10000
      → (complete_oidc_request j id user_id w).0 ≡ ok url
      → IsCompleted id user_id w (complete_oidc_request j id user_id w).1
  unfolding complete_oidc_request redis_get ◌>>=◌
  complete_oidc_request-IsCompleted id user_id w past done =
      let key = auth_request_key id in
      let w₁ : World e = (redis_get key w).1 in
      elim (Bool-cases (is_empty id || is_empty user_id)) [
        | inl missing ↦ absurd (ground arith)
        | inr present ↦ elim (Option-cases (e.redis.get key w.clock w.kv).0) [
          | inl missing ↦ absurd (ground arith)
          | inr (stored, found) ↦ elim (Option-cases (j.unmarshal stored)) [
            | inl bad ↦ absurd (ground arith)
            | inr (o, parsed) ↦
                let text : Str = j.marshal (complete_entries j user_id w.clock o) in
                elim (Result-cases (redis_set key text auth_request_ttl w₁).0) [
                  | inl (x, failed) ↦ absurd (ground arith)
                  | inr (_, saved) ↦
                      rw (present, found, parsed, saved)
                        (rewritten-IsCompleted id user_id stored o w (ground arith) past found
                          parsed saved)
                ]
          ]
        ]
      ]

  login_subject-eq-ok :
      (v : Verdict) {user_id : Str}
      → login_subject v ≡ ok user_id
      → (c : UserClaims) × (v ≡ valid c) × (c.subject ≡ user_id)
  unfolding login_subject
  login_subject-eq-ok (valid c) h = (c, refl, ground arith)
  login_subject-eq-ok expired h = absurd (cc)
  login_subject-eq-ok invalid h = absurd (cc)

  response_of-callback :
      (r : Result Str) {url : Str} → response_of r ≡ callback_url url → r ≡ ok url
  unfolding response_of
  response_of-callback (ok u) h = ground arith
  response_of-callback (err x) h = absurd (cc)

  complete_login-IsCompleted :
      (id token : Str) (w : World e) {url : Str}
      → unix_epoch + w.clock < year_10000
      → (complete_login j (some (id, token)) w).0 ≡ ok url
      → (c : UserClaims) × (e.jwt.verify token w.clock ≡ valid c)
        × IsCompleted id c.subject w (complete_login j (some (id, token)) w).1
  unfolding complete_login ◌>>=◌
  complete_login-IsCompleted id token w past done =
      elim (Bool-cases (is_empty id || is_empty token)) [
        | inl missing ↦ absurd (ground arith)
        | inr present ↦ elim (Result-cases (login_subject (e.jwt.verify token w.clock))) [
          | inl (x, refused) ↦ absurd (ground arith)
          | inr (user_id, accepted) ↦
              let (c, verdict, same) = login_subject-eq-ok (e.jwt.verify token w.clock) accepted in
              (
                c,
                verdict,
                rw (present, accepted, same)
                    (complete_oidc_request-IsCompleted id user_id w past
                      (rw (present, accepted) at done)),
              )
        ]
      ]

  -- Before the year 10000, a login that is answered with a callback URL was posted with an id for
  -- which a JSON object was stored and with a token that the verifier accepts; the object that is
  -- stored from then on, for as long as a request lasts, has the subject of that token as its user,
  -- the time, and the mark that it is done, and every other entry as before, so that a request that
  -- was stored there is read as completed; no other key of Redis changes.
  pub serve_login_complete-callback :
      (m : Method) (body : Option (Str × Str)) (w : World e) {url : Str}
      → unix_epoch + w.clock < year_10000
      → (serve_login_complete j m body w).0 ≡ callback_url url
      → (id : Str) × (token : Str) × (c : UserClaims) × (body ≡ some (id, token))
        × (e.jwt.verify token w.clock ≡ valid c)
        × IsCompleted id c.subject w (serve_login_complete j m body w).1
  unfolding serve_login_complete complete_login response_of ◌>>=◌
  serve_login_complete-callback get body w past h = absurd (cc)
  serve_login_complete-callback other body w past h = absurd (cc)
  serve_login_complete-callback post none w past h = absurd (cc)
  serve_login_complete-callback post (some (id, token)) w past h =
      let (c, verdict, completed) =
        complete_login-IsCompleted id token w past (response_of-callback _ h) in
      (id, token, c, refl, verdict, completed)

  request_at-eq-some :
      (id : Str) (r : AuthRequest) (w : World e)
      → request_at j w w.clock id ≡ some r
      → (stored : Str) × (o : Object) × ((e.redis.slot w.kv (auth_request_key id)).value w.clock
          ≡ some stored)
        × (j.unmarshal stored ≡ some o)
  unfolding decode_auth_request Json.◌>>=◌
  request_at-eq-some id r w held =
      elim (Option-cases ((e.redis.slot w.kv (auth_request_key id)).value w.clock)) [
        | inl missing ↦ absurd (cc (rw missing at held))
        | inr (stored, there) ↦ elim (Option-cases (j.unmarshal stored)) [
          | inl bad ↦ absurd (cc (rw (there, bad) at held))
          | inr (o, parsed) ↦ (stored, o, there, parsed)
        ]
      ]

  -- While Redis answers, a login that is posted with the id of a request and a token of a user is
  -- answered with the callback URL of the request.
  pub serve_login_complete_done :
      (id token : Str) (c : UserClaims) (r : AuthRequest) (w : World e)
      → e.redis.up w.kv ≡ true
      → is_empty id ≡ false
      → is_empty token ≡ false
      → is_empty c.subject ≡ false
      → e.jwt.verify token w.clock ≡ valid c
      → request_at j w w.clock id ≡ some r
      → (serve_login_complete j post (some (id, token)) w).0
        ≡ callback_url (bytes "/authorize/callback?id=" ++ id)
  unfolding serve_login_complete complete_login complete_oidc_request login_subject response_of
      redis_get redis_set ◌>>=◌
  serve_login_complete_done id token c r w up some_id some_token some_subject verdict held =
      let key = auth_request_key id in
      let (stored, o, there, parsed) = request_at-eq-some id r w held in
      let found = e.redis.get_up key w.clock w.kv up in
      let text : Str = j.marshal (complete_entries j c.subject w.clock o) in
      let saved = e.redis.set_up key text auth_request_ttl w.clock (redis_get key w).1.kv found.1 in
      rw (some_id, some_token, verdict, some_subject, some_subject, found.0, there, parsed, saved.0)
        refl
