-- ===== src/Data/RefreshTokens/Sessions.antt =====
-- The refresh tokens of app/iam/service/internal/data/authn.go without the keys and sets of Redis: a
-- map from tokens to their users, with the times at which they end, and what was issued to whom.
pub mod Tracking
pub mod Refinement
use servora_iam.Prelude.{
  ℕ, ◌+◌, ◌≤◌, ◌<◌, ◌≡◌, ◌≢◌, ◌⊎◌, Bool, true, ◌&&◌, ◌||◌, Option, none, some, List, [], ◌∷◌, Str,
  ◌==◌, ltb, if◌then◌else◌,
}
use servora_iam.Errors.{Result, ok, err}
use servora_iam.Platform.World.{Env, World}
use servora_iam.Data.RefreshTokens.{
  save_refresh_token, get_refresh_token, delete_refresh_token, delete_user_refresh_tokens,
}
use servora_iam.Data.RefreshTokens.Index.{elapse}

-- The user of each token and the time at which it ends, and which tokens were ever saved for whom.
pub record Sessions : Type 0 where
  pub held : Str → Option (Str × ℕ)
  pub issued : (user_id token : Str) → Bool

abbrev pub alive : ℕ → Option (Str × ℕ) → Option Str
alive now none = none
alive now (some (user_id, until)) = if ltb now until then some user_id else none

pub data Operation : Type 0 where
  save : (user_id token : Str) → Operation
  get delete : (token : Str) → Operation
  delete_user : (user_id : Str) → Operation
  wait : ℕ → Operation

pub data Answer : Type 0 where
  done missing failed : Answer
  user : Str → Answer

abbrev pub answer_of : Option Str → Answer
answer_of none = missing
answer_of (some user_id) = user user_id

-- What an operation may answer and lead to. Where the tokens of a user end, all do that are the
-- user's, and no other may that was not once saved for the user.
pub data Allows (lifetime now : ℕ) (a : Sessions) : Operation → Answer → Sessions → Type 0 where
  saved :
      (user_id token : Str)
      → Allows lifetime now a (save user_id token) done (record {
        held = λ t. if token == t then some (user_id, now + lifetime) else a.held t;
        issued = λ u t. (user_id == u && token == t) || a.issued u t;
      })
  got : (token : Str) → Allows lifetime now a (get token) (answer_of (alive now (a.held token))) a
  deleted :
      (token : Str)
      → Allows lifetime now a
          (delete token)
          done
          (record a { held = λ t. if token == t then none else a.held t })
  ended :
      (user_id : Str) (held : Str → Option (Str × ℕ))
      → ((t : Str) → (held t ≡ a.held t) ⊎ ((a.issued user_id t ≡ true) × (held t ≡ none)))
      → ((t : Str) (n : ℕ) → now ≤ n → alive n (held t) ≢ some user_id)
      → Allows lifetime now a (delete_user user_id) done (record a { held = held })
  waited : (d : ℕ) → Allows lifetime now a (wait d) done a

abbrev pub clock_after : Operation → ℕ → ℕ
clock_after (save u t) now = now
clock_after (get t) now = now
clock_after (delete t) now = now
clock_after (delete_user u) now = now
clock_after (wait d) now = now + d

-- The answers that may be given to operations one after another.
pub data Permits (lifetime : ℕ) : ℕ → Sessions → List Operation → List Answer → Type 0 where
  start : {now : ℕ} {a : Sessions} → Permits lifetime now a [] []
  next :
      {now : ℕ} {a a' : Sessions} {op : Operation} {x : Answer} {ops : List Operation}
      {xs : List Answer}
      → Allows lifetime now a op x a'
      → Permits lifetime (clock_after op now) a' ops xs
      → Permits lifetime now a (op ∷ ops) (x ∷ xs)

abbrev pub settled : Result Unit → Answer
settled (ok one) = done
settled (err x) = failed

abbrev pub found : Result Str → Answer
found (ok user_id) = user user_id
found (err x) = missing

module _ ⦃e : Env⦄ (lifetime : ℕ) where
  -- The operation on Redis.
  unfoldable pub perform : Operation → World e → Answer × World e
  perform (save user_id token) w =
      let (r, w') = save_refresh_token user_id token lifetime w in (settled r, w')
  perform (get token) w = let (r, w') = get_refresh_token token w in (found r, w')
  perform (delete token) w = let (r, w') = delete_refresh_token token w in (settled r, w')
  perform (delete_user user_id) w =
      let (r, w') = delete_user_refresh_tokens user_id w in (settled r, w')
  perform (wait d) w = (done, elapse d w)

  unfoldable pub perform_all : List Operation → World e → List Answer
  perform_all [] w = []
  perform_all (op ∷ ops) w = let (x, w') = perform op w in x ∷ perform_all ops w'
