-- ===== src/Platform/Redis.antt =====
-- The Redis client of `github.com/Servora-Kit/servora/infra/redis`, which the service calls and
-- does not implement: its commands, and the documented behaviour that the service relies on. Times
-- and durations are nanoseconds. A command that is refused or times out may have been carried out
-- or not, so the laws say nothing of its key then; no command touches another key.
use servora_iam.Prelude.{
  ℕ, ◌+◌, ◌≤◌, ◌<◌, ◌≡◌, Bool, true, false, ◌&&◌, ◌||◌, Option, none, some, List, [], ◌∷◌, Str,
  ◌==◌, ltb, if◌then◌else◌,
}

abbrev pub contains : List Str → Str → Bool
contains [] x = false
contains (y ∷ ys) x = y == x || contains ys x

-- What a key holds, at each time from now on if no command touches it: a string, or a set. A set
-- that is written at `now` is there at `n` if `lasts now n`.
pub record Slot : Type 0 where
  pub value : ℕ → Option Str
  pub member : ℕ → Str → Bool
  pub lasts : ℕ → ℕ → Bool

pub record Redis : Type 1 where
  pub Store : Type 0
  pub slot : Store → Str → Slot
  -- the server can be reached
  pub up : Store → Bool
  -- SET key value EX ttl; the flag says that no error came back
  pub set : (key val : Str) (ttl now : ℕ) → Store → Bool × Store
  -- GET; a missing key is an error
  pub get : (key : Str) (now : ℕ) → Store → Option Str × Store
  pub get_del : (key : Str) (now : ℕ) → Store → Option Str × Store
  pub del : (key : Str) → Store → Bool × Store
  pub s_add : (key member : Str) (now : ℕ) → Store → Bool × Store
  pub s_members : (key : Str) (now : ℕ) → Store → Option (List Str) × Store
  pub expire : (key : Str) (ttl now : ℕ) → Store → Bool × Store
  pub value_earlier :
      (s : Store) (key : Str) (m n : ℕ) {v : Str}
      → m ≤ n
      → (slot s key).value n ≡ some v
      → (slot s key).value m ≡ some v
  pub lasts_now : (s : Store) (key : Str) (now : ℕ) → (slot s key).lasts now now ≡ true
  pub set_hit :
      (key val : Str) (ttl now n : ℕ) (s : Store)
      → (set key val ttl now s).0 ≡ true
      → 0 < ttl
      → now ≤ n
      → (slot (set key val ttl now s).1 key).value n
        ≡ (if ltb n (now + ttl) then some val else none)
  pub set_frame :
      (key val : Str) (ttl now : ℕ) (s : Store) (j : Str)
      → (key == j) ≡ false
      → slot (set key val ttl now s).1 j ≡ slot s j
  pub set_up :
      (key val : Str) (ttl now : ℕ) (s : Store)
      → up s ≡ true
      → ((set key val ttl now s).0 ≡ true) × (up (set key val ttl now s).1 ≡ true)
  pub get_sound :
      (key : Str) (now : ℕ) (s : Store) {v : Str}
      → (get key now s).0 ≡ some v
      → (slot s key).value now ≡ some v
  pub get_frame : (key : Str) (now : ℕ) (s : Store) (j : Str) → slot (get key now s).1 j ≡ slot s j
  pub get_up :
      (key : Str) (now : ℕ) (s : Store)
      → up s ≡ true
      → ((get key now s).0 ≡ (slot s key).value now) × (up (get key now s).1 ≡ true)
  pub get_del_sound :
      (key : Str) (now : ℕ) (s : Store) {v : Str}
      → (get_del key now s).0 ≡ some v
      → (slot s key).value now ≡ some v
  pub get_del_hit :
      (key : Str) (now n : ℕ) (s : Store) {v : Str}
      → (get_del key now s).0 ≡ some v
      → (slot (get_del key now s).1 key).value n ≡ none
  pub get_del_frame :
      (key : Str) (now : ℕ) (s : Store) (j : Str)
      → (key == j) ≡ false
      → slot (get_del key now s).1 j ≡ slot s j
  pub get_del_up :
      (key : Str) (now : ℕ) (s : Store)
      → up s ≡ true
      → ((get_del key now s).0 ≡ (slot s key).value now) × (up (get_del key now s).1 ≡ true)
  pub del_value :
      (key : Str) (n : ℕ) (s : Store)
      → (del key s).0 ≡ true
      → (slot (del key s).1 key).value n ≡ none
  pub del_member :
      (key : Str) (n : ℕ) (s : Store) (x : Str)
      → (del key s).0 ≡ true
      → (slot (del key s).1 key).member n x ≡ false
  pub del_lasts :
      (key : Str) (now n : ℕ) (s : Store)
      → (del key s).0 ≡ true
      → (slot (del key s).1 key).lasts now n ≡ true
  pub del_frame :
      (key : Str) (s : Store) (j : Str) → (key == j) ≡ false → slot (del key s).1 j ≡ slot s j
  pub del_up :
      (key : Str) (s : Store) → up s ≡ true → ((del key s).0 ≡ true) × (up (del key s).1 ≡ true)
  pub s_add_member :
      (key x : Str) (now n : ℕ) (s : Store) (y : Str)
      → (s_add key x now s).0 ≡ true
      → now ≤ n
      → (slot (s_add key x now s).1 key).member n y
        ≡ ((slot s key).lasts now n && (x == y || (slot s key).member now y))
  pub s_add_lasts :
      (key x : Str) (now n : ℕ) (s : Store)
      → (s_add key x now s).0 ≡ true
      → now ≤ n
      → (slot (s_add key x now s).1 key).lasts now n ≡ (slot s key).lasts now n
  pub s_add_frame :
      (key x : Str) (now : ℕ) (s : Store) (j : Str)
      → (key == j) ≡ false
      → slot (s_add key x now s).1 j ≡ slot s j
  pub s_add_up : (key x : Str) (now : ℕ) (s : Store) → up s ≡ true → up (s_add key x now s).1 ≡ true
  pub s_members_sound :
      (key : Str) (now : ℕ) (s : Store) {xs : List Str} (x : Str)
      → (s_members key now s).0 ≡ some xs
      → contains xs x ≡ (slot s key).member now x
  pub s_members_frame :
      (key : Str) (now : ℕ) (s : Store) (j : Str) → slot (s_members key now s).1 j ≡ slot s j
  pub s_members_up :
      (key : Str) (now : ℕ) (s : Store) → up s ≡ true → up (s_members key now s).1 ≡ true
  pub expire_member :
      (key : Str) (ttl now n : ℕ) (s : Store) (x : Str)
      → (expire key ttl now s).0 ≡ true
      → 0 < ttl
      → now ≤ n
      → (slot (expire key ttl now s).1 key).member n x
        ≡ (ltb n (now + ttl) && (slot s key).member now x)
  pub expire_frame :
      (key : Str) (ttl now : ℕ) (s : Store) (j : Str)
      → (key == j) ≡ false
      → slot (expire key ttl now s).1 j ≡ slot s j
  pub expire_up :
      (key : Str) (ttl now : ℕ) (s : Store) → up s ≡ true → up (expire key ttl now s).1 ≡ true
  -- A server that answers refuses a command on a set only for a key that holds a string.
  pub s_add_answer :
      (key x : Str) (now : ℕ) (s : Store)
      → up s ≡ true
      → (slot s key).value now ≡ none
      → (s_add key x now s).0 ≡ true
  pub s_members_answer :
      (key : Str) (now : ℕ) (s : Store)
      → up s ≡ true
      → (slot s key).value now ≡ none
      → (xs : List Str) × ((s_members key now s).0 ≡ some xs)
  pub expire_answer :
      (key : Str) (ttl now : ℕ) (s : Store) → up s ≡ true → (expire key ttl now s).0 ≡ true
  pub s_add_value :
      (key x : Str) (now n : ℕ) (s : Store)
      → (slot s key).value n ≡ none
      → (slot (s_add key x now s).1 key).value n ≡ none
  pub expire_value :
      (key : Str) (ttl now n : ℕ) (s : Store)
      → (slot s key).value now ≡ none
      → now ≤ n
      → (slot (expire key ttl now s).1 key).value n ≡ none
