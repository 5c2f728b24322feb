-- ===== src/Tests/Memory/Kv.antt =====
-- A Redis server in memory that is never down.
use servora_iam.Prelude.{
  ℕ, ◌+◌, ◌≤◌, ◌≡◌, refl, Bool, true, false, ◌&&◌, ◌||◌, Option, none, some, List, [], ◌∷◌, Str,
  ◌==◌, ==-refl, ltb, if◌then◌else◌, arith,
}
use servora_iam.Platform.Redis.{Slot, Redis, contains}

-- What a key holds, with the time at which it ends.
pub data Entry : Type 0 where
  absent : Entry
  string : Str → ℕ → Entry
  endless : List Str → Entry
  set : List Str → ℕ → Entry

abbrev pub Kv : Type 0
Kv = Str → Entry

abbrev pub put : Str → Entry → Kv → Kv
put key x s j = if key == j then x else s j

abbrev pub value_at : Entry → ℕ → Option Str
value_at absent n = none
value_at (string v end) n = if ltb n end then some v else none
value_at (endless xs) n = none
value_at (set xs end) n = none

abbrev pub member_at : Entry → ℕ → Str → Bool
member_at absent n x = false
member_at (string v end) n x = false
member_at (endless xs) n x = contains xs x
member_at (set xs end) n x = ltb n end && contains xs x

abbrev pub lasting : Entry → ℕ → ℕ → Bool
lasting absent now n = true
lasting (string v end) now n = true
lasting (endless xs) now n = true
lasting (set xs end) now n = if ltb now end then ltb n end else true

abbrev pub slot_of : Entry → Slot
slot_of x = record { value = value_at x; member = member_at x; lasts = lasting x }

-- SADD, SMEMBERS and EXPIRE on what a key holds.
abbrev pub added : Entry → Str → ℕ → Bool × Entry
added absent x now = (true, endless (x ∷ []))
added (string v end) x now = if ltb now end then (false, string v end) else (true, endless (x ∷ []))
added (endless xs) x now = (true, endless (x ∷ xs))
added (set xs end) x now = (true, if ltb now end then set (x ∷ xs) end else endless (x ∷ []))

abbrev pub members : Entry → ℕ → Option (List Str)
members absent now = some []
members (string v end) now = if ltb now end then none else some []
members (endless xs) now = some xs
members (set xs end) now = some (if ltb now end then xs else [])

abbrev pub expiring : Entry → ℕ → ℕ → Entry
expiring absent ttl now = absent
expiring (string v end) ttl now = if ltb now end then string v (now + ttl) else absent
expiring (endless xs) ttl now = set xs (now + ttl)
expiring (set xs end) ttl now = if ltb now end then set xs (now + ttl) else absent

pub value_of_earlier :
    (x : Entry) (m n : ℕ) {v : Str} → m ≤ n → value_at x n ≡ some v → value_at x m ≡ some v
value_of_earlier absent m n le h = cc
value_of_earlier (string v end) m n le h = ground arith
value_of_earlier (endless xs) m n le h = cc
value_of_earlier (set xs end) m n le h = cc

pub lasting_now : (x : Entry) (now : ℕ) → lasting x now now ≡ true
lasting_now absent now = refl
lasting_now (string v end) now = refl
lasting_now (endless xs) now = refl
lasting_now (set xs end) now = ground arith

pub added-member :
    (e : Entry) (x : Str) (now n : ℕ) (y : Str)
    → (added e x now).0 ≡ true
    → now ≤ n
    → member_at (added e x now).1 n y ≡ (lasting e now n && (x == y || member_at e now y))
added-member absent x now n y h le = refl
added-member (string v end) x now n y h le = ground arith
added-member (endless xs) x now n y h le = refl
added-member (set xs end) x now n y h le = ground arith

pub added-lasting :
    (e : Entry) (x : Str) (now n : ℕ)
    → (added e x now).0 ≡ true
    → now ≤ n
    → lasting (added e x now).1 now n ≡ lasting e now n
added-lasting absent x now n h le = refl
added-lasting (string v end) x now n h le = ground arith
added-lasting (endless xs) x now n h le = refl
added-lasting (set xs end) x now n h le = ground arith

pub added-answer :
    (e : Entry) (x : Str) (now : ℕ) → value_at e now ≡ none → (added e x now).0 ≡ true
added-answer absent x now h = refl
added-answer (string v end) x now h = ground arith
added-answer (endless xs) x now h = refl
added-answer (set xs end) x now h = refl

pub added-value :
    (e : Entry) (x : Str) (now n : ℕ) → value_at e n ≡ none → value_at (added e x now).1 n ≡ none
added-value absent x now n h = refl
added-value (string v end) x now n h = ground arith
added-value (endless xs) x now n h = refl
added-value (set xs end) x now n h = ground arith

pub members-contains :
    (e : Entry) (now : ℕ) {xs : List Str} (x : Str)
    → members e now ≡ some xs
    → contains xs x ≡ member_at e now x
members-contains absent now x h = ground arith
members-contains (string v end) now x h = ground arith
members-contains (endless ys) now x h = ground arith
members-contains (set ys end) now x h = ground arith

pub members-answer :
    (e : Entry) (now : ℕ) → value_at e now ≡ none → (xs : List Str) × (members e now ≡ some xs)
members-answer absent now h = ([], refl)
members-answer (string v end) now h = ([], ground arith)
members-answer (endless ys) now h = (ys, refl)
members-answer (set ys end) now h = (if ltb now end then ys else [], refl)

pub expiring-member :
    (e : Entry) (ttl now n : ℕ) (x : Str)
    → now ≤ n
    → member_at (expiring e ttl now) n x ≡ (ltb n (now + ttl) && member_at e now x)
expiring-member absent ttl now n x le = ground arith
expiring-member (string v end) ttl now n x le = ground arith
expiring-member (endless ys) ttl now n x le = ground arith
expiring-member (set ys end) ttl now n x le = ground arith

pub expiring-value :
    (e : Entry) (ttl now n : ℕ)
    → value_at e now ≡ none
    → now ≤ n
    → value_at (expiring e ttl now) n ≡ none
expiring-value absent ttl now n h le = refl
expiring-value (string v end) ttl now n h le = ground arith
expiring-value (endless xs) ttl now n h le = refl
expiring-value (set xs end) ttl now n h le = ground arith

pub put-other :
    (key : Str) (x : Entry) (s : Kv) (j : Str)
    → (key == j) ≡ false
    → slot_of (put key x s j) ≡ slot_of (s j)
put-other key x s j h = rw h refl

abbrev pub memory_redis : Redis
memory_redis = record {
  Store = Kv;
  slot = λ s key. slot_of (s key);
  up = λ s. true;
  set = λ key val ttl now s. (true, put key (string val (now + ttl)) s);
  get = λ key now s. (value_at (s key) now, s);
  get_del = λ key now s. (value_at (s key) now, put key absent s);
  del = λ key s. (true, put key absent s);
  s_add = λ key x now s. let (done, entry) = added (s key) x now in (done, put key entry s);
  s_members = λ key now s. (members (s key) now, s);
  expire = λ key ttl now s. (true, put key (expiring (s key) ttl now) s);
  value_earlier = λ s key m n le h. value_of_earlier (s key) m n le h;
  lasts_now = λ s key now. lasting_now (s key) now;
  set_hit = λ key val ttl now n s h pos le. rw (==-refl key) refl;
  set_frame = λ key val ttl now s j h. put-other key _ s j h;
  set_up = λ key val ttl now s h. (refl, refl);
  get_sound = λ key now s h. h;
  get_frame = λ key now s j. refl;
  get_up = λ key now s h. (refl, refl);
  get_del_sound = λ key now s h. h;
  get_del_hit = λ key now n s h. rw (==-refl key) refl;
  get_del_frame = λ key now s j h. put-other key _ s j h;
  get_del_up = λ key now s h. (refl, refl);
  del_value = λ key n s h. rw (==-refl key) refl;
  del_member = λ key n s x h. rw (==-refl key) refl;
  del_lasts = λ key now n s h. rw (==-refl key) refl;
  del_frame = λ key s j h. put-other key _ s j h;
  del_up = λ key s h. (refl, refl);
  s_add_member = λ key x now n s y h le. rw (==-refl key) (added-member (s key) x now n y h le);
  s_add_lasts = λ key x now n s h le. rw (==-refl key) (added-lasting (s key) x now n h le);
  s_add_frame = λ key x now s j h. put-other key _ s j h;
  s_add_up = λ key x now s h. refl;
  s_members_sound = λ key now s x h. members-contains (s key) now x h;
  s_members_frame = λ key now s j. refl;
  s_members_up = λ key now s h. refl;
  expire_member =
      λ key ttl now n s x h pos le. rw (==-refl key) (expiring-member (s key) ttl now n x le);
  expire_frame = λ key ttl now s j h. put-other key _ s j h;
  expire_up = λ key ttl now s h. refl;
  s_add_answer = λ key x now s h free. added-answer (s key) x now free;
  s_members_answer = λ key now s h free. members-answer (s key) now free;
  expire_answer = λ key ttl now s h. refl;
  s_add_value = λ key x now n s h. rw (==-refl key) (added-value (s key) x now n h);
  expire_value = λ key ttl now n s h le. rw (==-refl key) (expiring-value (s key) ttl now n h le);
}
