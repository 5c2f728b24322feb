-- ===== src/Jwks/Cache.antt =====
-- The cache of Client in pkg/jwks/client.go. A call of Verifier has two parts: the test under the
-- read lock, and, where that finds nothing, the test, the fetch and the write under the lock. The
-- locks make each part one step, so calls that overlap are these steps in any order. The fields
-- jwksURL and httpClient are in Discovery.
pub mod Fetches
use servora_iam.Prelude.{
  ℕ, ◌+◌, ◌-◌, ◌*◌, ◌≤◌, ◌≡◌, Option, none, some, List, [], ◌∷◌, ltb, if◌then◌else◌,
}
use Prim.Native.Nat.{compare, Ordering}
use servora_iam.Errors.{Result, ok, err}
use servora_iam.Jwks.{KeyLibrary, HttpResponse, fetch_and_build}

-- defaultCacheTTL, in nanoseconds
abbrev pub default_cache_ttl : ℕ
default_cache_ttl = 300_000_000_000

module _ ⦃l : KeyLibrary⦄ where
  pub record Client : Type 0 where
    pub verifier : Option l.Verifier
    pub last_fetch : ℕ
    pub cache_ttl : ℕ

  -- `c.verifier != nil && time.Since(c.lastFetch) < c.cacheTTL`
  unfoldable pub cached : Client → (now : ℕ) → Option l.Verifier
  cached c now = if ltb (now - c.last_fetch) c.cache_ttl then c.verifier else none

  unfoldable pub store : Client → (done : ℕ) → Result l.Verifier → Result l.Verifier × Client
  store c done (ok v) = (ok v, record c { verifier = some v; last_fetch = done })
  store c done (err x) = (err x, c)

  unfoldable pub refill :
      Client → (done : ℕ) → Option HttpResponse → Option l.Verifier → Result l.Verifier × Client
  refill c done reply (some v) = (ok v, c)
  refill c done reply none = store c done (fetch_and_build reply)

  -- The part under the lock: the test is at `now`, and a fetch is over at `done`.
  unfoldable pub locked : Client → (now done : ℕ) → Option HttpResponse → Result l.Verifier × Client
  locked c now done reply = refill c done reply (cached c now)

  -- Where a call stands.
  pub data Pc : Type 0 where
    idle waiting : Pc
    returned : (at : ℕ) → Result l.Verifier → Pc

  pub record System : Type 0 where
    pub client : Client
    pub clock : ℕ
    pub pc : ℕ → Pc
    -- the fetches that succeeded, the last one first
    pub fetched : List (l.Verifier × ℕ)

  abbrev pub update : (ℕ → Pc) → ℕ → Pc → ℕ → Pc
  update pc i p j = elim (compare i j) [ Ordering.eq ↦ p | _ ↦ pc j ]

  -- What a part under the lock adds to the fetches.
  abbrev pub logged :
      Option l.Verifier → Result l.Verifier → ℕ → List (l.Verifier × ℕ) → List (l.Verifier × ℕ)
  logged (some v) r done fs = fs
  logged none (err x) done fs = fs
  logged none (ok v) done fs = (v, done) ∷ fs

  -- When a part under the lock is over: without a fetch, at once.
  abbrev pub over : Option l.Verifier → (now done : ℕ) → ℕ
  over (some v) now done = now
  over none now done = done

  pub data Step (s : System) : System → Type 0 where
    hit :
        (i : ℕ) {v : l.Verifier}
        → s.pc i ≡ idle
        → cached s.client s.clock ≡ some v
        → Step s (record s { pc = update s.pc i (returned s.clock (ok v)) })
    miss :
        (i : ℕ)
        → s.pc i ≡ idle
        → cached s.client s.clock ≡ none
        → Step s (record s { pc = update s.pc i waiting })
    lock :
        (i : ℕ) (done : ℕ) (reply : Option HttpResponse)
        → s.pc i ≡ waiting
        → s.clock ≤ done
        → Step s (record {
          client = (locked s.client s.clock done reply).1;
          clock = over (cached s.client s.clock) s.clock done;
          pc = update s.pc i (
              returned
                (over (cached s.client s.clock) s.clock done)
                (locked s.client s.clock done reply).0);
          fetched =
              logged
                (cached s.client s.clock)
                (locked s.client s.clock done reply).0
                done
                s.fetched;
        })
    tick : (now : ℕ) → s.clock ≤ now → Step s (record s { clock = now })

  -- The states of a client from NewClient, where no call has begun.
  abbrev pub init : (cache_ttl now : ℕ) → System
  init cache_ttl now = record {
    client = record { verifier = none; last_fetch = 0; cache_ttl = cache_ttl };
    clock = now;
    pc = λ i. idle;
    fetched = [];
  }

  pub data Reach (ttl from_ : ℕ) : System → Type 0 where
    start : Reach ttl from_ (init ttl from_)
    next : {s t : System} → Reach ttl from_ s → Step s t → Reach ttl from_ t
