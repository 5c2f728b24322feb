-- ===== src/Jwks/Cache/Fetches.antt =====
-- The fetches of calls of Verifier in pkg/jwks/client.go that overlap, and the key sets that the
-- calls return.
use servora_iam.Prelude.{
  ℕ, ◌+◌, ◌-◌, ◌≤◌, ◌<◌, ◌≡◌, refl, ◌⊎◌, inl, inr, Option, none, some, List, [], ◌∷◌, arith,
  Option-cases,
}
use native.Mathlib.Decide.{ℕ_discrete}
use servora_iam.Errors.{Error, ok, err}
use servora_iam.Exec.{Result-cases}
use servora_iam.Jwks.{KeyLibrary, HttpResponse, fetch_and_build}
use servora_iam.Jwks.Cache.{
  System, Pc, Step, Reach, cached, store, refill, locked, update, logged, over, waiting, returned,
  hit, miss, lock, tick, start, next,
}

module _ ⦃l : KeyLibrary⦄ where
  -- Each fetch ended at least so much later than the one before.
  abbrev pub IsSpaced : (ttl : ℕ) → List (l.Verifier × ℕ) → Type 0
  IsSpaced ttl [] = Unit
  IsSpaced ttl ((v, t) ∷ []) = Unit
  IsSpaced ttl ((v, t) ∷ (u, s) ∷ fs) = (s + ttl ≤ t) × IsSpaced ttl ((u, s) ∷ fs)

  -- A fetch brought this verifier, and at `t` it had just ended or was not too old.
  abbrev pub Serves : (ttl : ℕ) → l.Verifier → (t : ℕ) → List (l.Verifier × ℕ) → Type 0
  Serves ttl v t [] = ⊥
  Serves ttl v t ((u, f) ∷ fs) = (u ≡ v) × (f ≤ t) × ((t < f + ttl) ⊎ (t ≡ f)) ⊎ Serves ttl v t fs

  abbrev latest : List (l.Verifier × ℕ) → Option l.Verifier
  latest [] = none
  latest ((v, t) ∷ fs) = some v

  abbrev ended : List (l.Verifier × ℕ) → ℕ
  ended [] = 0
  ended ((v, t) ∷ fs) = t

  pub record IsSound (ttl : ℕ) (s : System) : Type 0 where
    pub lifetime : s.client.cache_ttl ≡ ttl
    pub spaced : IsSpaced ttl s.fetched
    pub held : s.client.verifier ≡ latest s.fetched
    pub last : s.client.last_fetch ≡ ended s.fetched
    pub past : ended s.fetched ≤ s.clock
    pub current : (i t : ℕ) (v : l.Verifier) → s.pc i ≡ returned t (ok v) → Serves ttl v t s.fetched

  cached-Serves :
      (ttl now : ℕ) (fs : List (l.Verifier × ℕ)) {v : l.Verifier}
      → ended fs ≤ now
      → latest fs ≡ some v
      → now - ended fs < ttl
      → Serves ttl v now fs
  cached-Serves ttl now [] past held fresh = cc
  cached-Serves ttl now ((u, f) ∷ fs) past held fresh = inl ((cc), past, inl (omega arith))

  IsSpaced-cons :
      (ttl done : ℕ) (v : l.Verifier) (fs : List (l.Verifier × ℕ))
      → IsSpaced ttl fs
      → (fs ≡ []) ⊎ (ended fs + ttl ≤ done)
      → IsSpaced ttl ((v, done) ∷ fs)
  IsSpaced-cons ttl done v [] h gap = tt
  IsSpaced-cons ttl done v ((u, f) ∷ fs) h (inl empty) = absurd (cc)
  IsSpaced-cons ttl done v ((u, f) ∷ fs) h (inr gap) = (gap, h)

  latest-none : (fs : List (l.Verifier × ℕ)) → latest fs ≡ none → fs ≡ []
  latest-none [] h = refl
  latest-none ((v, t) ∷ fs) h = cc

  -- The call that a step moved has returned what is served, and the others stay.
  current-update :
      (P : ℕ → l.Verifier → Type 0) (pc : ℕ → Pc) (i : ℕ) (p : Pc)
      → ((j t : ℕ) (v : l.Verifier) → pc j ≡ returned t (ok v) → P t v)
      → ((t : ℕ) (v : l.Verifier) → p ≡ returned t (ok v) → P t v)
      → (j t : ℕ) (v : l.Verifier) → update pc i p j ≡ returned t (ok v)
      → P t v
  current-update P pc i p others own j t v h = elim (ℕ_discrete i j) [
    | yes same ↦ own t v (ground arith)
    | no other ↦ others j t v (ground arith)
  ]

  module _ {ttl : ℕ} (s : System) (k : IsSound ttl s) where
    kept-hit :
        (i : ℕ) {v : l.Verifier}
        → cached s.client s.clock ≡ some v
        → IsSound ttl (record s { pc = update s.pc i (returned s.clock (ok v)) })
    unfolding cached
    kept-hit i {v} found = record {
      lifetime = k.lifetime;
      spaced = k.spaced;
      held = k.held;
      last = k.last;
      past = k.past;
      current =
          current-update (λ t v. Serves ttl v t s.fetched) s.pc i (returned s.clock (ok v))
            k.current
            (λ t u e.
              let now : s.clock ≡ t = ground arith in
              let same : v ≡ u = ground arith in
              cached-Serves ttl t s.fetched (omega (arith, k.past)) (ground (arith, k.held))
                (ground (arith, k.last, k.lifetime)));
    }

    kept-miss : (i : ℕ) → IsSound ttl (record s { pc = update s.pc i waiting })
    kept-miss i = record {
      lifetime = k.lifetime;
      spaced = k.spaced;
      held = k.held;
      last = k.last;
      past = k.past;
      current =
          current-update (λ t v. Serves ttl v t s.fetched) s.pc i waiting k.current (λ t u e. cc);
    }

    kept-tick : (now : ℕ) → s.clock ≤ now → IsSound ttl (record s { clock = now })
    kept-tick now later = record {
      lifetime = k.lifetime;
      spaced = k.spaced;
      held = k.held;
      last = k.last;
      past = omega (arith, k.past);
      current = k.current;
    }

    kept-failed :
        (i done : ℕ) (x : Error)
        → s.clock ≤ done
        → IsSound ttl (record s { clock = done; pc = update s.pc i (returned done (err x)) })
    kept-failed i done x later = record {
      lifetime = k.lifetime;
      spaced = k.spaced;
      held = k.held;
      last = k.last;
      past = omega (arith, k.past);
      current =
          current-update (λ t v. Serves ttl v t s.fetched) s.pc i (returned done (err x)) k.current
            (λ t u e. cc);
    }

    kept-built :
        (i done : ℕ) (v : l.Verifier)
        → s.clock ≤ done
        → cached s.client s.clock ≡ none
        → IsSound ttl (record {
          client = record s.client { verifier = some v; last_fetch = done };
          clock = done;
          pc = update s.pc i (returned done (ok v));
          fetched = (v, done) ∷ s.fetched;
        })
    unfolding cached
    kept-built i done v later missing = record {
      lifetime = k.lifetime;
      spaced =
          IsSpaced-cons ttl done v s.fetched k.spaced
            (grind (arith, k.held, k.last, k.lifetime, k.past, latest-none));
      held = refl;
      last = refl;
      past = omega arith;
      current =
          current-update (λ t u. Serves ttl u t ((v, done) ∷ s.fetched)) s.pc i
            (returned done (ok v)) (λ j t u e. inr (k.current j t u e))
            (λ t u e. inl (ground arith, ground arith, inr (ground arith)));
    }

    kept-lock :
        (i done : ℕ) (reply : Option HttpResponse)
        → s.clock ≤ done
        → IsSound ttl (record {
          client = (locked s.client s.clock done reply).1;
          clock = over (cached s.client s.clock) s.clock done;
          pc = update s.pc i (
              returned
                (over (cached s.client s.clock) s.clock done)
                (locked s.client s.clock done reply).0);
          fetched =
              logged
                (cached s.client s.clock)
                (locked s.client s.clock done reply).0
                done
                s.fetched;
        })
    unfolding locked refill store
    kept-lock i done reply later = elim (Option-cases (cached s.client s.clock)) [
      | inr (v, found) ↦ rw found (kept-hit i found)
      | inl missing ↦ rw missing (elim (Result-cases (fetch_and_build reply)) [
        | inl (x, failed) ↦ rw failed (kept-failed i done x later)
        | inr (v, built) ↦ rw built (kept-built i done v later missing)
      ])
    ]

  Step-IsSound : {ttl : ℕ} {s t : System} → Step s t → IsSound ttl s → IsSound ttl t
  Step-IsSound {ttl} {s} (tick now later) k = kept-tick s k now later
  Step-IsSound {ttl} {s} (hit i e found) k = kept-hit s k i found
  Step-IsSound {ttl} {s} (miss i e missing) k = kept-miss s k i
  Step-IsSound {ttl} {s} (lock i done reply e later) k = kept-lock s k i done reply later

  -- However calls of Verifier overlap, each fetch that succeeds ends at least the time of the cache
  -- after the one before, and a call that returns a verifier returns one whose fetch had just ended
  -- or was not older than that time.
  pub Reach-IsSound : {ttl from_ : ℕ} {s : System} → Reach ttl from_ s → IsSound ttl s
  Reach-IsSound start = record {
    lifetime = refl;
    spaced = tt;
    held = refl;
    last = refl;
    past = omega arith;
    current = λ i t v h. cc;
  }
  Reach-IsSound (next before step) = Step-IsSound step (Reach-IsSound before)
