-- ===== src/Tests/Memory/Relations.antt =====
-- Relationship tuples in memory.
use servora_iam.Prelude.{
  ◌≡◌, Bool, true, List, [], ◌∷◌, ◌++◌, ◌==◌, ◌&&◌, any, In, here, there, arith, ==-refl,
}
use servora_iam.Platform.Fga.{Fga, FgaTuple}

abbrev pub same : FgaTuple → FgaTuple → Bool
same t u = t.user == u.user && (t.relation == u.relation && t.object == u.object)

abbrev pub holds : List FgaTuple → FgaTuple → Bool
holds s t = any (same t) s

same_refl : (t : FgaTuple) → same t t ≡ true
same_refl t = ground (arith, ==-refl t.user, ==-refl t.relation, ==-refl t.object)

pub holds-In : (t : FgaTuple) (ts s : List FgaTuple) → In t ts → holds (ts ++ s) t ≡ true
holds-In t [] s i = elim i [ ]
holds-In t (u ∷ ts) s (here e) = rw e (ground (arith, same_refl u))
holds-In t (u ∷ ts) s (there i) = ground (arith, holds-In t ts s i)

pub holds-append :
    (t : FgaTuple) (ts s : List FgaTuple) → holds s t ≡ true → holds (ts ++ s) t ≡ true
holds-append t [] s h = h
holds-append t (u ∷ ts) s h = ground (arith, holds-append t ts s h)

abbrev pub memory_fga : Fga
memory_fga = record {
  State = List FgaTuple;
  holds = holds;
  ensure_tuples = λ ts s. (true, ts ++ s);
  ensure_holds = λ ts s t h i. holds-In t ts s i;
  ensure_keeps = λ ts s t h. holds-append t ts s h;
}
