-- ===== src/Platform/Fga.antt =====
-- The OpenFGA client of github.com/Servora-Kit/servora/infra/openfga, which the service calls and does
-- not implement: its calls, and the documented behaviour that the service relies on.
use servora_iam.Prelude.{◌≡◌, Bool, true, List, Str, In}

-- openfga.Tuple
pub record FgaTuple : Type 0 where
  pub user : Str
  pub relation : Str
  pub object : Str

pub record Fga : Type 1 where
  pub State : Type 0
  -- the tuples that the store holds
  pub holds : State → FgaTuple → Bool
  -- EnsureTuples writes what the store does not hold yet.
  pub ensure_tuples : List FgaTuple → State → Bool × State
  pub ensure_holds :
      (ts : List FgaTuple) (s : State) (t : FgaTuple)
      → (ensure_tuples ts s).0 ≡ true
      → In t ts
      → holds (ensure_tuples ts s).1 t ≡ true
  pub ensure_keeps :
      (ts : List FgaTuple) (s : State) (t : FgaTuple)
      → holds s t ≡ true
      → holds (ensure_tuples ts s).1 t ≡ true
