-- ===== src/Tests/Refined.antt =====
-- The refresh tokens as a map, at concrete inputs.
use servora_iam.Prelude.{refl, false, none, List, [], ◌∷◌, bytes, arith}
use servora_iam.Data.RefreshTokens.Sessions.{
  Sessions, Operation, save, get, delete, delete_user, wait, Permits, perform_all,
}
use servora_iam.Data.RefreshTokens.Sessions.Refinement.{Represents, perform_all-Permits}
use servora_iam.Tests.Memory.{memory}
use servora_iam.Tests.Worlds.{town, lifetime, town-IsReady, town-IsIndexed}

abbrev nobody : Sessions
nobody = record { held = λ t. none; issued = λ u t. false }

town-Represents : Represents lifetime (omega arith) nobody town
town-Represents = record {
  ready = town-IsReady;
  indexed = town-IsIndexed;
  view = λ n t le. refl;
  tracked = λ n u t le h. h;
}

abbrev operations : List Operation
operations =
    save (bytes "b") (bytes "t")
    ∷ wait 10
    ∷ get (bytes "t")
    ∷ save (bytes "c") (bytes "u")
    ∷ delete_user (bytes "b")
    ∷ delete (bytes "t")
    ∷ get (bytes "u")
    ∷ []

perform_all-Permits_example :
    Permits lifetime 5 nobody operations (perform_all lifetime operations town)
perform_all-Permits_example =
    perform_all-Permits lifetime (omega arith) operations nobody town town-Represents
