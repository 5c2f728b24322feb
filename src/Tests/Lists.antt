-- ===== src/Tests/Lists.antt =====
-- The list of users, at concrete inputs.
use servora_iam.Prelude.{◌≡◌, refl, [], ◌∷◌, str_lt, arith}
use servora_iam.Errors.{ok}
use servora_iam.Data.Mapper.{to_proto}
use servora_iam.Biz.Users.Pages.{in_order, read_pages, read_pages_complete}
use servora_iam.Tests.Memory.{memory}
use servora_iam.Tests.Worlds.{town, bob, carol}

town_ordered : in_order town ≡ to_proto memory.crypto carol ∷ to_proto memory.crypto bob ∷ []
unfolding str_lt
town_ordered = refl

read_pages_complete_example : (read_pages 3 1 town).0 ≡ ok (in_order town)
unfolding str_lt
read_pages_complete_example =
    read_pages_complete 3 1 town (omega arith) (omega arith) (omega arith) (omega arith) refl refl
