-- ===== src/Tests/Access.antt =====
-- Who may call what, at concrete inputs.
use servora_iam.Prelude.{
  ◌≡◌, refl, not, Bool, true, false, Option, none, some, [], ◌∷◌, Str, bytes, ◌==◌, here, there,
}
use servora_iam.Server.Access.{
  AuthzRule, unchecked, checked, listed, Guard, http_admits, grpc_admits,
}
use servora_iam.Server.Operations.{reset_password, purge_user}
use servora_iam.Server.Access.Audience.{admits, http_audience, grpc_audience}
use servora_iam.Server.Access.Exact.{admits_exact, links_by_grpc}

-- A token is the id of its user, and the user "r" is an administrator.
abbrev user_of : Str → Option Str
user_of [] = none
user_of (c ∷ s) = some (c ∷ s)

abbrev authorize : Option AuthzRule → Option Str → Bool
authorize none user_id = false
authorize (some unchecked) user_id = true
authorize (some (checked relation object_type)) none = false
authorize (some (checked relation object_type)) (some u) = u == bytes "r"

abbrev guard : Guard
guard = record {
  matches = λ whitelist op. not (listed whitelist op);
  authenticate = user_of;
  authorize = authorize;
  check = λ u relation object_type. u == bytes "r";
  matches-listed = λ whitelist op. refl;
  authorize_unchecked = λ user_id. refl;
  authorize_checked = λ relation object_type user_id. refl;
}

admits_exact_example :
    (http_admits guard purge_user (bytes "b") ≡ false)
    × (grpc_admits guard purge_user (bytes "b") ≡ false)
unfolding ◌==◌ admits http_audience grpc_audience
admits_exact_example = admits_exact guard purge_user (bytes "b")

links_by_grpc_example :
    (http_admits guard reset_password [] ≡ true) × (grpc_admits guard reset_password [] ≡ false)
links_by_grpc_example =
    links_by_grpc guard reset_password [] refl (there (there (there (here refl))))
