-- ===== src/Server/Access.antt =====
-- Who may call an operation: NewHTTPMiddleware and NewGRPCMiddleware of
-- app/iam/service/internal/server, with the rules of
-- api/gen/go/servora/iam/service/v1/authz_rules.gen.go and those of the user and authn packages beside
-- it. The authenticator and the authorizer of github.com/Servora-Kit/servora/security are parameters.
pub mod Audience
pub mod Exact
use servora_iam.Prelude.{
  ◌≡◌, ℕ, Bool, true, false, not, ◌&&◌, ◌||◌, Option, none, some, List, [], ◌∷◌, Str, String, bytes,
  ◌==◌, if◌then◌else◌,
}
use servora_iam.Server.Operations.{Operation, operation, grpc_method}

pub data AuthzRule : Type 0 where
  -- AUTHZ_MODE_NONE
  unchecked : AuthzRule
  -- AUTHZ_MODE_CHECK
  checked : (relation object_type : String) → AuthzRule

-- Whether a name is in a list of names.
unfoldable pub listed : List Str → Str → Bool
listed [] op = false
listed (x ∷ xs) op = x == op || listed xs op

pub record Guard : Type 0 where
  -- MatchFunc of an exact whitelist: whether what it selects applies to the operation
  pub matches : (whitelist : List Str) (op : Str) → Bool
  -- authn.Server: the user that a request goes on with, or none where it is refused
  pub authenticate : (token : Str) → Option Str
  -- authz.Server: whether a request, with the user that it goes on with, passes the rule
  pub authorize : Option AuthzRule → (user_id : Option Str) → Bool
  -- whether the user has the relation to the one object of the type
  pub check : (user_id : Str) (relation object_type : String) → Bool
  pub matches-listed :
      (whitelist : List Str) (op : Str) → matches whitelist op ≡ not (listed whitelist op)
  pub authorize_unchecked : (user_id : Option Str) → authorize (some unchecked) user_id ≡ true
  pub authorize_checked :
      (relation object_type : String) (user_id : Str)
      → authorize (some (checked relation object_type)) (some user_id)
        ≡ check user_id relation object_type

-- iamv1.AuthzRules
unfoldable pub iam_rules : List (Str × AuthzRule)
iam_rules =
    (
      bytes "/servora.iam.service.v1.ApplicationService/CreateApplication",
      checked "admin" "platform",
    )
    ∷ (
      bytes "/servora.iam.service.v1.ApplicationService/DeleteApplication",
      checked "admin" "platform",
    )
    ∷ (bytes "/servora.iam.service.v1.ApplicationService/GetApplication", unchecked)
    ∷ (bytes "/servora.iam.service.v1.ApplicationService/ListApplications", unchecked)
    ∷ (
      bytes "/servora.iam.service.v1.ApplicationService/RegenerateClientSecret",
      checked "admin" "platform",
    )
    ∷ (
      bytes "/servora.iam.service.v1.ApplicationService/UpdateApplication",
      checked "admin" "platform",
    )
    ∷ (bytes "/servora.iam.service.v1.AuthnService/ChangePassword", unchecked)
    ∷ (bytes "/servora.iam.service.v1.AuthnService/LoginByEmailPassword", unchecked)
    ∷ (bytes "/servora.iam.service.v1.AuthnService/Logout", unchecked)
    ∷ (bytes "/servora.iam.service.v1.AuthnService/LogoutAllDevices", unchecked)
    ∷ (bytes "/servora.iam.service.v1.AuthnService/RefreshToken", unchecked)
    ∷ (bytes "/servora.iam.service.v1.AuthnService/RequestEmailVerification", unchecked)
    ∷ (bytes "/servora.iam.service.v1.AuthnService/RequestPasswordReset", unchecked)
    ∷ (bytes "/servora.iam.service.v1.AuthnService/ResetPassword", unchecked)
    ∷ (bytes "/servora.iam.service.v1.AuthnService/SignupByEmail", unchecked)
    ∷ (bytes "/servora.iam.service.v1.AuthnService/VerifyEmail", unchecked)
    ∷ (bytes "/servora.iam.service.v1.UserService/CreateUser", checked "admin" "platform")
    ∷ (bytes "/servora.iam.service.v1.UserService/CurrentUserInfo", unchecked)
    ∷ (bytes "/servora.iam.service.v1.UserService/DeleteUser", checked "admin" "platform")
    ∷ (bytes "/servora.iam.service.v1.UserService/GetUser", checked "can_manage_users" "platform")
    ∷ (bytes "/servora.iam.service.v1.UserService/ListUsers", checked "can_manage_users" "platform")
    ∷ (bytes "/servora.iam.service.v1.UserService/PurgeUser", checked "admin" "platform")
    ∷ (bytes "/servora.iam.service.v1.UserService/RestoreUser", checked "admin" "platform")
    ∷ (bytes "/servora.iam.service.v1.UserService/UpdateUser", unchecked)
    ∷ []

-- userpb.AuthzRules and authnpb.AuthzRules
unfoldable pub grpc_rules : List (Str × AuthzRule)
grpc_rules =
    (bytes "/servora.user.service.v1.UserService/CreateUser", checked "admin" "platform")
    ∷ (bytes "/servora.user.service.v1.UserService/CurrentUserInfo", unchecked)
    ∷ (bytes "/servora.user.service.v1.UserService/DeleteUser", checked "admin" "platform")
    ∷ (bytes "/servora.user.service.v1.UserService/GetUser", checked "can_manage_users" "platform")
    ∷ (
      bytes "/servora.user.service.v1.UserService/ListUsers",
      checked "can_manage_users" "platform",
    )
    ∷ (bytes "/servora.user.service.v1.UserService/PurgeUser", checked "admin" "platform")
    ∷ (bytes "/servora.user.service.v1.UserService/RestoreUser", checked "admin" "platform")
    ∷ (bytes "/servora.user.service.v1.UserService/UpdateUser", unchecked)
    ∷ (bytes "/servora.authn.service.v1.AuthnService/ChangePassword", unchecked)
    ∷ (bytes "/servora.authn.service.v1.AuthnService/LoginByEmailPassword", unchecked)
    ∷ (bytes "/servora.authn.service.v1.AuthnService/Logout", unchecked)
    ∷ (bytes "/servora.authn.service.v1.AuthnService/LogoutAllDevices", unchecked)
    ∷ (bytes "/servora.authn.service.v1.AuthnService/RefreshToken", unchecked)
    ∷ (bytes "/servora.authn.service.v1.AuthnService/RequestEmailVerification", unchecked)
    ∷ (bytes "/servora.authn.service.v1.AuthnService/RequestPasswordReset", unchecked)
    ∷ (bytes "/servora.authn.service.v1.AuthnService/ResetPassword", unchecked)
    ∷ (bytes "/servora.authn.service.v1.AuthnService/SignupByEmail", unchecked)
    ∷ (bytes "/servora.authn.service.v1.AuthnService/VerifyEmail", unchecked)
    ∷ []

unfoldable pub http_whitelist : List Str
http_whitelist =
    bytes "/servora.iam.service.v1.AuthnService/LoginByEmailPassword"
    ∷ bytes "/servora.iam.service.v1.AuthnService/RefreshToken"
    ∷ bytes "/servora.iam.service.v1.AuthnService/SignupByEmail"
    ∷ bytes "/servora.iam.service.v1.AuthnService/RequestEmailVerification"
    ∷ bytes "/servora.iam.service.v1.AuthnService/VerifyEmail"
    ∷ bytes "/servora.iam.service.v1.AuthnService/RequestPasswordReset"
    ∷ bytes "/servora.iam.service.v1.AuthnService/ResetPassword"
    ∷ bytes "/cap/challenge"
    ∷ bytes "/cap/redeem"
    ∷ []

unfoldable pub grpc_whitelist : List Str
grpc_whitelist =
    bytes "/servora.authn.service.v1.AuthnService/LoginByEmailPassword"
    ∷ bytes "/servora.authn.service.v1.AuthnService/RefreshToken"
    ∷ bytes "/servora.authn.service.v1.AuthnService/SignupByEmail"
    ∷ []

unfoldable pub rule_of : List (Str × AuthzRule) → Str → Option AuthzRule
rule_of [] op = none
rule_of ((x, r) ∷ rs) op = let rest = rule_of rs op in if x == op then some r else rest

module _ (g : Guard) where
  -- authz.Server behind authn.Server
  unfoldable pub authenticated : Option AuthzRule → (user_id : Option Str) → Bool
  authenticated rule none = false
  authenticated rule (some u) = g.authorize rule (some u)

  -- The end of the chain of middleware.
  unfoldable pub admit :
      (whitelist : List Str) (rules : List (Str × AuthzRule)) (op token : Str) → Bool
  admit whitelist rules op token =
      if g.matches whitelist op
      then authenticated (rule_of rules op) (g.authenticate token)
      else g.authorize (rule_of rules op) none

  -- NewHTTPMiddleware
  unfoldable pub http_admits : Operation → (token : Str) → Bool
  http_admits op token = admit http_whitelist iam_rules (operation op) token

  unfoldable pub grpc_admits_method : Option Str → (token : Str) → Bool
  grpc_admits_method none token = false
  grpc_admits_method (some m) token = admit grpc_whitelist grpc_rules m token

  -- NewGRPCMiddleware; a service that is not registered answers nothing.
  unfoldable pub grpc_admits : Operation → (token : Str) → Bool
  grpc_admits op token = grpc_admits_method (grpc_method op) token
