-- ===== src/Tests/Clients.antt =====
-- The theorems on the clients of the OIDC provider, at concrete inputs.
use servora_iam.Prelude.{◌≡◌, refl, [], bytes, filter}
use servora_iam.Errors.{ok}
use servora_iam.Data.ApplicationRepo.{with_client_id}
use servora_iam.Data.OidcStorage.{revoke_token}
use servora_iam.Data.OidcClients.{
  authorize_client_id_secret, set_introspection_from_token, set_userinfo_from_token,
}
use servora_iam.Data.OidcClients.Authorization.{judged, authorize_exact, authorize-create}
use servora_iam.Data.OidcClients.Revoked.{introspection-revoke_token}
use servora_iam.Biz.Applications.{create}
use servora_iam.Biz.Applications.Secrets.{applications_of}
use servora_iam.Tests.Applications.{portal, created, secret, create_done, with_portal}
use servora_iam.Tests.Memory.{memory}
use servora_iam.Tests.Memory.Text.{memory_json}
use servora_iam.Tests.Worlds.{town}

authorize_exact_example :
    (authorize_client_id_secret [] (bytes "h") with_portal).0
    ≡ judged (bytes "h") (filter (with_client_id []) (applications_of with_portal))
authorize_exact_example = authorize_exact [] (bytes "h") with_portal refl

authorize-create_example :
    (authorize_client_id_secret created.client_id secret (create portal town).1).0 ≡ ok tt
authorize-create_example = authorize-create portal created secret town refl create_done

introspection-revoke_token_example :
    ((set_introspection_from_token
        (bytes "t")
        (bytes "b")
        (bytes "app")
        (revoke_token memory_json (bytes "t") (bytes "b") (bytes "app") town).1).0
      ≡ (set_introspection_from_token (bytes "t") (bytes "b") (bytes "app") town).0)
    × ((set_userinfo_from_token
          (bytes "t")
          (bytes "b")
          []
          (revoke_token memory_json (bytes "t") (bytes "b") (bytes "app") town).1).0
        ≡ (set_userinfo_from_token (bytes "t") (bytes "b") [] town).0)
introspection-revoke_token_example =
    introspection-revoke_token memory_json (bytes "t") (bytes "b") (bytes "app") (bytes "b") [] town
