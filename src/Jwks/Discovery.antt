-- ===== src/Jwks/Discovery.antt =====
-- The well-known endpoints of pkg/jwks/endpoints.go, and NewClient and NewClientFromDiscovery of
-- pkg/jwks/client.go. HTTP clients are numbers, http.DefaultClient 0, and none is nil; a request is a
-- parameter, as is the JSON of the discovery document.
use servora_iam.Prelude.{
  ℕ, ◌≡◌, refl, false, Option, none, some, List, [], ◌∷◌, ◌++◌, Str, ◌==◌, ==-refl, bytes, is_empty,
  nat_eq, if◌then◌else◌,
}
use servora_iam.Errors.{Result, ok, err, failure}
use servora_iam.Jwks.{KeyLibrary, KeyManager, HttpResponse, or_failure, ◌>>=◌, jwks_handler}
use servora_iam.Jwks.Cache.{Client, default_cache_ttl}

abbrev pub default_jwks_path : Str
default_jwks_path = bytes "/.well-known/jwks.json"

abbrev pub default_discovery_path : Str
default_discovery_path = bytes "/.well-known/openid-configuration"

pub record OidcDiscovery : Type 0 where
  pub issuer : Str
  pub jwks_uri : Str
  pub id_token_signing_alg_values_supported : List Str

-- encoding/json on the document, and on the one field of it that the client reads.
pub record DiscoveryJson : Type 0 where
  pub marshal : OidcDiscovery → Str
  pub jwks_uri : Str → Option Str
  pub jwks_uri-marshal : (d : OidcDiscovery) → jwks_uri (marshal d) ≡ some d.jwks_uri

pub record Endpoints : Type 0 where
  pub jwks_path : Str
  pub discovery_path : Str
  pub issuer_url : Str

pub data EndpointOption : Type 0 where
  with_jwks_path : Str → EndpointOption
  with_discovery_path : Str → EndpointOption
  with_issuer_url_override : Str → EndpointOption

unfoldable pub apply_endpoint_option : EndpointOption → Endpoints → Endpoints
apply_endpoint_option (with_jwks_path p) e = record e { jwks_path = p }
apply_endpoint_option (with_discovery_path p) e = record e { discovery_path = p }
apply_endpoint_option (with_issuer_url_override url) e = record e { issuer_url = url }

unfoldable pub apply_endpoint_options : List EndpointOption → Endpoints → Endpoints
apply_endpoint_options [] e = e
apply_endpoint_options (o ∷ os) e = apply_endpoint_options os (apply_endpoint_option o e)

unfoldable pub new_endpoints : (external_url : Str) → List EndpointOption → Endpoints
new_endpoints external_url opts = apply_endpoint_options opts (record {
  jwks_path = default_jwks_path;
  discovery_path = default_discovery_path;
  issuer_url = external_url;
})

-- The document that discoveryHandler writes.
unfoldable pub discovery_document : Endpoints → OidcDiscovery
discovery_document e = record {
  issuer = e.issuer_url;
  jwks_uri = e.issuer_url ++ default_jwks_path;
  id_token_signing_alg_values_supported = bytes "RS256" ∷ [];
}

unfoldable pub discovery_handler : DiscoveryJson → Endpoints → HttpResponse
discovery_handler j e = record { status = 200; body = j.marshal (discovery_document e) }

-- Register: the paths with what is served there.
unfoldable pub register :
    ⦃l : KeyLibrary⦄ → DiscoveryJson → KeyManager → Endpoints → List (Str × HttpResponse)
register j km e = (e.jwks_path, jwks_handler km) ∷ (e.discovery_path, discovery_handler j e) ∷ []

pub data ClientOption : Type 0 where
  with_cache_ttl : ℕ → ClientOption
  with_http_client : ℕ → ClientOption

abbrev pub default_http_client : ℕ
default_http_client = 0

module _ ⦃l : KeyLibrary⦄ where
  -- A Client with its fixed fields.
  pub record FullClient : Type 0 where
    pub jwks_url : Str
    pub http_client : ℕ
    pub cache : Client

  unfoldable pub apply_client_option : ClientOption → FullClient → FullClient
  apply_client_option (with_cache_ttl d) c = record c { cache = record c.cache { cache_ttl = d } }
  apply_client_option (with_http_client hc) c = record c { http_client = hc }

  unfoldable pub apply_client_options : List ClientOption → FullClient → FullClient
  apply_client_options [] c = c
  apply_client_options (o ∷ os) c = apply_client_options os (apply_client_option o c)

  unfoldable pub new_client : (jwks_url : Str) → List ClientOption → FullClient
  new_client jwks_url opts = apply_client_options opts (record {
    jwks_url = jwks_url;
    http_client = default_http_client;
    cache = record { verifier = none; last_fetch = 0; cache_ttl = default_cache_ttl };
  })

  -- The loop that looks for an HTTP client among the options.
  unfoldable pub discovery_client : List ClientOption → (hc : ℕ) → ℕ
  discovery_client [] hc = hc
  discovery_client (with_cache_ttl d ∷ os) hc = discovery_client os hc
  discovery_client (with_http_client c ∷ os) hc =
      discovery_client os (if nat_eq c default_http_client then hc else c)

  unfoldable pub new_client_from_discovery :
      DiscoveryJson
      → (get : (client : ℕ) → (url : Str) → Option HttpResponse) → (issuer_url : Str)
      → List ClientOption
      → Result FullClient
  new_client_from_discovery j get issuer_url opts = do
    resp ←
        or_failure
          (get (discovery_client opts default_http_client) (issuer_url ++ default_discovery_path))
    body ← if nat_eq resp.status 200 then ok resp.body else err failure
    uri ← or_failure (j.jwks_uri body)
    if is_empty uri then err failure else ok (new_client uri opts)

paths_differ : (default_discovery_path == default_jwks_path) ≡ false
unfolding ◌==◌
paths_differ = refl

append-not_empty : (s : Str) → is_empty (s ++ default_jwks_path) ≡ false
append-not_empty [] = refl
append-not_empty (c ∷ s) = refl

module _ ⦃l : KeyLibrary⦄ (j : DiscoveryJson) where
  -- A client that finds the discovery document of a service with the default paths at the issuer
  -- will fetch the key set from where that service serves it.
  pub from_discovery-endpoints :
      (get : ℕ → Str → Option HttpResponse) (km : KeyManager) (issuer_url : Str)
      (opts : List ClientOption)
      → get (discovery_client opts default_http_client) (issuer_url ++ default_discovery_path)
        ≡ some (discovery_handler j (new_endpoints issuer_url []))
      → new_client_from_discovery j get issuer_url opts
        ≡ ok (new_client (issuer_url ++ (new_endpoints issuer_url []).jwks_path) opts)
  unfolding new_client_from_discovery or_failure discovery_handler discovery_document new_endpoints
      apply_endpoint_options ◌>>=◌
  from_discovery-endpoints get km issuer_url opts found =
      rw found (rw (j.jwks_uri-marshal _) (rw (append-not_empty issuer_url) refl))

-- What a server that matches paths exactly answers with these routes.
unfoldable pub served : List (Str × HttpResponse) → Str → Option HttpResponse
served [] path = none
served ((p, response) ∷ routes) path = if p == path then some response else served routes path

module _ ⦃l : KeyLibrary⦄ (j : DiscoveryJson) where
  jwks_url-apply :
      (opts : List ClientOption) (c : FullClient)
      → (apply_client_options opts c).jwks_url ≡ c.jwks_url
  unfolding apply_client_options apply_client_option
  jwks_url-apply [] c = refl
  jwks_url-apply (with_cache_ttl d ∷ os) c = jwks_url-apply os _
  jwks_url-apply (with_http_client h ∷ os) c = jwks_url-apply os _

  -- Where a service is given a path for its key set that is neither of the default paths, it serves
  -- the key set at that path; a client that is made from its discovery document, over a network that
  -- answers for URLs below the issuer with the routes of the service, matched exactly, asks for the key set at another
  -- URL, where there is nothing.
  pub discovery_ignores_path :
      (get : ℕ → Str → Option HttpResponse) (km : KeyManager) (url path : Str)
      (opts : List ClientOption)
      → (path == default_jwks_path) ≡ false
      → (path == default_discovery_path) ≡ false
      → let routes : List (Str × HttpResponse) =
          register j km (new_endpoints url (with_jwks_path path ∷ [])) in
        ((c : ℕ) (p : Str) → get c (url ++ p) ≡ served routes p)
        → (client : FullClient) × (new_client_from_discovery j get url opts ≡ ok client)
          × (get client.http_client (url ++ path) ≡ some (jwks_handler km))
          × (get client.http_client client.jwks_url ≡ none)
  unfolding new_client_from_discovery or_failure discovery_handler discovery_document new_endpoints
      apply_endpoint_options apply_endpoint_option register served new_client ◌>>=◌
  discovery_ignores_path get km url path opts moved apart network =
      let client : FullClient = new_client (url ++ default_jwks_path) opts in
      let asked = network (discovery_client opts default_http_client) default_discovery_path in
      let nothing = network client.http_client default_jwks_path in
      let keys = network client.http_client path in
      (
        client,
        rw
            (
              asked,
              apart,
              ==-refl default_discovery_path,
              j.jwks_uri-marshal _,
              append-not_empty url,
            )
            refl,
        rw (keys, ==-refl path) refl,
        rw (jwks_url-apply opts _, nothing, moved, paths_differ) refl,
      )
