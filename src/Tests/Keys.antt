-- ===== src/Tests/Keys.antt =====
-- The theorems on key sets, at concrete inputs.
use servora_iam.Prelude.{
  ℕ, ◌≡◌, refl, false, Option, none, some, List, [], ◌∷◌, ◌++◌, Str, bytes, ◌==◌, pos, arith, drop,
}
use servora_iam.Errors.{ok}
use servora_iam.Jwks.{
  RsaPublicKey, Key, KeyLibrary, KeyManager, HttpResponse, verifier, jwks_handler, fetch_and_build,
}
use servora_iam.Jwks.Published.{fetch-jwks_handler}
use servora_iam.Jwks.Cache.{
  System, Reach, cached, locked, update, logged, over, init, waiting, returned, miss, lock, start,
  next,
}
use servora_iam.Jwks.Cache.Fetches.{IsSound, Reach-IsSound}
use servora_iam.Jwks.Discovery.{
  default_jwks_path, default_discovery_path, discovery_ignores_path, DiscoveryJson, FullClient,
  register, served, new_endpoints, with_jwks_path, new_client_from_discovery,
}
use servora_iam.Tests.Memory.Services.{put_str, get_str, take_all, drop_all}
use servora_iam.Tests.Memory.Text.{put_many, get_many, get_all-put}

abbrev put_key : Key → List ℕ → List ℕ
put_key k rest =
    put_str k.kty (put_str k.use_ (put_str k.kid (put_str k.alg (put_str k.n (put_str k.e rest)))))

abbrev get_key : List ℕ → Key × List ℕ
get_key s =
    let (kty, s₁) = get_str s in
    let (use_, s₂) = get_str s₁ in
    let (kid, s₃) = get_str s₂ in
    let (alg, s₄) = get_str s₃ in
    let (n, s₅) = get_str s₄ in
    let (e, s₆) = get_str s₅ in
    (record { kty = kty; use_ = use_; kid = kid; alg = alg; n = n; e = e }, s₆)

get_key-put : (k : Key) (rest : List ℕ) → get_key (put_key k rest) ≡ (k, rest)
get_key-put k rest = simp (take_all, drop_all)

abbrev rsa_key : RsaPublicKey
rsa_key = record { n = 3233; e = pos 65537 }

keys_read : (ks : List Key) → some (get_many get_key (put_many put_key ks [])).0 ≡ some ks
keys_read ks = rw (get_all-put put_key get_key get_key-put ks []) refl

instance abbrev memory_keys : KeyLibrary
memory_keys = record {
  Signer = Unit {0};
  Verifier = List (Str × RsaPublicKey);
  new_signer = λ pem. some tt;
  kid = λ s. bytes "k";
  public_key = λ s. rsa_key;
  new_verifier = [];
  add_key = λ kid key v. (kid, key) ∷ v;
  marshal = λ ks. put_many put_key ks [];
  unmarshal = λ s. some (get_many get_key s).0;
  unmarshal-marshal = λ ks. keys_read ks;
  read_file = λ path. none;
}

abbrev manager : KeyManager
manager = record { signer = tt }

fetch-jwks_handler_example : fetch_and_build (some (jwks_handler manager)) ≡ ok (verifier manager)
fetch-jwks_handler_example = fetch-jwks_handler manager 3233 65537 refl (omega arith)

-- Two calls find the cache empty; the first one fetches, the second one finds what it fetched.
abbrev s₀ : System
s₀ = init 10 100

abbrev s₁ : System
s₁ = record s₀ { pc = update s₀.pc 0 waiting }

abbrev s₂ : System
s₂ = record s₁ { pc = update s₁.pc 1 waiting }

abbrev reply : Option HttpResponse
reply = some (jwks_handler manager)

abbrev after : System → ℕ → ℕ → System
after s i done = record {
  client = (locked s.client s.clock done reply).1;
  clock = over (cached s.client s.clock) s.clock done;
  pc = update s.pc i (
      returned (over (cached s.client s.clock) s.clock done)
        (locked s.client s.clock done reply).0);
  fetched = logged (cached s.client s.clock) (locked s.client s.clock done reply).0 done s.fetched;
}

abbrev s₃ : System
s₃ = after s₂ 0 103

nothing_cached : cached s₀.client 100 ≡ none
unfolding cached
nothing_cached = refl

path : Reach 10 100 s₃
unfolding cached
path =
    next (next (next start (miss 0 refl nothing_cached)) (miss 1 refl nothing_cached))
      (lock 0 103 reply refl (omega arith))

Reach-IsSound_example : IsSound 10 s₃
Reach-IsSound_example = Reach-IsSound path

-- The URL of the keys and then the issuer.
uri_read : (s rest : List ℕ) → some (get_str (put_str s rest)).0 ≡ some s
uri_read s rest = simp take_all

abbrev documents : DiscoveryJson
documents = record {
  marshal = λ d. put_str d.jwks_uri d.issuer;
  jwks_uri = λ s. some (get_str s).0;
  jwks_uri-marshal = λ d. uri_read d.jwks_uri d.issuer;
}

abbrev routes : List (Str × HttpResponse)
routes =
    register documents manager (new_endpoints (bytes "i") (with_jwks_path (bytes "/keys") ∷ []))

-- URLs below the issuer `i`.
abbrev network : ℕ → Str → Option HttpResponse
network c url = served routes (drop 1 url)

moved : (bytes "/keys" == default_jwks_path) ≡ false
unfolding ◌==◌
moved = refl

apart : (bytes "/keys" == default_discovery_path) ≡ false
unfolding ◌==◌
apart = refl

discovery_ignores_path_example :
    (client : FullClient) × (new_client_from_discovery documents network (bytes "i") [] ≡ ok client)
    × (network client.http_client (bytes "i" ++ bytes "/keys") ≡ some (jwks_handler manager))
    × (network client.http_client client.jwks_url ≡ none)
discovery_ignores_path_example =
    discovery_ignores_path documents network manager (bytes "i") (bytes "/keys") [] moved apart
      (λ c p. refl)
