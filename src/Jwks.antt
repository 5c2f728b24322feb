-- ===== src/Jwks.antt =====
-- Key sets: pkg/jwks/manager.go, the reading of a key set in pkg/jwks/client.go, pkg/jwks/config.go
-- and pkg/jwks/endpoints.go. Parameters are the signer and the verifier of
-- github.com/Servora-Kit/servora/security/jwt, files, HTTP and the JSON of a key set. The modulus of
-- an RSA key is a natural number, its exponent a Go int.
pub mod Base64
pub mod Published
pub mod Cache
pub mod Discovery
use servora_iam.Prelude.{
  ℕ, ◌+◌, ◌-◌, ◌%◌, ◌^◌, ◌≡◌, Bool, true, false, not, ◌&&◌, Option, none, some, List, [], ◌∷◌, ◌++◌,
  Str, ◌==◌, bytes, is_empty, ltb, nat_eq, if◌then◌else◌, ℤ, pos, negsuc,
}
use servora_iam.Errors.{Result, ok, err, failure}
use Base64.{encode, decode, big_bytes, set_bytes}

pub record RsaPublicKey : Type 0 where
  pub n : ℕ
  pub e : ℤ

pub record Key : Type 0 where
  pub kty : Str
  pub use_ : Str
  pub kid : Str
  pub alg : Str
  pub n : Str
  pub e : Str

pub record HttpResponse : Type 0 where
  pub status : ℕ
  pub body : Str

-- What the package calls.
pub record KeyLibrary : Type 1 where
  pub Signer : Type 0
  pub Verifier : Type 0
  -- jwtpkg.NewSigner of a PEM text
  pub new_signer : Str → Option Signer
  pub kid : Signer → Str
  pub public_key : Signer → RsaPublicKey
  pub new_verifier : Verifier
  pub add_key : Str → RsaPublicKey → Verifier → Verifier
  -- the JSON of Response
  pub marshal : List Key → Str
  pub unmarshal : Str → Option (List Key)
  pub unmarshal-marshal : (keys : List Key) → unmarshal (marshal keys) ≡ some keys
  -- os.ReadFile
  pub read_file : (path : Str) → Option Str

unfoldable pub or_failure : {A : Type 0} → Option A → Result A
or_failure none = err failure
or_failure (some a) = ok a

infixl 10 ◌>>=◌
unfoldable pub ◌>>=◌ : {A B : Type 0} → Result A → (A → Result B) → Result B
ok a >>= f = f a
err x >>= f = err x

-- int(e.Int64()): the low 64 bits, with a sign.
unfoldable pub int64_of : ℕ → ℤ
int64_of n = let low = n % 2 ^ 64 in if ltb low (2 ^ 63) then pos low else negsuc (2 ^ 64 - 1 - low)

-- big.NewInt(int64(e)).Bytes(), which forgets the sign
unfoldable pub magnitude : ℤ → ℕ
magnitude (pos n) = n
magnitude (negsuc n) = n + 1

unfoldable pub rsa_public_key_to_jwk : RsaPublicKey → (kid : Str) → Key
rsa_public_key_to_jwk key kid = record {
  kty = bytes "RSA";
  use_ = bytes "sig";
  kid = kid;
  alg = bytes "RS256";
  n = encode (big_bytes key.n);
  e = encode (big_bytes (magnitude key.e));
}

unfoldable pub jwk_to_rsa_public_key : Key → Result RsaPublicKey
jwk_to_rsa_public_key key = do
  n_bytes ← or_failure (decode key.n)
  e_bytes ← or_failure (decode key.e)
  ok (record { n = set_bytes 0 n_bytes; e = int64_of (set_bytes 0 e_bytes) })

-- The guard of the loop in fetchAndBuild.
unfoldable pub is_rs256 : Key → Bool
is_rs256 key = key.kty == bytes "RSA" && key.alg == bytes "RS256"

pub data KeyOption : Type 0 where
  with_private_key_path : Str → KeyOption
  with_private_key_pem : Str → KeyOption

pub record KeyOptions : Type 0 where
  pub private_key_path : Str
  pub private_key_pem : Str

unfoldable pub apply_option : KeyOption → KeyOptions → KeyOptions
apply_option (with_private_key_path path) o = record o { private_key_path = path }
apply_option (with_private_key_pem pem) o = record o { private_key_pem = pem }

unfoldable pub apply_options : List KeyOption → KeyOptions → KeyOptions
apply_options [] o = o
apply_options (opt ∷ opts) o = apply_options opts (apply_option opt o)

-- conf.App.Jwt
pub record JwtConfig : Type 0 where
  pub private_key_path : Str
  pub private_key_pem : Str

module _ ⦃l : KeyLibrary⦄ where
  pub record KeyManager : Type 0 where
    pub signer : l.Signer

  -- The PEM text that the options give.
  unfoldable pub pem_data : KeyOptions → Result Str
  pem_data o =
      if not (is_empty o.private_key_path)
      then or_failure (l.read_file o.private_key_path)
      else if not (is_empty o.private_key_pem)
      then ok o.private_key_pem
      else err failure

  unfoldable pub new_key_manager : List KeyOption → Result KeyManager
  new_key_manager opts = do
    pem ← pem_data (apply_options opts (record { private_key_path = []; private_key_pem = [] }))
    signer ← or_failure (l.new_signer pem)
    ok (record { signer = signer })

  unfoldable pub new_key_manager_from_config : Option JwtConfig → Result KeyManager
  new_key_manager_from_config none = err failure
  new_key_manager_from_config (some cfg) =
      if not (is_empty cfg.private_key_path)
      then new_key_manager (with_private_key_path cfg.private_key_path ∷ [])
      else if not (is_empty cfg.private_key_pem)
      then new_key_manager (with_private_key_pem cfg.private_key_pem ∷ [])
      else err failure

  unfoldable pub verifier : KeyManager → l.Verifier
  verifier km = l.add_key (l.kid km.signer) (l.public_key km.signer) l.new_verifier

  unfoldable pub jwks_response : KeyManager → List Key
  jwks_response km = rsa_public_key_to_jwk (l.public_key km.signer) (l.kid km.signer) ∷ []

  -- The body that jwksHandler writes.
  unfoldable pub jwks_handler : KeyManager → HttpResponse
  jwks_handler km = record { status = 200; body = l.marshal (jwks_response km) }

  -- The loop of fetchAndBuild.
  unfoldable pub add_keys : List Key → l.Verifier → Result l.Verifier
  add_keys [] v = ok v
  add_keys (key ∷ keys) v = elim (is_rs256 key) [
    | false ↦ add_keys keys v
    | true ↦ jwk_to_rsa_public_key key >>= λ pub_key. add_keys keys (l.add_key key.kid pub_key v)
  ]

  -- fetchAndBuild, of what the request returns.
  unfoldable pub fetch_and_build : Option HttpResponse → Result l.Verifier
  fetch_and_build reply = do
    resp ← or_failure reply
    body ← if nat_eq resp.status 200 then ok resp.body else err failure
    keys ← or_failure (l.unmarshal body)
    add_keys keys l.new_verifier
