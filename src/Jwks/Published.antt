-- ===== src/Jwks/Published.antt =====
-- The key set of a key manager, read by a client: pkg/jwks/manager.go and pkg/jwks/client.go.
use servora_iam.Prelude.{ℕ, ◌<◌, ◌^◌, ◌≡◌, refl, some, [], ◌∷◌, Str, ◌==◌, arith, pos}
use servora_iam.Errors.{ok}
use servora_iam.Jwks.{
  RsaPublicKey, KeyLibrary, KeyManager, or_failure, ◌>>=◌, int64_of, magnitude,
  rsa_public_key_to_jwk, jwk_to_rsa_public_key, is_rs256, verifier, jwks_response, jwks_handler,
  add_keys, fetch_and_build,
}
use servora_iam.Jwks.Base64.{big_bytes}
use servora_iam.Jwks.Base64.RoundTrip.{decode-encode, set_bytes-big_bytes, big_bytes-IsByte}

-- A key whose exponent is no negative number is read as it was written.
pub jwk_to_rsa-rsa_to_jwk :
    (n exponent : ℕ) (kid : Str)
    → exponent < 2 ^ 63
    → jwk_to_rsa_public_key (rsa_public_key_to_jwk (record { n = n; e = pos exponent }) kid)
      ≡ ok (record { n = n; e = pos exponent })
unfolding jwk_to_rsa_public_key rsa_public_key_to_jwk magnitude or_failure int64_of ◌>>=◌
jwk_to_rsa-rsa_to_jwk n exponent kid small = rw (decode-encode (big_bytes n) (big_bytes-IsByte n)) (
    rw (decode-encode (big_bytes exponent) (big_bytes-IsByte exponent))
      (rw (set_bytes-big_bytes n) (rw (set_bytes-big_bytes exponent) (ground arith))))

module _ ⦃l : KeyLibrary⦄ where
  add_keys_one :
      (key : RsaPublicKey) (kid : Str) (v : l.Verifier)
      → jwk_to_rsa_public_key (rsa_public_key_to_jwk key kid) ≡ ok key
      → add_keys (rsa_public_key_to_jwk key kid ∷ []) v ≡ ok (l.add_key kid key v)
  unfolding add_keys is_rs256 rsa_public_key_to_jwk ◌==◌ ◌>>=◌
  add_keys_one key kid v h = rw h refl

  -- A client that fetches the key set that a key manager publishes has the verifier of that key
  -- manager, where the exponent of the key is no negative number and fits an int64.
  pub fetch-jwks_handler :
      (km : KeyManager) (n exponent : ℕ)
      → l.public_key km.signer ≡ record { n = n; e = pos exponent }
      → exponent < 2 ^ 63
      → fetch_and_build (some (jwks_handler km)) ≡ ok (verifier km)
  unfolding fetch_and_build jwks_handler jwks_response verifier or_failure ◌>>=◌
  fetch-jwks_handler km n exponent key small =
      let own = l.public_key km.signer in
      rw (l.unmarshal-marshal (jwks_response km)) (
        add_keys_one own (l.kid km.signer) l.new_verifier
          (rw key (jwk_to_rsa-rsa_to_jwk n exponent (l.kid km.signer) small)))
