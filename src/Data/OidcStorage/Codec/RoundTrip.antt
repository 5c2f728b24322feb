-- ===== src/Data/OidcStorage/Codec/RoundTrip.antt =====
-- What app/iam/service/internal/data/oidc_storage.go stored, read back.
use servora_iam.Prelude.{
  ℕ, ◌<◌, ◌≡◌, refl, true, none, some, Str, ◌==◌, Option, arith, bytes, if◌then◌else◌,
}
use mathlib.Core.Path.{fun_ext}
use servora_iam.Platform.Json.{
  Json, Value, leaf, flag, text, lookup, as_leaf, as_text, as_texts, as_flag, as_time, text_field,
  texts_field, flag_field, time_field, year_10000, ◌>>=◌,
}
use servora_iam.Data.OidcStorage.Codec.{
  AuthRequest, RefreshTokenMeta, challenge_entry, encode_auth_request, as_challenge, read_requested,
  read_auth_request, decode_auth_request, token_meta_fields, encode_refresh_token_meta,
  read_token_meta, as_token_meta, read_refresh_token_meta, decode_refresh_token_meta,
}

module _ (j : Json) where
  read-encode_auth_request :
      (r : AuthRequest)
      → r.auth_time < year_10000
      → read_auth_request j (λ k. lookup k (encode_auth_request j r)) ≡ some r
  unfolding read_auth_request read_requested encode_auth_request challenge_entry as_challenge
      text_field texts_field flag_field time_field as_leaf as_text as_texts as_flag as_time lookup
      ◌==◌ ◌>>=◌
  read-encode_auth_request r past =
      elim r.code_challenge
        as (λ c.
          read_auth_request j
            (λ k. lookup k (encode_auth_request j (record r { code_challenge = c })))
          ≡ some (record r { code_challenge = c })) [
            | none ↦ rw (j.parse-format_time r.auth_time past) refl
            | some c ↦ rw (j.parse-format_time r.auth_time past) refl
          ]

  pub decode-encode_auth_request :
      (r : AuthRequest)
      → r.auth_time < year_10000
      → decode_auth_request j (j.marshal (encode_auth_request j r)) ≡ some r
  unfolding decode_auth_request ◌>>=◌
  decode-encode_auth_request r past =
      let (o, parsed, same) = j.unmarshal-marshal (encode_auth_request j r) in
      rw parsed (rw (fun_ext same) (read-encode_auth_request r past))

  read-encode_refresh_token_meta :
      (m : RefreshTokenMeta)
      → m.auth_time < year_10000
      → read_refresh_token_meta j (λ k. lookup k (encode_refresh_token_meta j m)) ≡ some m
  unfolding read_refresh_token_meta encode_refresh_token_meta token_meta_fields read_token_meta
      as_token_meta text_field texts_field time_field as_leaf as_text as_texts as_time lookup ◌==◌
      ◌>>=◌
  read-encode_refresh_token_meta m past = rw (j.parse-format_time m.auth_time past) refl

  pub decode-encode_refresh_token_meta :
      (m : RefreshTokenMeta)
      → m.auth_time < year_10000
      → decode_refresh_token_meta j (j.marshal (encode_refresh_token_meta j m)) ≡ some m
  unfolding decode_refresh_token_meta ◌>>=◌
  decode-encode_refresh_token_meta m past =
      let (o, parsed, same) = j.unmarshal-marshal (encode_refresh_token_meta j m) in
      rw parsed (rw (fun_ext same) (read-encode_refresh_token_meta m past))

  -- An object whose user, time and mark are written over.
  abbrev pub completed : (Str → Option Value) → (user_id : Str) → (t : ℕ) → Str → Option Value
  completed find user_id t k =
      if bytes "done" == k
      then some (leaf (flag true))
      else if bytes "auth_time" == k
      then some (leaf (text (j.format_time t)))
      else if bytes "user_id" == k
      then some (leaf (text user_id))
      else find k

  read_requested-completed :
      (find : Str → Option Value) (user_id : Str) (t : ℕ)
      → read_requested (completed find user_id t) ≡ read_requested find
  unfolding read_requested text_field texts_field ◌==◌
  read_requested-completed find user_id t = refl

  -- A request whose user, time and mark are written over.
  pub read-completed :
      (find : Str → Option Value) (user_id : Str) (t : ℕ) (r : AuthRequest)
      → t < year_10000
      → read_auth_request j find ≡ some r
      → read_auth_request j (completed find user_id t)
        ≡ some (record r { user_id = user_id; auth_time = t; is_done = true })
  unfolding read_auth_request text_field flag_field time_field as_leaf as_text as_flag as_time ◌==◌
      ◌>>=◌
  read-completed find user_id t r past h =
      rw (j.parse-format_time t past, read_requested-completed find user_id t) (ground arith)
