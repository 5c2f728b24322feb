-- ===== src/Data/OidcClients/Revoked.antt =====
-- What introspection and userinfo of app/iam/service/internal/data/oidc_storage.go say of a token
-- that was revoked.
use servora_iam.Prelude.{◌≡◌, refl, Str, ◌==◌, Option-cases, inl, inr}
use servora_iam.Exec.{◌>>=◌, Result-cases}
use servora_iam.Platform.Table.{only}
use servora_iam.Platform.Json.{Json}
use servora_iam.Platform.World.{Env, World, redis_del, users_select}
use servora_iam.Data.AuthnRepo.{get_user_by_id}
use servora_iam.Data.OidcStorage.{revoke_token}
use servora_iam.Data.OidcClients.{set_userinfo_from_token, set_introspection_from_token}

module _ ⦃e : Env⦄ where
  -- The row of a user is looked up in the database, whatever Redis holds.
  get_user_by_id-kv :
      (id : Str) (kv : e.redis.Store) (w : World e)
      → (get_user_by_id id (record w { kv = kv })).0 ≡ (get_user_by_id id w).0
  unfolding get_user_by_id users_select ◌>>=◌
  get_user_by_id-kv id kv w = elim (Option-cases (e.crypto.parse_uuid id)) [
    | inl bad ↦ rw bad refl
    | inr (uid, parsed) ↦ elim (Option-cases (e.users.select (λ r. r.id == uid) w.users).0) [
      | inl failed ↦ rw (parsed, failed) refl
      | inr (rows, found) ↦ elim (Result-cases (only rows)) [
        | inl (x, bad) ↦ rw (parsed, found, bad) refl
        | inr (row, one) ↦ rw (parsed, found, one) refl
      ]
    ]
  ]

module _ ⦃e : Env⦄ (j : Json) where
  -- A RevokeToken changes no answer of SetIntrospectionFromToken or of SetUserinfoFromToken: a token
  -- that was active still is.
  pub introspection-revoke_token :
      (token_id subject client_id user_id origin : Str) (w : World e)
      → ((set_introspection_from_token token_id subject client_id
            (revoke_token j token_id user_id client_id w).1).0
          ≡ (set_introspection_from_token token_id subject client_id w).0)
        × ((set_userinfo_from_token token_id subject origin
              (revoke_token j token_id user_id client_id w).1).0
            ≡ (set_userinfo_from_token token_id subject origin w).0)
  unfolding set_introspection_from_token set_userinfo_from_token revoke_token redis_del ◌>>=◌
  introspection-revoke_token token_id subject client_id user_id origin w =
      let kv = (revoke_token j token_id user_id client_id w).1.kv in
      let same = get_user_by_id-kv subject kv w in
      elim (Result-cases (get_user_by_id subject w).0) [
        | inl (x, missing) ↦ rw (same, missing) (refl, refl)
        | inr (u, found) ↦ rw (same, found) (refl, refl)
      ]
