-- ===== src/Biz/Sessions/Passwords.antt =====
-- ChangePassword of app/iam/service/internal/biz/authn.go: the passwords and the sessions after it.
use mathlib.Core.Path.{subst}
use servora_iam.Prelude.{
  eq_iff, ap, ◌∙◌, ℕ, ◌≤◌, ◌≡◌, ◌≢◌, refl, sym, true, List, Str, arith, some, inl, inr, In, modify,
}
use servora_iam.Errors.{ok}
use servora_iam.Exec.{◌>>=◌, Result-cases}
use servora_iam.Platform.Table.{with_id}
use servora_iam.Platform.Rows.{UserRow, users_schema}
use servora_iam.Platform.Frames.{Offline}
use servora_iam.Platform.World.{Env, World, users_update, bcrypt_hash, bcrypt_check}
use servora_iam.Data.AuthnRepo.{get_password_hash, update_password}
use servora_iam.Data.AuthnRepo.Updates.{
  rows_of, bcrypt_hash-checks, get_password_hash-eq-ok, rows-get_password_hash,
  update_password-eq-ok,
}
use servora_iam.Data.RefreshTokens.{delete_user_refresh_tokens}
use servora_iam.Data.RefreshTokens.Index.{IsIndexed, owner}
use servora_iam.Data.RefreshTokens.Answers.{Offline-IsReady, Offline-IsIndexed, delete_user-Answers}
use servora_iam.Data.RefreshTokens.Ready.{IsReady}
use servora_iam.Data.RefreshTokens.Frames.{OnRedis-delete_user}
use servora_iam.Data.RefreshTokens.Revocation.{delete_user_revokes}
use servora_iam.Biz.Config.{Config}
use servora_iam.Biz.Sessions.{change_password}
use servora_iam.Biz.Sessions.Frames.{Offline-get_password_hash}

module _ ⦃e : Env⦄ where
  -- The row with the id of a user has a hash of the password, and no other row has changed.
  pub record IsRehashed (user_id password : Str) (before after : List UserRow) : Type 0 where
    pub id : Str
    pub hash : Str
    pub parsed : e.crypto.parse_uuid user_id ≡ some id
    pub checks : bcrypt_check password hash ≡ true
    pub changed :
        after ≡ modify (with_id users_schema id) (λ r. record r { password = hash }) before

  -- Every refresh token of the user is refused from now on.
  abbrev pub IsSignedOut : (user_id : Str) → World e → Type 0
  IsSignedOut user_id w = (n : ℕ) (t : Str) → w.clock ≤ n → owner w n t ≢ some user_id

  pub Offline-update_password :
      (user_id hash : Str) (w : World e) → Offline w (update_password user_id hash w).1
  unfolding update_password users_update ◌>>=◌
  Offline-update_password user_id hash w = record { kv = ground arith; clock = ground arith }

  pub Offline-bcrypt_hash : (password : Str) (w : World e) → Offline w (bcrypt_hash password w).1
  unfolding bcrypt_hash
  Offline-bcrypt_hash password w = record { kv = refl; clock = refl }

  rows-bcrypt_hash : (password : Str) (w : World e) → rows_of (bcrypt_hash password w).1 ≡ rows_of w
  unfolding bcrypt_hash
  rows-bcrypt_hash password w = refl

  module _ (user_id new_password : Str) (w : World e) (hashed : Str)
      (drawn : (bcrypt_hash new_password w).0 ≡ ok hashed) where
    abbrev w_hashed : World e
    w_hashed = (bcrypt_hash new_password w).1

    abbrev w_updated : World e
    w_updated = (update_password user_id hashed w_hashed).1

    abbrev w_ended : World e
    w_ended = (delete_user_refresh_tokens user_id w_updated).1

    -- The common end of ChangePassword and ResetPassword.
    pub password_replaced :
        (lifetime : ℕ)
        → IsReady w
        → IsIndexed lifetime w
        → (update_password user_id hashed w_hashed).0 ≡ ok tt
        → IsRehashed user_id new_password (rows_of w) (rows_of w_ended)
          × IsSignedOut user_id w_ended
    password_replaced lifetime ready indexed updated =
        let hashing = Offline-bcrypt_hash new_password w in
        let updating = Offline-update_password user_id hashed w_hashed in
        let ready' = Offline-IsReady updating (Offline-IsReady hashing ready) in
        let indexed' =
          Offline-IsIndexed lifetime updating (Offline-IsIndexed lifetime hashing indexed) in
        let (ended, _) = delete_user-Answers user_id w_updated ready' in
        let only_redis = OnRedis-delete_user user_id w_updated in
        let (id, parsed, changed) = update_password-eq-ok user_id hashed w_hashed updated in
        (
          record {
            id = id;
            hash = hashed;
            parsed = parsed;
            checks = bcrypt_hash-checks new_password w drawn;
            changed =
                ap e.users.rows only_redis.users
                ∙ (changed
                    ∙ ap (modify (with_id users_schema id) (λ r. record r { password = hashed }))
                        (rows-bcrypt_hash new_password w));
          },
          λ n t le.
              delete_user_revokes lifetime user_id w_updated indexed' ended n t
                (omega (arith, only_redis.clock)),
        )

  module _ (cfg : Config) (user_id current_password new_password : Str) (w : World e) where
    -- While Redis answers and the sets of tokens are complete, a ChangePassword that succeeds was
    -- given the current password of a row with the id of the user; it stores a hash of the new one in
    -- the rows with that id, changes no other row, and ends every session of the user.
    pub change_password_lem :
        (lifetime : ℕ)
        → IsReady w
        → IsIndexed lifetime w
        → (change_password cfg user_id current_password new_password w).0 ≡ ok tt
        → let w' = (change_password cfg user_id current_password new_password w).1 in
          ((r : UserRow) × In r (rows_of w)
            × (e.crypto.parse_uuid user_id ≡ some r.id)
            × (bcrypt_check current_password r.password ≡ true))
          × IsRehashed user_id new_password (rows_of w) (rows_of w')
          × IsSignedOut user_id w'
    unfolding change_password ◌>>=◌
    change_password_lem lifetime ready indexed done =
        let reading = Offline-get_password_hash user_id w in
        let w_read : World e = (get_password_hash user_id w).1 in
        elim (Result-cases (get_password_hash user_id w).0) [
          | inl (x, missing) ↦ absurd (ground arith)
          | inr (hash, read) ↦ elim (Result-cases (bcrypt_hash new_password w_read).0) [
            | inl (x, failed) ↦ absurd (ground arith)
            | inr (hashed, drawn) ↦
                let (id, r, parsed, i, has_id, is_hash) = get_password_hash-eq-ok user_id w read in
                let right : bcrypt_check current_password hash ≡ true = ground arith in
                let w_hash : World e = (bcrypt_hash new_password w_read).1 in
                let w_update : World e = (update_password user_id hashed w_hash).1 in
                let updated : (update_password user_id hashed w_hash).0 ≡ ok tt = ground arith in
                let same : (change_password cfg user_id current_password new_password w).1
                    ≡ (delete_user_refresh_tokens user_id w_update).1 =
                  ground arith in
                let ended =
                  password_replaced user_id new_password w_read hashed drawn lifetime
                    (Offline-IsReady reading ready) (Offline-IsIndexed lifetime reading indexed)
                    updated in
                let (rehashed, signed_out) =
                  subst
                    (λ v.
                      IsRehashed user_id new_password (rows_of w_read) (rows_of v)
                      × IsSignedOut user_id v)
                    (sym same) ended in
                (
                  (r, i, ground (arith, eq_iff r.id id), ground arith),
                  subst
                      (λ rows.
                        IsRehashed user_id new_password rows
                          (rows_of (change_password cfg user_id current_password new_password w).1))
                      (rows-get_password_hash user_id w) rehashed,
                  signed_out,
                )
          ]
        ]
