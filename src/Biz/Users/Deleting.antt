-- ===== src/Biz/Users/Deleting.antt =====
-- DeleteUser and PurgeUser of app/iam/service/internal/biz/user.go: what is left of a user.
use mathlib.Core.Path.{subst}
use servora_iam.Prelude.{
  ap, ◌∙◌, ℕ, ◌≡◌, refl, sym, true, not, List, [], ◌∷◌, Str, arith, Option-cases, inl, inr, modify,
  filter, filter-modify,
}
use servora_iam.Errors.{ok, err, Reason, kratos}
use servora_iam.Exec.{◌>>=◌, Result-cases}
use servora_iam.Platform.Table.{with_id, only}
use servora_iam.Platform.Rows.{UserRow, users_schema}
use servora_iam.Platform.Frames.{Offline}
use servora_iam.Platform.World.{Env, World, users_delete}
use servora_iam.Data.Mapper.{to_proto}
use servora_iam.Data.AuthnRepo.{parse_id}
use servora_iam.Data.AuthnRepo.Queries.{IsKeyed, with_email, up-the_user}
use servora_iam.Data.AuthnRepo.Updates.{rows_of}
use servora_iam.Data.RefreshTokens.{delete_user_refresh_tokens}
use servora_iam.Data.RefreshTokens.Index.{IsIndexed}
use servora_iam.Data.RefreshTokens.Answers.{Offline-IsReady, Offline-IsIndexed, delete_user-Answers}
use servora_iam.Data.RefreshTokens.Ready.{IsReady}
use servora_iam.Data.RefreshTokens.Frames.{OnRedis-delete_user}
use servora_iam.Data.RefreshTokens.Revocation.{delete_user_revokes}
use servora_iam.Data.UserRepo
use servora_iam.Data.UserRepo.SoftDelete.{present, up-delete_user, get-delete}
use servora_iam.Data.UserRepo.Changes.{mark_deleted, delete_user-eq-ok, purge_cascade-eq-ok}
use servora_iam.Data.AuthnRepo.Keys.{IsKeyed-modify}
use servora_iam.Biz.Config.{Config}
use servora_iam.Biz.Users.{delete_user, purge_user, get_user}
use servora_iam.Biz.Users.Frames.{rows-get_user_by_id}
use servora_iam.Biz.Sessions.{check_credentials}
use servora_iam.Biz.Sessions.Credentials.{judge, check_credentials_exact}
use servora_iam.Biz.Sessions.Passwords.{IsSignedOut}

module _ ⦃e : Env⦄ where
  judge-mark :
      (uid : Str) (now : ℕ) (password : Str) (rows : List UserRow)
      → judge password (only (modify (with_id users_schema uid) (mark_deleted now) rows))
        ≡ judge password (only rows)
  unfolding judge only to_proto
  judge-mark uid now password [] = refl
  judge-mark uid now password (r ∷ []) = ground arith
  judge-mark uid now password (r ∷ s ∷ rows) = refl

  up-get_user_by_id :
      (id : Str) (w : World e)
      → e.users.up w.users ≡ true
      → e.users.up (UserRepo.get_user_by_id id w).1.users ≡ true
  unfolding UserRepo.get_user_by_id parse_id ◌>>=◌
  up-get_user_by_id id w up = elim (Option-cases (e.crypto.parse_uuid id)) [
    | inl bad ↦ ground arith
    | inr (uid, parsed) ↦ let up' = up-the_user (present uid) w up in ground arith
  ]

  module _ (id : Str) (w : World e) (done : (delete_user id w).0 ≡ ok true) where
    abbrev w_found : World e
    w_found = (UserRepo.get_user_by_id id w).1

    marked :
        ((UserRepo.delete_user id w_found).0 ≡ ok tt)
        × ((delete_user id w).1 ≡ (UserRepo.delete_user id w_found).1)
    unfolding delete_user ◌>>=◌
    marked = elim (Result-cases (UserRepo.get_user_by_id id w).0) [
      | inl (x, missing) ↦ absurd (ground arith)
      | inr (u, found) ↦ (ground arith, ground arith)
    ]

    -- While the database answers, a user that DeleteUser has deleted is not found by GetUser.
    pub get_user-delete_user :
        e.users.up w.users ≡ true
        → (get_user id (delete_user id w).1).0 ≡ err (kratos Reason.user_not_found "user not found")
    unfolding get_user
    get_user-delete_user up =
        let (deleted, same) = marked in
        ground (arith, same, get-delete id w_found (up-get_user_by_id id w up) deleted)

    -- While the database answers and ids are unique, a DeleteUser that succeeds changes no answer to
    -- the credentials of a login: a user that was deleted can still log in.
    pub check_credentials-delete_user :
        (cfg : Config) (email password : Str)
        → e.users.up w.users ≡ true
        → IsKeyed (rows_of w)
        → (check_credentials cfg email password (delete_user id w).1).0
          ≡ (check_credentials cfg email password w).0
    check_credentials-delete_user cfg email password up keyed =
        let (deleted, same) = marked in
        let w' : World e = (UserRepo.delete_user id w_found).1 in
        let up' = up-delete_user id w_found (up-get_user_by_id id w up) deleted in
        let (uid, _, changed) = delete_user-eq-ok id w_found deleted in
        let p = with_id users_schema uid in
        let f = mark_deleted w_found.clock in
        let moved : rows_of w' ≡ modify p f (rows_of w) =
          changed ∙ ap (modify p f) (rows-get_user_by_id id w) in
        let keyed' : IsKeyed (rows_of w') =
          rw moved (IsKeyed-modify p f (λ r. refl) (rows_of w) keyed) in
        rw same (
          check_credentials_exact cfg email password w' up' keyed'
          ∙ (ap (λ rows. judge password (only (filter (with_email email) rows))) moved
              ∙ (ap (λ rows. judge password (only rows))
                    (filter-modify p f (with_email email) (λ r. refl) (rows_of w))
                  ∙ (judge-mark uid w_found.clock password (filter (with_email email) (rows_of w))
                      ∙ sym (check_credentials_exact cfg email password w up keyed)))))

  Offline-purge_cascade : (id : Str) (w : World e) → Offline w (UserRepo.purge_cascade id w).1
  unfolding UserRepo.purge_cascade parse_id users_delete ◌>>=◌
  Offline-purge_cascade id w = record { kv = ground arith; clock = ground arith }

  -- While Redis answers and the sets of tokens are complete, a PurgeUser that succeeds and that is
  -- given the id of a user in its canonical spelling removes the rows with that id and no other, and
  -- ends every session of the user.
  pub purge_user_lem :
      (uid : Str) (lifetime : ℕ) (w : World e)
      → IsReady w
      → IsIndexed lifetime w
      → (purge_user (e.crypto.uuid_string uid) w).0 ≡ ok true
      → let w' = (purge_user (e.crypto.uuid_string uid) w).1 in
        (rows_of w' ≡ filter (λ r. not (with_id users_schema uid r)) (rows_of w))
        × IsSignedOut (e.crypto.uuid_string uid) w'
  unfolding purge_user ◌>>=◌
  purge_user_lem uid lifetime w ready indexed done =
      let id : Str = e.crypto.uuid_string uid in
      let w_purged : World e = (UserRepo.purge_cascade id w).1 in
      let o = Offline-purge_cascade id w in
      elim (Result-cases (UserRepo.purge_cascade id w).0) [
        | inl (x, failed) ↦ absurd (ground arith)
        | inr (one, purged) ↦
            let (uid', parsed, changed) = purge_cascade-eq-ok id w purged in
            let same_id : uid' ≡ uid = cc (parsed, e.crypto.parse-uuid_string uid) in
            let only_redis = OnRedis-delete_user id w_purged in
            let (ended, _) = delete_user-Answers id w_purged (Offline-IsReady o ready) in
            let same : (purge_user id w).1 ≡ (delete_user_refresh_tokens id w_purged).1 =
              ground arith in
            let out : IsSignedOut id (delete_user_refresh_tokens id w_purged).1 = λ n t le.
              delete_user_revokes lifetime id w_purged (Offline-IsIndexed lifetime o indexed) ended
                n t (omega (arith, only_redis.clock)) in
            (
              ap rows_of same ∙ (ap e.users.rows only_redis.users ∙ (rw same_id at changed)),
              subst (IsSignedOut id) (sym same) out,
            )
      ]
