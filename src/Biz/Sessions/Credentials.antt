-- ===== src/Biz/Sessions/Credentials.antt =====
-- The credentials of a login of app/iam/service/internal/biz/authn.go against the rows of the
-- database.
use servora_iam.Prelude.{◌≡◌, true, Str, arith, inl, inr, filter, if◌then◌else◌}
use servora_iam.Errors.{Result, Reason, ok, err, kratos}
use servora_iam.Exec.{◌>>=◌, Result-cases}
use servora_iam.Platform.Table.{only}
use servora_iam.Platform.Rows.{UserRow}
use servora_iam.Platform.World.{Env, World, bcrypt_check}
use servora_iam.Data.Mapper.{User, to_proto}
use servora_iam.Data.AuthnRepo.{the_user, get_user_by_email}
use servora_iam.Data.AuthnRepo.Queries.{
  rows-the_user, up-the_user, the_user_exact, In-the_user, with_email, IsKeyed, hash_of_row,
}
use servora_iam.Biz.Config.{Config}
use servora_iam.Biz.Authn.{login_lookup_error}
use servora_iam.Biz.Sessions.{check_credentials}

module _ ⦃e : Env⦄ where
  -- The answer to a login by the row that the email finds.
  unfoldable pub judge : (password : Str) → Result UserRow → Result User
  judge password (err x) = err (login_lookup_error x)
  judge password (ok r) =
      if bcrypt_check password r.password
      then if r.email_verified
        then ok (to_proto e.crypto r)
        else err (kratos Reason.email_not_verified "please verify your email before logging in")
      else err (kratos Reason.incorrect_password "invalid email or password")

  module _ (cfg : Config) (email password : Str) (w : World e) where
    pub check_credentials_exact :
        e.users.up w.users ≡ true
        → IsKeyed (e.users.rows w.users)
        → (check_credentials cfg email password w).0
          ≡ judge password (only (filter (with_email email) (e.users.rows w.users)))
    unfolding check_credentials get_user_by_email to_proto ◌>>=◌ judge
    check_credentials_exact up keyed = elim (Result-cases (the_user (with_email email) w).0) [
      | inl (x, missing) ↦ ground (arith, the_user_exact (with_email email) w up)
      | inr (r, found) ↦
          let w' : World e = (the_user (with_email email) w).1 in
          let same = rows-the_user (with_email email) w in
          let (i, _) = In-the_user (with_email email) w found in
          ground (
            arith,
            the_user_exact (with_email email) w up,
            hash_of_row r w' (up-the_user (with_email email) w up) (rw same keyed) (rw same i),
          )
    ]
