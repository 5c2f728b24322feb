-- ===== src/Biz/Users/Frames.antt =====
-- The look-ups of app/iam/service/internal/biz/user.go, and the rows after them.
use servora_iam.Prelude.{◌≡◌, refl, Bool, true, false, Str, arith, Option-cases, inl, inr}
use servora_iam.Exec.{◌>>=◌}
use servora_iam.Platform.World.{Env, World}
use servora_iam.Data.AuthnRepo.{parse_id, get_user_by_user_name, get_user_by_email}
use servora_iam.Data.AuthnRepo.Queries.{rows-the_user, with_email, with_user_name}
use servora_iam.Data.AuthnRepo.Updates.{rows_of}
use servora_iam.Data.UserRepo
use servora_iam.Data.UserRepo.SoftDelete.{present}
use servora_iam.Biz.Users.{check_user_name, check_email}

module _ ⦃e : Env⦄ where
  pub rows-get_user_by_user_name :
      (name : Str) (w : World e) → rows_of (get_user_by_user_name name w).1 ≡ rows_of w
  unfolding get_user_by_user_name ◌>>=◌
  rows-get_user_by_user_name name w =
      let same = rows-the_user (with_user_name name) w in ground arith

  pub rows-get_user_by_email :
      (email : Str) (w : World e) → rows_of (get_user_by_email email w).1 ≡ rows_of w
  unfolding get_user_by_email ◌>>=◌
  rows-get_user_by_email email w = let same = rows-the_user (with_email email) w in ground arith

  pub rows-get_user_by_id :
      (id : Str) (w : World e) → rows_of (UserRepo.get_user_by_id id w).1 ≡ rows_of w
  unfolding UserRepo.get_user_by_id parse_id ◌>>=◌
  rows-get_user_by_id id w = elim (Option-cases (e.crypto.parse_uuid id)) [
    | inl bad ↦ ground arith
    | inr (uid, parsed) ↦ let same = rows-the_user (present uid) w in ground arith
  ]

  pub rows-check_user_name :
      (wanted : Bool) (name : Str) (w : World e)
      → rows_of (check_user_name wanted name w).1 ≡ rows_of w
  unfolding check_user_name ◌>>=◌
  rows-check_user_name false name w = refl
  rows-check_user_name true name w = let same = rows-get_user_by_user_name name w in ground arith

  pub rows-check_email :
      (wanted : Bool) (email : Str) (w : World e)
      → rows_of (check_email wanted email w).1 ≡ rows_of w
  unfolding check_email ◌>>=◌
  rows-check_email false email w = refl
  rows-check_email true email w = let same = rows-get_user_by_email email w in ground arith
