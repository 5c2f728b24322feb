-- ===== src/Biz/Users/Creating.antt =====
-- New users: CreateUser of app/iam/service/internal/biz/user.go and SignupByEmail of
-- app/iam/service/internal/biz/authn.go.
use servora_iam.Prelude.{◌∙◌, ◌≡◌, refl, sym, false, [], ◌∷◌, ◌++◌, Str, arith, none, inl, inr, any}
use servora_iam.Errors.{ok}
use servora_iam.Exec.{◌>>=◌, Result-cases}
use servora_iam.Platform.Rows.{UserRow, users_schema}
use servora_iam.Platform.World.{Env, World, bcrypt_hash, users_insert, new_uuid}
use servora_iam.Data.Mapper.{User, to_proto}
use servora_iam.Data.AuthnRepo
use servora_iam.Data.AuthnRepo.{
  parse_id, get_user_by_user_name, get_user_by_email, role_user, status_active,
}
use servora_iam.Data.AuthnRepo.Updates.{rows_of, bcrypt_hash-checks}
use servora_iam.Data.UserRepo
use servora_iam.Data.UserRepo.{row_of, id_or_new}
use servora_iam.Biz.Config.{Config}
use servora_iam.Biz.Authn.{check_free, signup_by_email, new_user}
use servora_iam.Biz.Users.{create_user, check_user_exists, with_defaults}
use servora_iam.Biz.Users.Frames.{rows-get_user_by_user_name, rows-get_user_by_email}
use servora_iam.Biz.Users.Enrolled.{
  IsEnrolled, rows-bcrypt_hash, rows-send, rows-check_user_exists, rows-id_or_new, inserted,
}

module _ ⦃e : Env⦄ where
  -- The row that SaveUser of the administration created.
  saved_row :
      (u : User) (hashed : Str) (w : World e) {v : User}
      → (UserRepo.save_user u hashed w).0 ≡ ok v
      → (id : Str) × (v ≡ to_proto e.crypto (row_of u hashed id))
        × (any (users_schema.clash (row_of u hashed id)) (rows_of w) ≡ false)
        × (rows_of (UserRepo.save_user u hashed w).1 ≡ rows_of w ++ row_of u hashed id ∷ [])
  unfolding UserRepo.save_user ◌>>=◌
  saved_row u hashed w {v} h = elim (Result-cases (id_or_new u.id w).0) [
    | inl (x, bad) ↦ absurd (ground arith)
    | inr (id, fresh) ↦
        let w_id : World e = (id_or_new u.id w).1 in
        let kept : rows_of w_id ≡ rows_of w = rows-id_or_new u.id w in
        elim (Result-cases (users_insert (row_of u hashed id) w_id).0) [
          | inl (x, refused) ↦ absurd (ground arith)
          | inr (one, done) ↦
              let (unique, added) = inserted (row_of u hashed id) w_id done in
              (id, ground arith, rw (sym kept) unique, ground (arith, added, kept))
        ]
  ]

  module _ (cfg : Config) (user : User) (password : Str) (w : World e) where
    -- A CreateUser that succeeds adds one row, for the names of the request and its role or else
    -- "user", that collides with no other, is not verified, and has a hash of the password.
    pub create_user-IsEnrolled :
        {u : User}
        → (create_user cfg user password w).0 ≡ ok u
        → IsEnrolled user.username user.email password
            (with_defaults user).role
            u
            w
            (create_user cfg user password w).1
    unfolding create_user ◌>>=◌
    create_user-IsEnrolled {u} done =
        let free = check_user_exists user.username user.email in
        let w_free : World e = (free w).1 in
        elim (Result-cases (free w).0) [
          | inl (x, taken) ↦ absurd (ground arith)
          | inr (one, is_free) ↦ elim (Result-cases (bcrypt_hash password w_free).0) [
            | inl (x, failed) ↦ absurd (ground arith)
            | inr (hashed, drawn) ↦
                let w_hash : World e = (bcrypt_hash password w_free).1 in
                let saved = UserRepo.save_user (with_defaults user) hashed w_hash in
                elim (Result-cases saved.0) [
                  | inl (x, refused) ↦ absurd (ground arith)
                  | inr (v, stored) ↦
                      let (id, message, unique, added) =
                        saved_row (with_defaults user) hashed w_hash stored in
                      let kept =
                        rows-bcrypt_hash password w_free
                        ∙ rows-check_user_exists user.username user.email w in
                      unfold row_of with_defaults in
                      record {
                        row = row_of (with_defaults user) hashed id;
                        message = ground (arith, message);
                        username = refl;
                        email = refl;
                        role = refl;
                        email_verified = refl;
                        deleted_at = refl;
                        checks = bcrypt_hash-checks password w_free drawn;
                        unique = rw (sym kept) unique;
                        rows = ground (arith, added, kept, rows-send cfg v saved.1);
                      }
                ]
          ]
        ]

  -- The row that SaveUser of the authentication created.
  saved_signup :
      (u : User) (hashed : Str) (w : World e) {v : User}
      → (AuthnRepo.save_user u hashed w).0 ≡ ok v
      → (row : UserRow) × (v ≡ to_proto e.crypto row)
        × (any (users_schema.clash row) (rows_of w) ≡ false)
        × (rows_of (AuthnRepo.save_user u hashed w).1 ≡ rows_of w ++ row ∷ [])
        × (row.username ≡ u.username)
        × (row.email ≡ u.email)
        × (row.role ≡ u.role)
        × (row.email_verified ≡ false)
        × (row.deleted_at ≡ none)
        × (row.password ≡ hashed)
  unfolding AuthnRepo.save_user new_uuid ◌>>=◌
  saved_signup u hashed w {v} h =
      let row : UserRow = record {
        id = (e.crypto.new_uuid w.source).0;
        username = u.username;
        email = u.email;
        password = hashed;
        phone = [];
        phone_verified = false;
        role = u.role;
        status = status_active;
        email_verified = false;
        email_verified_at = none;
        profile = none;
        deleted_at = none;
      } in
      let w_id : World e = record w { source = (e.crypto.new_uuid w.source).1 } in
      elim (Result-cases (users_insert row w_id).0) [
        | inl (x, refused) ↦ absurd (ground arith)
        | inr (one, done) ↦
            let (unique, added) = inserted row w_id done in
            (row, ground arith, unique, ground (arith, added), refl, refl, refl, refl, refl, refl)
      ]

  module _ (cfg : Config) (username email password : Str) (w : World e) where
    -- A SignupByEmail that succeeds adds one row, for the names of the request and the role "user",
    -- that collides with no other, is not verified, and has a hash of the password.
    pub signup_by_email-IsEnrolled :
        {u : User}
        → (signup_by_email cfg username email password w).0 ≡ ok u
        → IsEnrolled username email password role_user u w
            (signup_by_email cfg username email password w).1
    unfolding signup_by_email ◌>>=◌
    signup_by_email-IsEnrolled {u} done =
        let w_name : World e = (get_user_by_user_name username w).1 in
        let w_free : World e = (get_user_by_email email w_name).1 in
        let named : rows_of w_free ≡ rows_of w =
          rows-get_user_by_email email w_name ∙ rows-get_user_by_user_name username w in
        elim (Result-cases
          (check_free (get_user_by_user_name username w).0 "username already exists")) [
            | inl (x, taken) ↦ absurd (ground arith)
            | inr (one, free) ↦
                elim (Result-cases
                  (check_free (get_user_by_email email w_name).0 "email already exists")) [
                    | inl (x, taken) ↦ absurd (ground arith)
                    | inr (two, free') ↦ elim (Result-cases (bcrypt_hash password w_free).0) [
                      | inl (x, failed) ↦ absurd (ground arith)
                      | inr (hashed, drawn) ↦
                          let w_hash : World e = (bcrypt_hash password w_free).1 in
                          let saved = AuthnRepo.save_user (new_user username email) hashed w_hash in
                          elim (Result-cases saved.0) [
                            | inl (x, refused) ↦ absurd (ground arith)
                            | inr (v, stored) ↦
                                let (row, message, unique, added, a, b, c, d, f, g) =
                                  saved_signup (new_user username email) hashed w_hash stored in
                                let kept = rows-bcrypt_hash password w_free ∙ named in
                                record {
                                  row = row;
                                  message = ground (arith, message);
                                  username = a;
                                  email = b;
                                  role = c;
                                  email_verified = d;
                                  deleted_at = f;
                                  checks = rw g (bcrypt_hash-checks password w_free drawn);
                                  unique = rw (sym kept) unique;
                                  rows = ground (arith, added, kept, rows-send cfg v saved.1);
                                }
                          ]
                    ]
                  ]
          ]
