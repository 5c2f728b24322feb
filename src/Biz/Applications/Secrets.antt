-- ===== src/Biz/Applications/Secrets.antt =====
-- The secrets of OIDC clients: Create and RegenerateClientSecret of
-- app/iam/service/internal/biz/application.go.
use servora_iam.Prelude.{
  ◌∙◌, sym, ℕ, zero, suc, ◌+◌, ◌<◌, ◌≡◌, refl, true, false, none, some, List, [], ◌∷◌, ◌++◌, Str,
  arith, Option-cases, Bool-cases, inl, inr, modify, any, length,
}
use servora_iam.Errors.{ok}
use servora_iam.Exec.{◌>>=◌, Result-cases}
use servora_iam.Platform.Table.{count}
use servora_iam.Platform.Rows.{ApplicationRow, applications_schema}
use servora_iam.Platform.World.{
  Env, World, applications_insert, applications_update_where, bcrypt_hash, bcrypt_check, rand_read,
  new_uuid, hex,
}
use servora_iam.Data.AuthnRepo.{parse_id}
use servora_iam.Data.AuthnRepo.Updates.{bcrypt_hash-checks}
use servora_iam.Data.ApplicationRepo
use servora_iam.Data.ApplicationRepo.{
  Application, application_to_proto, application_row, present_application, some_changed,
  update_client_secret_hash,
}
use servora_iam.Biz.Applications.{generate_random_hex, create, regenerate_client_secret}

length-hex : (bs : List ℕ) → length (hex bs) ≡ length bs + length bs
unfolding hex
length-hex [] = refl
length-hex (b ∷ bs) = omega (arith, length-hex bs)

module _ ⦃e : Env⦄ where
  abbrev pub applications_of : World e → List ApplicationRow
  applications_of w = e.applications.rows w.applications

  rows-hash :
      (password : Str) (w : World e)
      → applications_of (bcrypt_hash password w).1 ≡ applications_of w
  unfolding bcrypt_hash
  rows-hash password w = refl

  rows-hex : (n : ℕ) (w : World e) → applications_of (generate_random_hex n w).1 ≡ applications_of w
  unfolding generate_random_hex rand_read ◌>>=◌
  rows-hex n w = ground arith

  hex_size : (n : ℕ) (w : World e) {s : Str} → (generate_random_hex n w).0 ≡ ok s → length s ≡ n + n
  unfolding generate_random_hex rand_read ◌>>=◌
  hex_size n w {s} h = elim (Option-cases (e.crypto.read n w.source).0) [
    | inl failed ↦ absurd (ground arith)
    | inr (bs, drawn) ↦ ground (arith, length-hex bs, e.crypto.read_length n w.source drawn)
  ]

  changed_pos : (n : ℕ) (w : World e) → (some_changed n w).0 ≡ ok tt → 0 < n
  unfolding some_changed
  changed_pos zero w h = cc
  changed_pos (suc n) w h = omega arith

  -- An update of the hash that succeeds.
  rehashed :
      (id hash : Str) (w : World e)
      → (update_client_secret_hash id hash w).0 ≡ ok tt
      → (uid : Str) × (e.crypto.parse_uuid id ≡ some uid)
        × (0 < count (present_application uid) (applications_of w))
        × (applications_of (update_client_secret_hash id hash w).1
            ≡ modify
                (present_application uid)
                (λ r. record r { client_secret_hash = hash })
                (applications_of w))
  unfolding update_client_secret_hash parse_id applications_update_where some_changed ◌>>=◌
  rehashed id hash w h = elim (Option-cases (e.crypto.parse_uuid id)) [
    | inl bad ↦ absurd (ground arith)
    | inr (uid, parsed) ↦
        let test = present_application uid in
        let change : ApplicationRow → ApplicationRow =
          λ r. record r { client_secret_hash = hash } in
        elim (Option-cases (e.applications.update_where test change w.applications).0) [
          | inl failed ↦ absurd (ground arith)
          | inr (n, found) ↦
              let (rows, number) =
                e.applications.update_where_rows test change w.applications found in
              let v : World e = (applications_update_where test change w).1 in
              let fine : (some_changed n v).0 ≡ ok tt = ground arith in
              let positive = changed_pos n v fine in
              (uid, parsed, rw (sym number) positive, ground (arith, rows))
        ]
  ]

  -- A RegenerateClientSecret that succeeds hands out a secret of 64 characters, finds an application
  -- with the id that is not deleted, and changes nothing but that its secret is now checked by a hash
  -- of the new one.
  pub regenerate_client_secret_lem :
      (id : Str) (w : World e) {secret : Str}
      → (regenerate_client_secret id w).0 ≡ ok secret
      → (length secret ≡ 64)
        × (uid hash : Str) × (e.crypto.parse_uuid id ≡ some uid)
        × (bcrypt_check secret hash ≡ true)
        × (0 < count (present_application uid) (applications_of w))
        × (applications_of (regenerate_client_secret id w).1
            ≡ modify
                (present_application uid)
                (λ r. record r { client_secret_hash = hash })
                (applications_of w))
  unfolding regenerate_client_secret ◌>>=◌
  regenerate_client_secret_lem id w {secret} done =
      elim (Result-cases (generate_random_hex 32 w).0) [
        | inl (x, failed) ↦ absurd (ground arith)
        | inr (plain, drawn) ↦
            let v : World e = (generate_random_hex 32 w).1 in
            elim (Result-cases (bcrypt_hash plain v).0) [
              | inl (x, failed) ↦ absurd (ground arith)
              | inr (hash, hashed) ↦
                  let v' : World e = (bcrypt_hash plain v).1 in
                  let updated : (update_client_secret_hash id hash v').0 ≡ ok tt = ground arith in
                  let same : secret ≡ plain = ground arith in
                  let (uid, parsed, found, changed) = rehashed id hash v' updated in
                  let kept : applications_of v' ≡ applications_of w =
                    rows-hash plain v ∙ rows-hex 32 w in
                  (
                    rw same (hex_size 32 w drawn),
                    uid,
                    hash,
                    parsed,
                    rw same (bcrypt_hash-checks plain v hashed),
                    rw (sym kept) found,
                    ground (arith, changed, kept),
                  )
            ]
      ]

  created_row :
      (app : Application) (hash : Str) (w : World e) {a : Application}
      → (ApplicationRepo.create app hash w).0 ≡ ok a
      → (id : Str) × (a ≡ application_to_proto e.crypto (application_row app hash id w.clock))
        × (any (applications_schema.clash (application_row app hash id w.clock)) (applications_of w)
            ≡ false)
        × (applications_of (ApplicationRepo.create app hash w).1
            ≡ applications_of w ++ application_row app hash id w.clock ∷ [])
  unfolding ApplicationRepo.create new_uuid applications_insert ◌>>=◌
  created_row app hash w {a} h =
      let id : Str = (e.crypto.new_uuid w.source).0 in
      let row = application_row app hash id w.clock in
      elim (Bool-cases (e.applications.insert row w.applications).0) [
        | inr refused ↦ absurd (ground arith)
        | inl done ↦ (
          id,
          ground arith,
          e.applications.insert_unique row w.applications done,
          ground (arith, e.applications.insert_rows row w.applications done),
        )
      ]

  -- A Create that succeeds adds one application that is not deleted, with a client id of 32 characters that no other has,
  -- and hands out a secret of 64 characters that its hash checks.
  pub create_lem :
      (app a : Application) (secret : Str) (w : World e)
      → (create app w).0 ≡ ok (a, secret)
      → (length a.client_id ≡ 32)
        × (length secret ≡ 64)
        × (row : ApplicationRow) × (a ≡ application_to_proto e.crypto row)
        × (bcrypt_check secret row.client_secret_hash ≡ true)
        × (row.deleted_at ≡ none)
        × (any (applications_schema.clash row) (applications_of w) ≡ false)
        × (applications_of (create app w).1 ≡ applications_of w ++ row ∷ [])
  unfolding create application_row application_to_proto ◌>>=◌
  create_lem app a secret w done = elim (Result-cases (generate_random_hex 16 w).0) [
    | inl (x, failed) ↦ absurd (ground arith)
    | inr (client_id, drawn) ↦
        let v₁ : World e = (generate_random_hex 16 w).1 in
        elim (Result-cases (generate_random_hex 32 v₁).0) [
          | inl (x, failed) ↦ absurd (ground arith)
          | inr (plain, drawn') ↦
              let v₂ : World e = (generate_random_hex 32 v₁).1 in
              elim (Result-cases (bcrypt_hash plain v₂).0) [
                | inl (x, failed) ↦ absurd (ground arith)
                | inr (hash, hashed) ↦
                    let v₃ : World e = (bcrypt_hash plain v₂).1 in
                    let named : Application = record app { client_id = client_id } in
                    let kept : applications_of v₃ ≡ applications_of w =
                      rows-hash plain v₂ ∙ (rows-hex 32 v₁ ∙ rows-hex 16 w) in
                    elim (Result-cases (ApplicationRepo.create named hash v₃).0) [
                      | inl (x, refused) ↦ absurd (ground arith)
                      | inr (b, created) ↦
                          let (id, message, unique, added) = created_row named hash v₃ created in
                          let same : secret ≡ plain = ground arith in
                          let same' : a ≡ b = ground arith in
                          (
                            rw (same', message) (hex_size 16 w drawn),
                            rw same (hex_size 32 v₁ drawn'),
                            application_row named hash id v₃.clock,
                            same' ∙ message,
                            rw same (bcrypt_hash-checks plain v₂ hashed),
                            refl,
                            rw (sym kept) unique,
                            ground (arith, added, kept),
                          )
                    ]
              ]
        ]
  ]
