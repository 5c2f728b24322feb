-- ===== src/Platform/World.antt =====
-- The state that a request works on, and the calls of the platform as steps on it. One clock
-- reading serves a whole request.
use servora_iam.Prelude.{
  ℕ, ◌/◌, ◌%◌, ◌+◌, Bool, true, false, List, [], ◌∷◌, Str, ltb, ℤ, if◌then◌else◌,
}
use servora_iam.Errors.{Result, ok, err, failure}
use servora_iam.Exec.{Exec, result_of_option}
use servora_iam.Platform.Redis.{Redis}
use servora_iam.Platform.Table.{Table}
use servora_iam.Platform.Crypto.{Crypto, Jwt}
use servora_iam.Platform.Mailer.{Mailer, Email}
use servora_iam.Platform.Rows.{
  UserRow, ApplicationRow, users_schema, applications_schema, user_fits, application_fits,
}

pub record Env : Type 1 where
  pub redis : Redis
  pub users : Table users_schema
  pub applications : Table applications_schema
  pub crypto : Crypto
  pub jwt : Jwt
  pub mailer : Mailer

pub record World (e : Env) : Type 0 where
  pub kv : e.redis.Store
  pub users : e.users.State
  pub applications : e.applications.State
  pub source : e.crypto.Source
  pub outbox : e.mailer.Outbox
  pub clock : ℕ

-- A call that reports an error by a flag.
abbrev pub done_or_failure : Bool → Result Unit
done_or_failure true = ok tt
done_or_failure false = err failure

-- hex.EncodeToString
abbrev pub hex_digit : ℕ → ℕ
hex_digit n = if ltb n 10 then b'0' + n else 87 + n

unfoldable pub hex : List ℕ → Str
hex [] = []
hex (b ∷ bs) = hex_digit (b / 16) ∷ hex_digit (b % 16) ∷ hex bs

module _ ⦃e : Env⦄ where
  abbrev pub Action : Type 0 → Type 0
  Action A = Exec (World e) A

  unfoldable pub redis_set : Str → Str → ℕ → Action Unit
  redis_set key val ttl w =
      let (done, kv) = e.redis.set key val ttl w.clock w.kv in
      (done_or_failure done, record w { kv = kv })

  unfoldable pub redis_get : Str → Action Str
  redis_get key w =
      let (found, kv) = e.redis.get key w.clock w.kv in
      (result_of_option found failure, record w { kv = kv })

  unfoldable pub redis_get_del : Str → Action Str
  redis_get_del key w =
      let (found, kv) = e.redis.get_del key w.clock w.kv in
      (result_of_option found failure, record w { kv = kv })

  unfoldable pub redis_del : Str → Action Unit
  redis_del key w =
      let (done, kv) = e.redis.del key w.kv in (done_or_failure done, record w { kv = kv })

  unfoldable pub redis_s_add : Str → Str → Action Unit
  redis_s_add key x w =
      let (done, kv) = e.redis.s_add key x w.clock w.kv in
      (done_or_failure done, record w { kv = kv })

  unfoldable pub redis_s_members : Str → Action (List Str)
  redis_s_members key w =
      let (found, kv) = e.redis.s_members key w.clock w.kv in
      (result_of_option found failure, record w { kv = kv })

  unfoldable pub redis_expire : Str → ℕ → Action Unit
  redis_expire key ttl w =
      let (done, kv) = e.redis.expire key ttl w.clock w.kv in
      (done_or_failure done, record w { kv = kv })

  unfoldable pub users_select : (UserRow → Bool) → Action (List UserRow)
  users_select test w =
      let (found, users) = e.users.select test w.users in
      (result_of_option found failure, record w { users = users })

  unfoldable pub users_count : (UserRow → Bool) → Action ℕ
  users_count test w =
      let (found, users) = e.users.count_where test w.users in
      (result_of_option found failure, record w { users = users })

  unfoldable pub users_page :
      (UserRow → Bool) → (UserRow → UserRow → Bool) → (offset limit : ℤ) → Action (List UserRow)
  users_page test before offset limit w =
      let (found, users) = e.users.page test before offset limit w.users in
      (result_of_option found failure, record w { users = users })

  unfoldable pub users_insert : UserRow → Action Unit
  users_insert r w =
      let (done, users) = e.users.insert r w.users in
      if user_fits r then (done_or_failure done, record w { users = users }) else (err failure, w)

  unfoldable pub users_update : Str → (UserRow → UserRow) → Action UserRow
  users_update id change w =
      let (found, users) = e.users.update id change w.users in
      (result_of_option found failure, record w { users = users })

  unfoldable pub users_delete : Str → Action Unit
  users_delete id w =
      let (done, users) = e.users.delete id w.users in
      (done_or_failure done, record w { users = users })

  unfoldable pub new_uuid : Action Str
  new_uuid w =
      let (id, source) = e.crypto.new_uuid w.source in (ok id, record w { source = source })

  unfoldable pub rand_read : ℕ → Action (List ℕ)
  rand_read n w =
      let (found, source) = e.crypto.read n w.source in
      (result_of_option found failure, record w { source = source })

  -- helpers.BcryptHash and helpers.BcryptCheck: pkg/helpers/hash.go
  unfoldable pub bcrypt_hash : Str → Action Str
  bcrypt_hash password w =
      let (found, source) = e.crypto.bcrypt_generate password w.source in
      (result_of_option found failure, record w { source = source })

  unfoldable pub bcrypt_check : Str → Str → Bool
  bcrypt_check password hash = e.crypto.bcrypt_compare hash password

  unfoldable pub send_mail : Email → Action Unit
  send_mail m w =
      let (done, outbox) = e.mailer.send m w.outbox in
      (done_or_failure done, record w { outbox = outbox })

  unfoldable pub applications_select : (ApplicationRow → Bool) → Action (List ApplicationRow)
  applications_select test w =
      let (found, applications) = e.applications.select test w.applications in
      (result_of_option found failure, record w { applications = applications })

  unfoldable pub applications_insert : ApplicationRow → Action Unit
  applications_insert r w =
      let (done, applications) = e.applications.insert r w.applications in
      if application_fits r
      then (done_or_failure done, record w { applications = applications })
      else (err failure, w)

  unfoldable pub applications_update_where :
      (ApplicationRow → Bool) → (ApplicationRow → ApplicationRow) → Action ℕ
  applications_update_where test change w =
      let (found, applications) = e.applications.update_where test change w.applications in
      (result_of_option found failure, record w { applications = applications })

  unfoldable pub applications_count : (ApplicationRow → Bool) → Action ℕ
  applications_count test w =
      let (found, applications) = e.applications.count_where test w.applications in
      (result_of_option found failure, record w { applications = applications })

  unfoldable pub applications_page :
      (ApplicationRow → Bool)
      → (ApplicationRow → ApplicationRow → Bool)
      → (offset limit : ℤ) → Action (List ApplicationRow)
  applications_page test before offset limit w =
      let (found, applications) = e.applications.page test before offset limit w.applications in
      (result_of_option found failure, record w { applications = applications })
