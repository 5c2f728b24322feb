-- ===== src/Tests/Memory.antt =====
-- An environment in memory.
pub mod Kv
pub mod Rows
pub mod Relations
pub mod Services
pub mod Text
use servora_iam.Prelude.{[], Str, bytes, ℕ}
use servora_iam.Platform.Rows.{users_schema, applications_schema, UserRow}
use servora_iam.Platform.World.{Env, World}
use Kv.{memory_redis, Entry}
use Rows.{memory_table}
use Services.{memory_crypto, memory_jwt, memory_mailer}

instance abbrev pub memory : Env
memory = record {
  redis = memory_redis;
  users = memory_table users_schema;
  applications = memory_table applications_schema;
  crypto = memory_crypto;
  jwt = memory_jwt;
  mailer = memory_mailer;
}

-- Nothing is stored.
abbrev pub blank : World memory
blank = record {
  kv = λ key. Entry.absent;
  users = [];
  applications = [];
  source = 0;
  outbox = [];
  clock = 0;
}
