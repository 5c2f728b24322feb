-- ===== src/Platform/Frames.antt =====
-- Steps that leave Redis and the clock alone.
use servora_iam.Prelude.{◌≡◌}
use servora_iam.Platform.World.{Env, World}

module _ ⦃e : Env⦄ where
  -- Redis and the clock stay as they are.
  pub record Offline (w w' : World e) : Type 0 where
    pub kv : w'.kv ≡ w.kv
    pub clock : w'.clock ≡ w.clock

  -- Nothing but Redis changes.
  pub record OnRedis (w w' : World e) : Type 0 where
    pub users : w'.users ≡ w.users
    pub applications : w'.applications ≡ w.applications
    pub source : w'.source ≡ w.source
    pub outbox : w'.outbox ≡ w.outbox
    pub clock : w'.clock ≡ w.clock
