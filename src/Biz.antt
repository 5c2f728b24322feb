-- ===== src/Biz.antt =====
-- The use cases: app/iam/service/internal/biz.
pub mod Config
pub mod MailRender
pub mod Authn
pub mod Sessions
pub mod Links
pub mod Users
pub mod Runs
pub mod Applications
