-- ===== src/Oidc.antt =====
-- The OIDC provider's own handlers: app/iam/service/internal/oidc.
pub mod Login
pub mod CryptoKey
pub mod Query
