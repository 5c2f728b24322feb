-- ===== src/Data.antt =====
-- The data layer: app/iam/service/internal/data.
pub mod RefreshTokens
pub mod Mapper
pub mod Otp
pub mod ApplicationRepo
pub mod Paging
pub mod Columns
pub mod Seed
pub mod UserRepo
pub mod AuthnRepo
pub mod OidcStorage
pub mod OidcClients
