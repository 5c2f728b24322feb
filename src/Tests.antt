-- ===== src/Tests.antt =====
-- The tests: an environment in memory, in which every law of the platform holds, and each theorem
-- at a concrete input.
pub mod Memory
pub mod Worlds
mod Tokens
pub mod Sessions
mod Links
mod Users
mod Captcha
mod Handlers
pub mod Applications
mod Slugs
pub mod Oidc
mod Logins
mod Clients
mod Keys
mod Gateway
mod Seeds
mod Lists
mod Access
mod Columns
mod Refined
