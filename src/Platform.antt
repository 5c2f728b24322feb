-- ===== src/Platform.antt =====
-- What the service runs on: the packages and servers that it calls, as parameters with laws, and
-- the state of a request.
pub mod Redis
pub mod Fga
pub mod Table
pub mod Crypto
pub mod Mailer
pub mod Rows
pub mod World
pub mod Frames
pub mod Json
