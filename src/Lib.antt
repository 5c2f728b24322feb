-- ===== src/Lib.antt =====
-- Servora IAM: the identity service of this repository, as a model in which its contracts are proved.
--
-- The service registers users, opens and ends their sessions, and mails links that verify an email
-- address or set a new password. Its layers are the use cases (app/iam/service/internal/biz), the
-- repositories (app/iam/service/internal/data) and what they call: Redis, a SQL database behind ent,
-- bcrypt, a JWT signer and a mail sender. Paths below that start with biz, data, service or server
-- are in app/iam/service/internal.
--
--   Prelude   names of the libraries, Boolean tests, lists, and strings as lists of bytes
--   Errors    the reasons of api/gen/go/servora/*/service/v1/*_errors.pb.go, and results
--   Exec      Go functions that change a state and may fail; what was written before an error stays
--   Platform  what the service calls, as records of operations and laws: Platform.Redis,
--             Platform.Table (a table behind ent), Platform.Crypto (randomness, bcrypt, digests,
--             tokens), Platform.Mailer, Platform.Fga (relationship tuples); Platform.Rows has the
--             rows of data/schema, and the checks of their columns in data/ent; Platform.World has the
--             state of a request, and each call as a step on it
--   Data      RefreshTokens and AuthnRepo: data/authn.go, with the tokens as a map in
--             RefreshTokens.Sessions; Otp: data/otp.go; Mapper: data/mapper.go and profileToJSON of
--             data/user.go; UserRepo: data/user.go; Seed: data/seed.go; Paging: the pages of both
--             lists; Columns: the lengths of columns, which data/ent/user_create.go and user_update.go check;
--             ApplicationRepo: data/application.go;
--             OidcStorage: data/oidc_storage.go, with what it keeps in Redis in Codec; OidcClients:
--             data/oidc_client.go and the clients and users of data/oidc_storage.go
--   Biz       MailRender: biz/mail_render.go; Authn, Sessions and Links: biz/authn.go. Authn has the
--             helpers and SignupByEmail; Sessions the login, RefreshToken, Logout, ChangePassword,
--             LogoutAllDevices and VerifyAccessToken; Links the mailed links;
--             Users: biz/user.go; Runs: requests on sessions in any order, as steps on the state;
--             Applications: biz/application.go
--   Cap       pkg/cap/cap.go: Cap has its operations, Prng the generator of the puzzles
--   Oidc      oidc/login.go and oidc/provider.go: Login has the handlers, CryptoKey the key, Query the
--             escaping of a URL's query
--   Jwks      pkg/jwks: key managers, key sets and what is fetched of them; Base64: the encodings of a
--             key; Cache: the cache of a client under calls that overlap; Discovery: the endpoints
--   Service   the checks of service/authn.go and service/user.go; Header: VerifyAuthorizationHeader;
--             Handlers: the handlers that only pass messages on, and service/application.go
--   Server    server/http.go and server/grpc.go: forwardAuthVerify; Operations: the names of the
--             operations; Access: who may call what
--   Smtp      pkg/mail/smtp.go
--   Slug      Slugify of pkg/helpers/helpers.go, on code points
--   Tests     an environment in memory for which every law of the platform is proved, and each
--             theorem at a concrete input
--
-- A function of the source is a function of the same name in snake case. A request runs on one state
-- with one reading of the clock; times and durations are nanoseconds on the natural numbers. A
-- string is its bytes, a UUID its 16 bytes. An error that the source logs and replaces is replaced;
-- one that it logs and drops is handed on as a value and dropped. Rows leave out the times
-- of creation and update, but for the creation of an application, by which they are listed. A 32-bit
-- integer of a page is its word, and wraps around. The laws of the platform say what is documented of a
-- command that succeeds, that no command touches another key or row, and, for a server that
-- answers, which commands succeed; a command that fails may have been carried out. The loops
-- run over lists, except that of prng, which runs on fuel: as many steps as characters are wanted,
-- though each step writes eight.
--
-- Not modelled: generated code beyond what is named above, the wiring and the routes of the servers,
-- the calls of the relationship store and the transactions that nothing calls, the logs, and requests
-- that overlap in time, but for the cache of Jwks, negative lifetimes of tokens in the configuration,
-- and the panic of the login at a stored JSON null.
pub mod Prelude
pub mod Errors
pub mod Exec
pub mod Platform
pub mod Data
pub mod Cap
pub mod Biz
pub mod Service
pub mod Server
pub mod Oidc
pub mod Jwks
pub mod Slug
pub mod Smtp
pub mod Tests
