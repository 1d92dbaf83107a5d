-- ===== src/Auth.antt =====
-- cmd/web-bff/main.go: sessions, OAuth states, logins and the middleware that guards the API.
-- A handler returns the server's new state beside its response. What the handlers take from
-- outside (the clock, random tokens, GitHub's answers, the rows that a query returns) stands in an
-- `Env`, one for each request; a request reads the clock once.
pub mod Directory
pub mod Authorize
pub mod Stores
pub mod Handlers
pub mod Sessions
pub mod Callback
pub mod Redirects
mod Tests
