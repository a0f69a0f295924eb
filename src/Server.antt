-- ===== src/Server.antt =====
-- cmd/server/main.go: logins, the first admin account, and the start and end of a session.
pub mod Login
pub mod Entry
pub mod Bootstrap
pub mod Recovery
pub mod Sessions
