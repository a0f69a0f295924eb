-- ===== src/Store.antt =====
-- internal/store: accounts and invites.
pub mod Schema
pub mod Rows
pub mod Accounts
pub mod Invites
pub mod Redemption
pub mod Plan
pub mod Admins
pub mod Histories
pub mod Standing
pub mod LastAdmin
pub mod Lockout
pub mod Bans
