-- ===== src/Tests.antt =====
-- The theorems at concrete inputs, by component.
mod Accounts
mod Screens
mod Sessions
mod Conversations
mod Phones
mod Registrations
mod Servers
mod Commands
mod Passwords
