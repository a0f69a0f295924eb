-- ===== src/Registration.antt =====
-- internal/registration/app.go: the registration of new accounts.
pub mod Model
pub mod Submit
pub mod Screen
pub mod Pending
pub mod Checks
pub mod Names
pub mod Codes
