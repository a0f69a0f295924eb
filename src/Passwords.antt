-- ===== src/Passwords.antt =====
-- internal/setpassword: the change of a password.
pub mod Dialogue
pub mod Proofs
pub mod Changes
pub mod Completion
pub mod Forced
pub mod Screen
