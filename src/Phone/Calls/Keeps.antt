-- ===== src/Phone/Calls/Keeps.antt =====
-- internal/phone/call.go: the soundness of the call table, operation by operation.
pub mod Dialing
pub mod Answering
pub mod Rejecting
pub mod Inviting
pub mod Teardown
pub mod Leaving
pub mod Reaping
pub mod Notices
