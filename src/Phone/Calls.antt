-- ===== src/Phone/Calls.antt =====
-- internal/phone/call.go: the process-wide call table.
pub mod State
pub mod Channels
pub mod Admission
pub mod Answering
pub mod Leaving
pub mod Inviting
pub mod Tables
pub mod Invariant
pub mod Keeps
pub mod Histories
pub mod Engaged
pub mod Refusals
pub mod Reaching
pub mod Sends
pub mod Telling
pub mod Outcomes
