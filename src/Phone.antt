-- ===== src/Phone.antt =====
-- internal/phone: the PHONE facility.
pub mod Calls
pub mod Layout
pub mod Viewport
pub mod Screen
