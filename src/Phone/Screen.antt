-- ===== src/Phone/Screen.antt =====
-- internal/phone/app.go: the screen program of one session in PHONE.
pub mod Model
pub mod Events
pub mod Actions
pub mod Commands
pub mod Keys
pub mod Coherence
pub mod Receiving
pub mod Commanding
pub mod Typing
pub mod Keyboard
pub mod Together
pub mod Connecting
pub mod Seen
pub mod Mirror
pub mod Filters
pub mod View
pub mod Rows
