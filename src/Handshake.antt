-- ===== src/Handshake.antt =====
-- errors.go, nonce.go, upgrader.go and dialer.go: the opening handshake on both sides.
pub mod Failure
pub mod Nonce
pub mod Options
pub mod Server
pub mod Client
pub mod Answers
pub mod Agreed
pub mod Dialed
pub mod Dials
pub mod Seen
pub mod Steps
pub mod Sound
pub mod Headers
pub mod Selected
pub mod Total
pub mod Answered
pub mod Upgrades
