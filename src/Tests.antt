-- ===== src/Tests.antt =====
-- Runs of the model at concrete inputs, and the theorems applied at them.
mod Frames
mod Ciphers
mod Texts
mod Lines
mod Buffers
mod Handshakes
mod Writers
mod Messages
