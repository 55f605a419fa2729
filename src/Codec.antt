-- ===== src/Codec.antt =====
-- read.go and write.go: frames on the wire.
pub mod Write
pub mod Read
pub mod Bits
pub mod Extra
pub mod RoundTrip
pub mod Pieces
pub mod Frames
