-- ===== src/Writer.antt =====
-- msutil/writer.go: buffered writing of messages as frames.
pub mod Result
pub mod Buffer
pub mod Flush
pub mod Write
pub mod Control
pub mod ReadFrom
pub mod Laws
pub mod Sending
pub mod Fragments
pub mod Progress
pub mod Rounds
pub mod Copy
pub mod Loop
pub mod Message
pub mod Session
