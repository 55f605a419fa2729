-- ===== src/Http.antt =====
-- http.go: the lines of a handshake and the headers that the library writes.
pub mod Lines
pub mod Requests
pub mod AnswerText
