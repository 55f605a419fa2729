-- ===== src/Reader.antt =====
-- msutil/reader.go and msutil/cipher.go: reading messages, and ciphering on the fly.
pub mod Ciphers
pub mod Body
pub mod Messages
pub mod Handler
pub mod Helpers
pub mod Laws
pub mod Delivery
pub mod Loops
pub mod ReadMessage
pub mod ReadData
pub mod Accepted
pub mod Partway
pub mod Pieces
pub mod Payloads
pub mod Whole
pub mod Opening
pub mod Receives
pub mod Exchange
pub mod Collected
pub mod DataExchange
pub mod Passing
pub mod Fragmented
pub mod Assembly
pub mod WriterExchange
