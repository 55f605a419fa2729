-- ===== src/Frame.antt =====
-- frame.go: operation codes, status codes, headers, frames and the body of close frames.
-- A byte, an OpCode and a StatusCode are numbers, with their ranges as hypotheses where they count.
pub mod Header
pub mod Status
pub mod Build
pub mod Laws
