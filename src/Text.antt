-- ===== src/Text.antt =====
-- util.go: selection functions, numbers in ASCII, and the splitting of lines of HTTP.
pub mod Power
pub mod Decimal
pub mod Codes
pub mod Select
pub mod Numbers
pub mod Split
pub mod Keys
pub mod ReadLine
pub mod LineLaws
pub mod Laws
pub mod Digits
pub mod Canonical
pub mod Blanks
