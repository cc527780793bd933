-- ===== src/Text.antt =====
-- Text as a list of code points: what the source uses of `strings`, `strconv` and `fmt` where it
-- walks through a text.
pub mod Space
pub mod Decimal
pub mod Codes
pub mod Trim
