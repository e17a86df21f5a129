-- ===== src/Strings.antt =====
-- The rest of what the source uses of Go's `strings`, `unicode/utf8` and `strconv`.
pub mod Space
pub mod Case
pub mod Runes
pub mod Decimal
pub mod Hex
