-- ===== src/Text.antt =====
-- The functions of Go's packages `strings` and `strconv` that the program calls, over byte strings.
pub mod Split
pub mod Decimal
pub mod Hex
pub mod Fields
pub mod Integer
