-- ===== src/Strings.antt =====
-- The functions of src/stdlib/string.c.
pub mod Token
pub mod Copy
pub mod Scan
pub mod Compare
pub mod Assign
mod Tests
