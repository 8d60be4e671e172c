-- ===== src/Stdio.antt =====
-- src/stdlib/stdio.c: numbers as text, and the formats of `printf` and `sprintf`.
pub mod Itoa
pub mod Args
pub mod Printf
pub mod Sprintf
pub mod Text
mod Tests
