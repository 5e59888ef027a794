-- ===== src/Str.antt =====
-- lib/string.c.
pub mod Chars
pub mod Memory
pub mod Number
