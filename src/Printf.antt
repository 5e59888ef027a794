-- ===== src/Printf.antt =====
-- lib/printfmt.c, by its parts.
pub mod Number
pub mod Format
pub mod Buffer
pub mod Console
