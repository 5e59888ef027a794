-- ===== src/Pmap.antt =====
-- kern/pmap.c, by its parts.
pub mod Boot
pub mod Init
pub mod EntryPgdir
pub mod Pages
pub mod Tables
pub mod UserMem
