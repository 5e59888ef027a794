-- ===== src/Trap.antt =====
-- kern/trap.c: page faults of user code, and the way from the entry of a trap back to user mode.
pub mod Fault
pub mod Entry
