-- ===== src/Syscall.antt =====
-- kern/syscall.c, by what the calls are about.
pub mod Caller
pub mod Process
pub mod Memory
pub mod Ipc
pub mod Dispatch
