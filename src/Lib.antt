-- ===== src/Lib.antt =====
-- Verification of the kernel of this repository: JOS with user environments, preemption, IPC and a
-- user-level library (C, 32-bit x86).
--
-- Parts and files. `Kernel` is the state that the kernel's C files share as one record: `pages`, the
-- free list and the counters of kern/pmap.c, `envs` and its free list of kern/env.c, the contents of
-- physical memory as 32-bit words by page and index, and what belongs to this CPU (its number,
-- `curenv`, cr3, the addresses given to invlpg, the kernel lock). `Kernel.Command` says how a function
-- ends: it returns, enters user mode, stays in the monitor, or panics. A pointer to a struct of an
-- array is its index, NULL is `none`, and a kernel pointer to a page of memory is the page's number.
--   * Mmu, Error: the address arithmetic and the constants of inc/mmu.h, inc/memlayout.h and
--     inc/types.h, and the error codes of inc/error.h.
--   * Pmap: kern/pmap.c and kern/pmap.h. Pages is the page allocator (page_alloc, page_free,
--     page_decref), Tables the page tables (pgdir_walk, page_lookup, page_insert, page_remove,
--     tlb_invalidate), UserMem the check of user pointers (user_mem_check), Boot boot_map_region, Init
--     boot_alloc and page_init, EntryPgdir the tables of kern/entrypgdir.c.
--     `Pmap.Tables.Walk.access` is what the MMU allows by the entries of both levels.
--   * Env: kern/env.c. Table is envid2env, env_init, env_setup_vm and env_alloc, Region region_alloc,
--     Free env_free, Run env_run and env_pop_tf, Destroy env_destroy (and user_mem_assert of
--     kern/pmap.c, which calls it).
--   * Sched: sched_yield of kern/sched.c.
--   * Syscall: the system calls of kern/syscall.c. Process is those on environments, Memory those on
--     address spaces, Ipc the messages, Dispatch the dispatcher.
--   * Trap: kern/trap.c. Fault is page_fault_handler, which leaves a frame on the user exception stack
--     (Stack is the words on that stack, Upcall the frame, Handler the handler's cases), Entry trap
--     and trap_dispatch, with spin_lock of kern/spinlock.c.
--   * Spinlock: kern/spinlock.c as steps of several CPUs.
--   * Console: the input buffer of kern/console.c, in Cga its text screen, in Keyboard kbd_intr.
--     Readline: lib/readline.c.
--   * Str: lib/string.c. Memory is memset and memmove, Chars the functions on strings, Number strtol.
--   * Printf: lib/printfmt.c. Number is printnum, Format vprintfmt over any `putch`, Buffer vsnprintf,
--     Console vcprintf of lib/printf.c and kern/printf.c.
--   * Kdebug: kern/kdebug.c. stab_binsearch, with its loop in Loop and Bounds and its promise in
--     Contract; Info is debuginfo_eip.
--   * Bootloader: boot/main.c over a disk. Mp: kern/mpconfig.c over the firmware's memory, as KADDR
--     maps it.
--   * Fork: lib/fork.c over the system calls: duppage and the loop that calls it, with Flags and Shared
--     about it, and in Fault pgfault, whose loads go through the page tables, with
--     set_pgfault_handler of lib/pgfault.c, and fork. Ipc: lib/ipc.c, with Transfer about it.
--   * Monitor: runcmd of kern/monitor.c, with Parse and Words about its arguments and its commands.
--   * Base: helpers on native numbers, bits and options. Tests: a small machine, and runs on it.
--
-- The system calls use the environment table and the page tables, env_alloc and the page tables use
-- the page allocator, env_destroy and the calls that give up the CPU use the scheduler, and the
-- scheduler ends in env_run.
--
-- Numbers are natural numbers, with the wrap-around of 32-bit and 16-bit fields written out. An
-- `envid_t` and an `int` that can be negative are 32-bit patterns. The options in the source are as
-- the headers set them: TESTING_GRADE_PURPOSE, DEBUG_SPINLOCK and ASM on, __PT_REF__ and __PD_REF__
-- off.
--
-- Fuel. user_mem_check takes a page off the length in each round and has fuel for two rounds more
-- than there are whole pages. The loop of sys_ipc_recv has fuel for one round, since sched_yield
-- does not return into it. stab_binsearch has fuel for two rounds for each stab in its range and
-- two more, which its loop is shown not to exhaust; readseg has fuel for the sectors of its
-- segment. The other loops are counted by their bounds (NENV, the entries of a table, the pages of
-- a region).
--
-- A trap ends in env_run or the scheduler, the dispatcher in a system call, and a page fault of user
-- code in its upcall. What a trap takes from outside the state (cr2, the flags register, a character
-- of the console) is a record of inputs, and monitor of kern/monitor.c is a parameter.
--
-- Not modelled: what is printed on the console; the devices, the descriptor tables and the other
-- instructions on hardware state, apart from cr3 and invlpg; the start of other CPUs, apart from
-- the table that names them, and in the kernel's own state what they do while one waits for the
-- kernel lock; mem_init and load_icode; and the user-level library and programs but for
-- lib/string.c, lib/printfmt.c, lib/readline.c, lib/printf.c, lib/fork.c, lib/pgfault.c and
-- lib/ipc.c. A TLB is only the list of addresses given to invlpg. What other environments do while
-- one waits in ipc_send is a list of changes of the state.
pub mod Base
pub mod Error
pub mod Mmu
pub mod Kernel
pub mod Pmap
pub mod Env
pub mod Sched
pub mod Syscall
pub mod Console
pub mod Str
pub mod Printf
pub mod Spinlock
pub mod Trap
pub mod Fork
pub mod Tests
pub mod Bootloader
pub mod Ipc
pub mod Kdebug
pub mod Monitor
pub mod Mp
pub mod Readline
