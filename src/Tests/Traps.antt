-- ===== src/Tests/Traps.antt =====
-- Runs of the code of kern/trap.c.
use library_os_exokernel_imp.Base.{ℕ, ◌≡◌, refl, inl, some, none, ◌&&◌, ◌==◌, if◌then◌else◌, arith}
use library_os_exokernel_imp.Error.{err, inval, to_word}
use library_os_exokernel_imp.Kernel.{Kernel, Env, Trapframe, zero_tf, zero_regs, env_running}
use library_os_exokernel_imp.Kernel.Command.{returned, running, done}
use library_os_exokernel_imp.Env.Table.{zero_env}
use library_os_exokernel_imp.Env.Run.Enter.{Entered}
use library_os_exokernel_imp.Pmap.Tables.{pgdir_walk}
use library_os_exokernel_imp.Pmap.UserMem.{user_mem_check}
use library_os_exokernel_imp.Pmap.UserMem.Sound.{IsDirectory}
use library_os_exokernel_imp.Syscall.Dispatch.{syscall}
use library_os_exokernel_imp.Trap.Entry.{Signals, trap}
use library_os_exokernel_imp.Trap.Entry.Resume.{IsUser, answered, arrived, trap-syscall}
use library_os_exokernel_imp.Trap.Fault.{page_fault_handler}
use library_os_exokernel_imp.Trap.Fault.Stack.{IsMapped}
use library_os_exokernel_imp.Trap.Fault.Upcall.{Delivered}
use library_os_exokernel_imp.Trap.Fault.Handler.{IsReady, page_fault_handler-Delivered}
use library_os_exokernel_imp.Tests.Machine.{machine, test_frame}

-- Environment 0 has its upcall in page 4, at 32, and its exception stack in page 5, mapped by the
-- table in page 6.
abbrev stack_frame : ℕ → ℕ → ℕ
stack_frame p i =
    if (p == 2) && (i == 954)
    then 24_583
    else if (p == 6) && (i == 1023)
    then 20_487
    else test_frame p i

abbrev with_upcall : ℕ → Env
with_upcall e = record zero_env {
  env_id = 4096;
  env_status = env_running;
  env_pgdir = some 2;
  env_pgfault_upcall = 32;
}

abbrev faulting : Kernel
faulting = record machine { frame = stack_frame; envs = with_upcall }

faulting-IsDirectory : IsDirectory faulting 2
faulting-IsDirectory = record { fits = omega arith; in_memory = λ i h. ground arith }

faulting-IsMapped : IsMapped faulting 5
faulting-IsMapped = record {
  table = 6;
  entry = refl;
  table_there = refl;
  table_writable = refl;
  page = refl;
  there = refl;
  writable = refl;
  not_directory = ground arith;
  not_table = ground arith;
}

faulting-IsReady : IsReady 0 2 5 faulting
unfolding user_mem_check pgdir_walk
faulting-IsReady = record {
  current = refl;
  space = refl;
  tables = faulting-IsDirectory;
  mapped = faulting-IsMapped;
  locked = refl;
  upcall = ground arith;
  upcall_good = refl;
  stack_good = refl;
}

-- A user frame, with eax and esp.
abbrev user_frame : (trapno eax esp : ℕ) → Trapframe
user_frame trapno eax esp = record zero_tf {
  tf_regs = record zero_regs { reg_eax = eax };
  tf_trapno = trapno;
  tf_cs = 27;
  tf_esp = esp;
}

page_fault_handler-Delivered_example :
    (k' : Kernel) × (page_fault_handler 12_345 (user_frame 14 1 4_000_000) faulting ≡ running k')
    × Delivered 0 5 1011 12_345 (user_frame 14 1 4_000_000) faulting k'
page_fault_handler-Delivered_example =
    page_fault_handler-Delivered 0 2 5 12_345 (user_frame 14 1 4_000_000) faulting faulting-IsReady
      refl (inl (omega arith))

abbrev in_user_mode : Kernel
in_user_mode = record machine { kernel_lock = none }

in_user_mode-IsUser : IsUser 0 in_user_mode
in_user_mode-IsUser = record { current = refl; alive = ground arith; unlocked = refl }

abbrev quiet : Signals
quiet = record { cr2 = 0; eflags = 0; char = 0 }

-- 99 is no system call.
unknown :
    syscall 0 99 0 0 0 0 0 (arrived 0 (user_frame 48 99 0) in_user_mode)
    ≡ returned (err inval) (arrived 0 (user_frame 48 99 0) in_user_mode)
unfolding syscall
unknown = refl

trap-syscall_example :
    (k' : Kernel) × (trap done quiet (user_frame 48 99 0) in_user_mode ≡ running k')
    × Entered 0 2
        (answered 0 (to_word (err inval)) (arrived 0 (user_frame 48 99 0) in_user_mode))
        k'
    × ((k'.envs 0).env_tf.tf_regs.reg_eax ≡ to_word (err inval))
trap-syscall_example =
    trap-syscall done quiet 0 2 (user_frame 48 99 0) in_user_mode
      (arrived 0 (user_frame 48 99 0) in_user_mode) (err inval) in_user_mode-IsUser refl refl
      unknown refl refl refl refl
