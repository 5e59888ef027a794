-- ===== src/Tests/Forks.antt =====
-- Runs of the code that shares pages: sys_page_map, and duppage of lib/fork.c.
use library_os_exokernel_imp.Base.{
  ℕ, ◌≡◌, refl, ◌&&◌, true, false, some, ◌==◌, if◌then◌else◌, arith,
}
use library_os_exokernel_imp.Mmu.{ptx}
use library_os_exokernel_imp.Error.{ok}
use library_os_exokernel_imp.Kernel.{Kernel, Env, env_running, env_not_runnable}
use library_os_exokernel_imp.Kernel.Command.{returned}
use library_os_exokernel_imp.Env.Table.{zero_env, envid2env, found}
use library_os_exokernel_imp.Pmap.Tables.Walk.{HasTable}
use library_os_exokernel_imp.Pmap.Tables.Written.{EntryInMemory}
use library_os_exokernel_imp.Pmap.Tables.Insert.{Inserted}
use library_os_exokernel_imp.Syscall.Memory.{sys_page_map}
use library_os_exokernel_imp.Syscall.Memory.Map.{IsPresent, sys_page_map-Inserted}
use library_os_exokernel_imp.Fork.{duppage}
use library_os_exokernel_imp.Fork.Flags.{marked}
use library_os_exokernel_imp.Fork.Shared.{IsForking, Shared, va_of, duppage-Shared}
use library_os_exokernel_imp.Tests.Machine.{machine, test_frame}

-- Environment 0 maps page 4 at 0; its child, environment 2, has the directory in page 5 and a
-- table in page 6 that is empty.
abbrev child_frame : ℕ → ℕ → ℕ
child_frame p i = if (p == 5) && (i == 0) then 24_583 else test_frame p i

abbrev family : ℕ → Env
family e =
    if e == 2
    then record zero_env {
      env_id = 4098;
      env_parent_id = 4096;
      env_status = env_not_runnable;
      env_pgdir = some 5;
    }
    else record zero_env { env_id = 4096; env_status = env_running; env_pgdir = some 2 }

abbrev forking : Kernel
forking = record machine { frame = child_frame; envs = family }

forking-parent : envid2env 0 true forking ≡ returned (found (some 0)) forking
unfolding envid2env
forking-parent = refl

forking-child : envid2env 4098 false forking ≡ returned (found (some 2)) forking
unfolding envid2env
forking-child = refl

forking-IsPresent : IsPresent forking 2 0 3 4
forking-IsPresent = record {
  table = record {
    present = refl;
    names = refl;
    in_memory = omega arith;
    apart = ground arith;
    fits = omega arith;
  };
  there = refl;
  page = refl;
  in_memory = omega arith;
}

forking-HasTable : HasTable forking 5 0 6
forking-HasTable = record {
  present = refl;
  names = refl;
  in_memory = omega arith;
  apart = ground arith;
  fits = omega arith;
}

forking-EntryInMemory : EntryInMemory forking 6 0
forking-EntryInMemory h = ground arith

sys_page_map-Inserted_example :
    (k' : Kernel) × (sys_page_map 0 0 4098 0 7 forking ≡ returned (ok 0) k')
    × Inserted 5 0 6 4 7 forking k'
sys_page_map-Inserted_example =
    sys_page_map-Inserted 0 0 4098 0 7 0 2 forking-parent forking-child refl refl refl refl
      forking-IsPresent (λ h. refl) (omega arith) forking-HasTable forking-EntryInMemory refl

forking-IsForking : IsForking forking 0 2 3 2 5 6 4098 0 4
forking-IsForking = record {
  current = refl;
  space = refl;
  child_found = forking-child;
  child_space = refl;
  below = omega arith;
  source = forking-IsPresent;
  covered = forking-HasTable;
  within = forking-EntryInMemory;
  addressed = refl;
  directories = ground arith;
  tables = ground arith;
  apart = (ground arith, ground arith);
  user_table = refl;
  user_page = refl;
}

duppage-Shared_example :
    (k' : Kernel) × (duppage 4098 0 forking ≡ returned (ok 0) k')
    × Shared 2 5 (va_of 0) 4 (marked (forking.frame 3 (ptx (va_of 0)))) k'
duppage-Shared_example = duppage-Shared forking-IsForking refl

-- The machine with its page directory at UVPT too.
abbrev self_mapped : Kernel
self_mapped = record machine {
  frame = λ p i. if (p == 2) && (i == 957) then 8197 else test_frame p i;
}
