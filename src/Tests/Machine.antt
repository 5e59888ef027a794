-- ===== src/Tests/Machine.antt =====
-- The state that the runs start from.
use library_os_exokernel_imp.Base.{
  ℕ, ◌*◌, ◌≡◌, refl, true, false, ◌&&◌, ◌||◌, none, some, [], ◌∷◌, ◌==◌, if◌then◌else◌, arith,
}
use library_os_exokernel_imp.Kernel.{Kernel, Page, Env, env_runnable, env_running, env_not_runnable}
use library_os_exokernel_imp.Env.Table.{zero_env, envid2env, found}
use library_os_exokernel_imp.Kernel.Command.{returned}
use library_os_exokernel_imp.Pmap.Pages.FreeList.{IsFreeList}
use library_os_exokernel_imp.Pmap.Tables.Walk.{HasTable}
use library_os_exokernel_imp.Pmap.Tables.Remove.{IsMapped}
use library_os_exokernel_imp.Pmap.UserMem.Sound.{IsDirectory}

abbrev pub test_page : ℕ → Page
test_page p = record {
  pp_link = if p == 5 then some 6 else none;
  paddr = p * 4096;
  pp_ref = if p == 4 then 2 else if (p == 5) || (p == 6) then 0 else 1;
}

-- The directory in page 2 names the table in page 3, which maps page 4.
abbrev pub test_frame : ℕ → ℕ → ℕ
test_frame p i = if (p == 2) && (i == 0) then 12_295 else if (p == 3) && (i == 0) then 16_391 else 0

-- Environment 0 runs, 2 is runnable, 3 waits for a message, and the rest are free.
abbrev pub test_env : ℕ → Env
test_env e =
    if e == 0
    then record zero_env { env_id = 4096; env_status = env_running; env_pgdir = some 2 }
    else if e == 2
    then record zero_env {
      env_id = 4098;
      env_parent_id = 4096;
      env_status = env_runnable;
      env_pgdir = some 2;
    }
    else if e == 3
    then record zero_env {
      env_id = 4099;
      env_status = env_not_runnable;
      env_ipc_recving = true;
      env_pgdir = some 2;
    }
    else record zero_env { env_id = 4097 }

abbrev pub machine : Kernel
machine = record {
  npages = 8;
  n_avail_pages = 2;
  pages = test_page;
  page_free_list = some 5;
  kern_pgdir = 1;
  user_mem_check_addr = 0;
  frame = test_frame;
  envs = test_env;
  env_free_list = some 1;
  cpunum = 0;
  curenv = some 0;
  cr3 = 2;
  invalidated = [];
  kernel_lock = some 0;
}

-- The machine with no free page.
abbrev pub full_machine : Kernel
full_machine = record machine { page_free_list = none }

pub machine-IsFreeList : IsFreeList machine (5 ∷ 6 ∷ [])
machine-IsFreeList = record {
  chain = (refl, (refl, refl));
  distinct = ((ground arith, tt), (tt, tt));
  unused = (omega arith, refl, (omega arith, refl, tt));
  addressed = λ p lt. refl;
  fits = omega arith;
}

pub full_machine-IsFreeList : IsFreeList full_machine []
full_machine-IsFreeList = record {
  chain = refl;
  distinct = tt;
  unused = tt;
  addressed = λ p lt. refl;
  fits = omega arith;
}

pub machine-HasTable : HasTable machine 2 0 3
machine-HasTable = record {
  present = refl;
  names = refl;
  in_memory = omega arith;
  apart = ground arith;
  fits = omega arith;
}

pub machine-IsMapped : IsMapped machine 3 0 4
machine-IsMapped = record { entry = refl; page = refl; in_memory = omega arith }

pub machine-IsDirectory : IsDirectory machine 2
machine-IsDirectory = record { fits = omega arith; in_memory = λ i h. ground arith }

pub machine-waits : envid2env 4099 false machine ≡ returned (found (some 3)) machine
unfolding envid2env
machine-waits = refl

pub machine-child : envid2env 4098 true machine ≡ returned (found (some 2)) machine
unfolding envid2env
machine-child = refl
