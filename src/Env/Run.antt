-- ===== src/Env/Run.antt =====
-- env_run and env_pop_tf of kern/env.c, and the release of the kernel lock (kern/spinlock.c).
pub mod Enter
use library_os_exokernel_imp.Base.{
  ℕ, zero, suc, ◌+◌, ◌-◌, ◌*◌, ◌/◌, ◌%◌, ◌^◌, Bool, true, false, not, ◌&&◌, ◌||◌, Option, none,
  some, List, [], ◌∷◌, ◌==◌, ltb, leb, if◌then◌else◌, is_null, same_ptr, bit_and, bit_or, update,
}
use library_os_exokernel_imp.Mmu.{
  u32, pgsize, pgnum, pdx, ptx, pte_p, pte_w, pte_u, pte_addr, has, ulim, round_down, round_up,
  utop, uvpt, ustacktop, gd_ut, gd_ud, fl_if, pgaddr,
}
use library_os_exokernel_imp.Kernel.{
  Kernel, Page, Env, EnvType, user, idle, zero_tf, with_page, with_word, with_env, env_free_status,
  env_dying, env_runnable, env_running, env_not_runnable, nenv,
}
use library_os_exokernel_imp.Kernel.Command.{
  Command, Outcome, returned, running, monitoring, panicked, out_of_fuel, pure, ◌>>=◌, ◌>>◌, panic,
  reads, modify, done, when, non_null,
}
use library_os_exokernel_imp.Error.{Result, ok, err, no_mem, no_free_env, bad_env}
use library_os_exokernel_imp.Pmap.Pages.{
  page_alloc, page_decref, alloc_zero, incref, page2kva, kaddr, pa2page,
}
use library_os_exokernel_imp.Pmap.Tables.{Slot, load, store, page_remove, page_insert, pgdir_walk}
use library_os_exokernel_imp.Env.Free.{lcr3}

-- `curenv`, if it is ENV_RUNNING, becomes ENV_RUNNABLE.
abbrev pub demote : Option ℕ → Kernel → Kernel
demote none k = k
demote (some c) k =
    if (k.envs c).env_status == env_running
    then with_env c (λ v. record v { env_status = env_runnable }) k
    else k

-- spin_unlock with DEBUG_SPINLOCK: a panic unless this CPU holds the lock
unfoldable pub unlock_kernel : Command (Unit {0})
unlock_kernel = do
  me ← reads (λ k. k.cpunum)
  holder ← reads (λ k. k.kernel_lock)
  if same_ptr holder (some me) then modify (λ k. record k { kernel_lock = none }) else panic

-- env_pop_tf leaves for user mode.
env_pop_tf : ℕ → Command (Unit {0})
env_pop_tf e = do
  me ← reads (λ k. k.cpunum)
  modify (with_env e (λ v. record v { env_cpunum = me }))
  running

-- PADDR panics on the page directory NULL.
unfoldable pub env_run : ℕ → Command (Unit {0})
unfolding unlock_kernel env_pop_tf
env_run e = do
  cur ← reads (λ k. k.curenv)
  modify (demote cur)
  modify (λ k. record k { curenv = some e })
  modify (with_env e (λ v. record v { env_status = env_running; env_runs = u32 (v.env_runs + 1) }))
  unlock_kernel
  d ← reads (λ k. (k.envs e).env_pgdir)
  pgdir ← non_null d
  lcr3 pgdir
  env_pop_tf e
