-- ===== src/Sched.antt =====
-- kern/sched.c: sched_yield, with TESTING_GRADE_PURPOSE on, as inc/mmu.h has it.
pub mod Order
pub mod Search
use library_os_exokernel_imp.Base.{
  ℕ, zero, suc, ◌+◌, ◌-◌, ◌*◌, ◌/◌, ◌%◌, ◌^◌, Bool, true, false, not, ◌&&◌, ◌||◌, Option, none,
  some, List, [], ◌∷◌, ◌==◌, ltb, leb, if◌then◌else◌, is_null, same_ptr, bit_and, bit_or, update,
}
use library_os_exokernel_imp.Mmu.{
  u32, pgsize, pgnum, pdx, ptx, pte_p, pte_w, pte_u, pte_addr, has, ulim, round_down, round_up,
  utop, uvpt, ustacktop, gd_ut, gd_ud, fl_if, pgaddr,
}
use library_os_exokernel_imp.Kernel.{
  Kernel, Page, Env, EnvType, user, idle, zero_tf, with_page, with_word, with_env, env_free_status,
  env_dying, env_runnable, env_running, env_not_runnable, nenv,
}
use library_os_exokernel_imp.Kernel.Command.{
  Command, Outcome, returned, running, monitoring, panicked, out_of_fuel, pure, ◌>>=◌, ◌>>◌, panic,
  reads, modify, done, when, non_null,
}
use library_os_exokernel_imp.Error.{Result, ok, err, no_mem, no_free_env, bad_env}
use library_os_exokernel_imp.Pmap.Pages.{
  page_alloc, page_decref, alloc_zero, incref, page2kva, kaddr, pa2page,
}
use library_os_exokernel_imp.Pmap.Tables.{Slot, load, store, page_remove, page_insert, pgdir_walk}
use library_os_exokernel_imp.Env.Run.{env_run, demote}

abbrev pub is_idle : EnvType → Bool
is_idle user = false
is_idle idle = true

-- An environment that the round robin may choose.
abbrev pub eligible : Env → Bool
eligible v = not (is_idle v.env_type) && (v.env_status == env_runnable)

-- One that keeps the kernel out of the monitor.
abbrev pub active : Env → Bool
active v =
    not (is_idle v.env_type) && ((v.env_status == env_runnable) || (v.env_status == env_running))

-- `for (i = ...; i < NENV; i++) if (active) break;`, with the rounds left: is there one?
unfoldable pub any_active : ℕ → ℕ → (ℕ → Env) → Bool
any_active zero i envs = false
any_active (suc n) i envs = active (envs i) || any_active n (i + 1) envs

-- The idle environment of this CPU.
run_idle : Command (Unit {0})
unfolding env_run
run_idle = do
  me ← reads (λ k. k.cpunum)
  status ← reads (λ k. (k.envs me).env_status)
  if (status == env_runnable) || (status == env_running) then env_run me else panic

-- After a search that found nothing.
pub none_runnable : Command (Unit {0})
unfolding any_active run_idle
none_runnable = do
  some_active ← reads (λ k. any_active nenv 0 k.envs)
  if some_active then run_idle else monitoring

abbrev pub wrap : ℕ → ℕ
wrap i = if leb nenv i then i % nenv else i

-- The circular search, with the rounds left.
pub search_from : ℕ → ℕ → Command (Unit {0})
unfolding none_runnable env_run
search_from zero i = none_runnable
search_from (suc n) i = do
  v ← reads (λ k. k.envs (wrap i))
  let rest = search_from n (wrap i + 1)
  if eligible v then env_run (wrap i) else rest

-- Where the search starts: after the environment that was running here, or at the one that stopped.
abbrev pub start : Option ℕ → Kernel → ℕ
start none k = 0
start (some c) k = if (k.envs c).env_status == env_running then c + 1 else c

unfoldable pub sched_yield : Command (Unit {0})
unfolding search_from
sched_yield = do
  cur ← reads (λ k. k.curenv)
  i ← reads (start cur)
  modify (demote cur)
  search_from nenv i
