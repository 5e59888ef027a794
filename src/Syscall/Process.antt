-- ===== src/Syscall/Process.antt =====
-- The system calls of kern/syscall.c on environments.
pub mod Status
use library_os_exokernel_imp.Base.{
  ℕ, zero, suc, ◌+◌, ◌-◌, ◌*◌, ◌/◌, ◌%◌, ◌^◌, Bool, true, false, not, ◌&&◌, ◌||◌, Option, none,
  some, List, [], ◌∷◌, ◌==◌, ltb, leb, if◌then◌else◌, is_null, same_ptr, bit_and, bit_or, update,
}
use library_os_exokernel_imp.Mmu.{
  u32, pgsize, pgnum, pgoff, pdx, ptx, pte_p, pte_w, pte_u, pte_addr, has, ulim, utop, pte_syscall,
  ipc_no_page,
}
use library_os_exokernel_imp.Kernel.{
  Kernel, Page, Env, Trapframe, with_page, with_word, with_env, env_runnable, env_not_runnable,
}
use library_os_exokernel_imp.Kernel.Command.{
  Command, Outcome, returned, running, monitoring, panicked, out_of_fuel, pure, ◌>>=◌, ◌>>◌, panic,
  reads, modify, done, when, non_null,
}
use library_os_exokernel_imp.Error.{Result, ok, err, no_mem, bad_env, inval, ipc_not_recv}
use library_os_exokernel_imp.Env.Table.{Found, found, rejected, envid2env, env_alloc}
use library_os_exokernel_imp.Syscall.Caller.{caller, with_found}
use library_os_exokernel_imp.Env.Destroy.{env_destroy, user_mem_assert}
use library_os_exokernel_imp.Sched.{sched_yield}

-- (The text goes to the console, which is no part of this state.)
unfoldable pub sys_cputs : (s len : ℕ) → Command (Unit {0})
unfolding caller user_mem_assert
sys_cputs s len = do c ← caller; user_mem_assert c s len (bit_or pte_u pte_p)

unfoldable pub sys_getenvid : Command Result
unfolding caller
sys_getenvid = do c ← caller; id ← reads (λ k. (k.envs c).env_id); pure (ok id)

unfoldable pub sys_env_destroy : ℕ → Command Result
unfolding envid2env env_destroy
sys_env_destroy envid = do
  f ← envid2env envid true
  with_found f (λ e. env_destroy e >> pure (ok 0))

unfoldable pub sys_yield : Command (Unit {0})
unfolding sched_yield
sys_yield = sched_yield

-- sys_exofork with the result of env_alloc: the child starts as a copy that is not runnable.
exofork_child : ℕ → Result → Command Result
exofork_child c (err e) = pure (err e)
exofork_child c (ok child) = do
  tf ← reads (λ k. (k.envs c).env_tf)
  modify (with_env child (λ v. record v { env_tf = tf; env_status = env_not_runnable }))
  modify (
      with_env child (λ v. record v {
        env_tf = record (v.env_tf) { tf_regs = record (v.env_tf.tf_regs) { reg_eax = 0 } };
      }))
  id ← reads (λ k. (k.envs child).env_id)
  me ← reads (λ k. (k.envs c).env_id)
  pure (ok (if id == me then 0 else id))

unfoldable pub sys_exofork : Command Result
unfolding caller env_alloc exofork_child
sys_exofork = do
  c ← caller
  parent_id ← reads (λ k. (k.envs c).env_id)
  r ← env_alloc parent_id
  exofork_child c r

-- The test is on the status that the environment has, not on the one that is asked for.
set_status : ℕ → ℕ → Command Result
set_status status e = do
  old ← reads (λ k. (k.envs e).env_status)
  if not (env_runnable == old) && not (env_not_runnable == old)
      then pure (err inval)
      else (modify (with_env e (λ v. record v { env_status = status })) >> pure (ok 0))

unfoldable pub sys_env_set_status : ℕ → ℕ → Command Result
unfolding envid2env set_status
sys_env_set_status envid status = do f ← envid2env envid true; with_found f (set_status status)

unfoldable pub sys_env_set_pgfault_upcall : ℕ → ℕ → Command Result
unfolding envid2env
sys_env_set_pgfault_upcall envid func = do
  f ← envid2env envid true
  with_found f
      (λ e. modify (with_env e (λ v. record v { env_pgfault_upcall = func })) >> pure (ok 0))
