-- ===== src/Env/Destroy.antt =====
-- env_destroy of kern/env.c, and user_mem_assert of kern/pmap.c, which calls it.
use library_os_exokernel_imp.Base.{ℕ, not, ◌&&◌, none, some, ◌==◌, if◌then◌else◌, same_ptr, bit_or}
use library_os_exokernel_imp.Mmu.{pte_u}
use library_os_exokernel_imp.Kernel.{with_env, env_dying, env_running}
use library_os_exokernel_imp.Kernel.Command.{Command, ◌>>=◌, ◌>>◌, reads, modify, done, when}
use library_os_exokernel_imp.Error.{Result, ok, err}
use library_os_exokernel_imp.Env.Free.{env_free}
use library_os_exokernel_imp.Sched.{sched_yield}
use library_os_exokernel_imp.Pmap.UserMem.{user_mem_check}

-- May not return.
unfoldable pub env_destroy : ℕ → Command (Unit {0})
unfolding env_free sched_yield
env_destroy e = do
  cur ← reads (λ k. k.curenv)
  status ← reads (λ k. (k.envs e).env_status)
  let freed = env_free e
  let yields = modify (λ k. record k { curenv = none }) >> sched_yield
  if (status == env_running) && not (same_ptr cur (some e))
      then modify (with_env e (λ v. record v { env_status = env_dying }))
      else (do freed; when (same_ptr cur (some e)) yields)

unfoldable pub assert_ok : ℕ → Result → Command (Unit {0})
unfolding env_destroy
assert_ok env (ok _) = done
assert_ok env (err _) = env_destroy env

unfoldable pub user_mem_assert : (env va len perm : ℕ) → Command (Unit {0})
unfolding user_mem_check assert_ok
user_mem_assert env va len perm = do
  r ← user_mem_check env va len (bit_or perm pte_u)
  assert_ok env r
