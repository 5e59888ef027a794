-- ===== src/Syscall/Process/Status.antt =====
-- sys_env_set_status, on all its branches.
use library_os_exokernel_imp.Base.{
  Bool-cases, inl, inr, ◌==◌, ℕ, ◌≡◌, ◌≢◌, ◌⊎◌, Bool, true, some, arith,
}
use library_os_exokernel_imp.Kernel.{Kernel, with_env, env_not_runnable, env_runnable}
use library_os_exokernel_imp.Kernel.Command.{returned}
use library_os_exokernel_imp.Error.{ok, err, inval, bad_env}
use library_os_exokernel_imp.Env.Table.{envid2env, found, rejected}
use library_os_exokernel_imp.Syscall.Process.{sys_env_set_status}

-- sys_env_set_status of an environment that is runnable or not runnable stores the status that it
-- is given, whatever number that is.
sys_env_set_status-stores :
    (k : Kernel) (envid status e : ℕ)
    → envid2env envid true k ≡ returned (found (some e)) k
    → ((k.envs e).env_status ≡ env_runnable) ⊎ ((k.envs e).env_status ≡ env_not_runnable)
    → sys_env_set_status envid status k
      ≡ returned (ok 0) (with_env e (λ v. record v { env_status = status }) k)
unfolding sys_env_set_status
sys_env_set_status-stores k envid status e f h = ground (arith)

sys_env_set_status-inval :
    (k : Kernel) (envid status e : ℕ)
    → envid2env envid true k ≡ returned (found (some e)) k
    → (k.envs e).env_status ≢ env_runnable
    → (k.envs e).env_status ≢ env_not_runnable
    → sys_env_set_status envid status k ≡ returned (err inval) k
unfolding sys_env_set_status
sys_env_set_status-inval k envid status e f h = ground (arith)

sys_env_set_status-bad_env :
    (k : Kernel) (envid status : ℕ) (stored_null : Bool)
    → envid2env envid true k ≡ returned (rejected stored_null) k
    → sys_env_set_status envid status k ≡ returned (err bad_env) k
unfolding sys_env_set_status
sys_env_set_status-bad_env k envid status stored_null f = rw f

-- sys_env_set_status of an environment that envid2env finds looks at the status that it has: from
-- ENV_RUNNABLE or ENV_NOT_RUNNABLE the one asked for is stored, whatever number that is, and from
-- any other status it returns -E_INVAL and changes nothing.
pub sys_env_set_status_cases :
    (k : Kernel) (envid status e : ℕ)
    → envid2env envid true k ≡ returned (found (some e)) k
    → ((((k.envs e).env_status ≡ env_runnable) ⊎ ((k.envs e).env_status ≡ env_not_runnable))
        × (sys_env_set_status envid status k
            ≡ returned (ok 0) (with_env e (λ v. record v { env_status = status }) k)))
      ⊎ (((k.envs e).env_status ≢ env_runnable)
          × ((k.envs e).env_status ≢ env_not_runnable)
          × (sys_env_set_status envid status k ≡ returned (err inval) k))
sys_env_set_status_cases k envid status e f =
    elim (Bool-cases ((k.envs e).env_status == env_runnable)) [
      | inl can ↦
          let at : (k.envs e).env_status ≡ env_runnable = ground arith in
          inl (inl at, sys_env_set_status-stores k envid status e f (inl at))
      | inr cannot ↦ elim (Bool-cases ((k.envs e).env_status == env_not_runnable)) [
        | inl blocked ↦
            let at : (k.envs e).env_status ≡ env_not_runnable = ground arith in
            inl (inr at, sys_env_set_status-stores k envid status e f (inr at))
        | inr other ↦
            let a : (k.envs e).env_status ≢ env_runnable = ground arith in
            let b : (k.envs e).env_status ≢ env_not_runnable = ground arith in
            inr (a, b, sys_env_set_status-inval k envid status e f a b)
      ]
    ]
