-- ===== src/Tests/Envs.antt =====
-- Runs of the code of kern/env.c and kern/sched.c.
use library_os_exokernel_imp.Base.{
  inr, inl, Bool-cases, ℕ, ◌≡◌, ◌↔◌, refl, true, false, none, some, [], ◌∷◌, arith, ◌==◌,
  if◌then◌else◌,
}
use library_os_exokernel_imp.Error.{ok}
use library_os_exokernel_imp.Kernel.{Kernel, idle, env_runnable, env_running}
use library_os_exokernel_imp.Kernel.Command.{returned, running}
use library_os_exokernel_imp.Env.Table.{zero_env, envid2env, found, rejected, env_alloc}
use library_os_exokernel_imp.Env.Table.Ident.{Names, envid2env_iff}
use library_os_exokernel_imp.Env.Table.Alloc.{EnvAllocated, env_alloc-EnvAllocated, envid2env-stale}
use library_os_exokernel_imp.Env.Run.{env_run}
use library_os_exokernel_imp.Env.Run.Enter.{Entered, env_run-Entered}
use library_os_exokernel_imp.Sched.{sched_yield}
use library_os_exokernel_imp.Sched.Order.{IsEligible, Rested, after}
use library_os_exokernel_imp.Sched.Search.{sched_yield-env_run}
use library_os_exokernel_imp.Tests.Machine.{machine, machine-IsFreeList}

envid2env_iff_example :
    (envid2env 4098 true machine ≡ returned (found (some 2)) machine) ↔ Names machine 4098 true 2
envid2env_iff_example = envid2env_iff machine 4098 true 2

env_alloc-EnvAllocated_example :
    (k' : Kernel) × (env_alloc 4096 machine ≡ returned (ok 1) k')
    × EnvAllocated 4096 1 5 (6 ∷ []) machine k'
env_alloc-EnvAllocated_example =
    env_alloc-EnvAllocated 4096 1 (omega arith) (omega arith) refl machine-IsFreeList (ground arith)

envid2env-stale_example :
    (k' : Kernel) × (env_alloc 4096 machine ≡ returned (ok 1) k')
    × (envid2env 4097 false k' ≡ returned (rejected true) k')
envid2env-stale_example =
    envid2env-stale 4096 1 false (omega arith) (omega arith) (omega arith) refl refl
      machine-IsFreeList (ground arith)

env_run-Entered_example : (k' : Kernel) × (env_run 2 machine ≡ running k') × Entered 2 2 machine k'
env_run-Entered_example = env_run-Entered machine 2 2 refl refl

abbrev unlocked : Kernel
unlocked = record machine { kernel_lock = none }

-- Environment 0 was running, 1 is free, and 2 is runnable.
sched_yield-env_run_example :
    (k' : Kernel) × (sched_yield machine ≡ env_run 2 k') × Rested machine k'
sched_yield-env_run_example =
    sched_yield-env_run machine 1 1 (after refl refl) (λ c e. ground arith) (omega arith)
      (refl, inl refl) (λ j lt h. ground (arith, h))

-- No environment is in use.
abbrev quiet : Kernel
quiet = record machine { envs = λ _. zero_env; curenv = none }

-- Environment 9 runs on another CPU, and the others are idle ones.
abbrev waiting : Kernel
waiting = record machine {
  envs = λ e.
      if e == 9
      then record zero_env { env_status = env_running }
      else record zero_env { env_type = idle; env_status = env_runnable };
  curenv = none;
}

no_candidate : (i : ℕ) → ¬ IsEligible (waiting.envs i)
no_candidate i h = elim (Bool-cases (i == 9)) [
  | inl e ↦ ground (arith, h)
  | inr e ↦ ground (arith, h)
]
