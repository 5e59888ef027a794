-- ===== src/Trap/Entry/Resume.antt =====
-- The way through trap from user mode and back.
use library_os_exokernel_imp.Base.{
  ℕ, ◌%◌, ◌≡◌, refl, ap, ◌∙◌, ◌≢◌, ◌⊎◌, inl, inr, Bool, true, false, Option, none, some, ◌==◌,
  if◌then◌else◌, arith, Bool-cases, update,
}
use library_os_exokernel_imp.Kernel.{Kernel, Trapframe, with_env, env_dying, env_running}
use library_os_exokernel_imp.Kernel.Command.{
  Command, Outcome, returned, running, monitoring, panicked, out_of_fuel, leaves, and_then,
}
use library_os_exokernel_imp.Error.{Result, to_word}
use library_os_exokernel_imp.Env.Run.{env_run}
use library_os_exokernel_imp.Env.Run.Enter.{Entered, env_run-Entered, leaves-env_run}
use library_os_exokernel_imp.Sched.{sched_yield}
use library_os_exokernel_imp.Sched.Search.{leaves-sched_yield}
use library_os_exokernel_imp.Syscall.Dispatch.{syscall}
use library_os_exokernel_imp.Trap.Entry.{
  Signals, trap, trap_dispatch, enter_from_user, enter_from_kernel, t_syscall, irq_offset, resume,
  lock_kernel, dispatch, set_eax, handle_irq,
}

abbrev pub returns : {A : Type 0} → Outcome A → Bool
returns (returned _ _) = true
returns (running _) = false
returns (monitoring _) = false
returns panicked = false
returns out_of_fuel = false

returns-leaves : {A : Type 0} (o : Outcome A) → leaves o ≡ true → returns o ≡ false
returns-leaves (returned a k) h = ground arith
returns-leaves (running k) h = refl
returns-leaves (monitoring k) h = refl
returns-leaves panicked h = refl
returns-leaves out_of_fuel h = refl

returns-and_then :
    {A B : Type 0} (o : Outcome A) (f : A → Command B)
    → ((a : A) (k : Kernel) → returns (f a k) ≡ false)
    → returns (and_then o f) ≡ false
returns-and_then (returned a k) f h = h a k
returns-and_then (running k) f h = refl
returns-and_then (monitoring k) f h = refl
returns-and_then panicked f h = refl
returns-and_then out_of_fuel f h = refl

module _ (monitor : Command (Unit {0})) (s : Signals) where
  returns-resume : (c : Option ℕ) (now k : Kernel) → returns (resume monitor s c now k) ≡ false
  unfolding resume
  returns-resume none now k = returns-leaves _ (leaves-sched_yield k)
  returns-resume (some e) now k = branch (Bool-cases ((now.envs e).env_status == env_running))
    where
      stays : Bool → Bool
      stays b = returns ((if b then env_run e else sched_yield) k)

      branch : {b : Bool} → (b ≡ true) ⊎ (b ≡ false) → stays b ≡ false
      branch (inl h) = ap stays h ∙ returns-leaves (env_run e k) (leaves-env_run k e)
      branch (inr h) = ap stays h ∙ returns-leaves (sched_yield k) (leaves-sched_yield k)

  -- trap never returns to the code that called it.
  pub returns-trap : (tf : Trapframe) (k : Kernel) → returns (trap monitor s tf k) ≡ false
  unfolding trap
  returns-trap tf k = returns-and_then _ _ (λ place k1.
      returns-and_then (trap_dispatch monitor s place tf k1) _
        (λ _ k2. returns-resume k2.curenv k2 k2))

ended :
    (o : Outcome (Unit {0})) (f : Unit {0} → Command (Unit {0}))
    → leaves o ≡ true
    → and_then o f ≡ o
ended (returned a k) f h = ground arith
ended (running k) f h = refl
ended (monitoring k) f h = refl
ended panicked f h = refl
ended out_of_fuel f h = refl

-- The kernel as a trap of `e` from user mode finds it once it holds the lock.
abbrev pub arrived : ℕ → Trapframe → Kernel → Kernel
arrived e tf k =
    with_env e (λ v. record v { env_tf = tf }) (record k { kernel_lock = some k.cpunum })

-- The word `w` is in eax of the frame of `e`, and nothing else has changed.
abbrev pub answered : ℕ → ℕ → Kernel → Kernel
answered e w k =
    let frame = (k.envs e).env_tf in
    let regs = record (frame.tf_regs) { reg_eax = w } in
    record k {
      envs = update k.envs e (record (k.envs e) { env_tf = record frame { tf_regs = regs } });
    }

-- `e` runs in user mode while no CPU is in the kernel.
pub record IsUser (e : ℕ) (k : Kernel) : Type 0 where
  pub current : k.curenv ≡ some e
  pub alive : (k.envs e).env_status ≢ env_dying
  pub unlocked : k.kernel_lock ≡ none

module _ (monitor : Command (Unit {0})) (s : Signals) where
  enter_from_user-arrived :
      (e : ℕ) (tf : Trapframe) (k : Kernel)
      → IsUser e k
      → enter_from_user monitor s tf k ≡ returned (some e) (arrived e tf k)
  unfolding enter_from_user lock_kernel
  enter_from_user-arrived e tf k u = ground (arith, u.current, u.alive, u.unlocked)

  after : Option ℕ → Trapframe → Kernel → Outcome (Unit {0})
  after place tf k =
      and_then (trap_dispatch monitor s place tf k) (λ _ k2. resume monitor s k2.curenv k2 k2)

  trap-arrived :
      (e : ℕ) (tf : Trapframe) (k : Kernel)
      → IsUser e k
      → tf.tf_cs % 4 ≡ 3
      → trap monitor s tf k ≡ after (some e) tf (arrived e tf k)
  unfolding trap after
  trap-arrived e tf k u cs =
      ap (λ b. rest ((if b then enter_from_user monitor s tf else enter_from_kernel monitor s) k))
        ring3
      ∙ ap rest (enter_from_user-arrived e tf k u)
    where
      rest : Outcome (Option ℕ) → Outcome (Unit {0})
      rest o = and_then o (λ place k1. after place tf k1)

      ring3 : (tf.tf_cs % 4 == 3) ≡ true
      ring3 = ground arith

  trap_dispatch-syscall :
      (place : Option ℕ) (tf : Trapframe) (k : Kernel)
      → tf.tf_trapno ≡ t_syscall
      → trap_dispatch monitor s place tf k
        ≡ and_then
            (syscall s.char tf.tf_regs.reg_eax tf.tf_regs.reg_edx tf.tf_regs.reg_ecx
              tf.tf_regs.reg_ebx tf.tf_regs.reg_edi tf.tf_regs.reg_esi k)
            (λ res now. returned tt (set_eax place (to_word res) now))
  unfolding trap_dispatch dispatch
  trap_dispatch-syscall place tf k is = ap (λ n. dispatch monitor s place tf n k) is

  trap_dispatch-timer :
      (place : Option ℕ) (tf : Trapframe) (k : Kernel)
      → tf.tf_trapno ≡ irq_offset
      → trap_dispatch monitor s place tf k ≡ sched_yield k
  unfolding trap_dispatch dispatch handle_irq
  trap_dispatch-timer place tf k is = ap (λ n. dispatch monitor s place tf n k) is

  resume-running :
      (e : ℕ) (now k : Kernel)
      → now.curenv ≡ some e
      → (now.envs e).env_status ≡ env_running
      → resume monitor s now.curenv now k ≡ env_run e k
  unfolding resume
  resume-running e now k cur stat =
      ap (λ c. resume monitor s c now k) cur
      ∙ ap (λ b. (if b then env_run e else sched_yield) k)
          (let h : ((now.envs e).env_status == env_running) ≡ true = ground arith in h)

  -- A system call from user mode that returns, with its caller still the running environment, goes
  -- back to it: the CPU enters user mode in `e` in the state that the call leaves, but for the
  -- call's result in `eax` of the frame. The call has found the frame of the trap in `env_tf`.
  pub trap-syscall :
      (e d : ℕ) (tf : Trapframe) (k k1 : Kernel) (r : Result)
      → IsUser e k
      → tf.tf_cs % 4 ≡ 3
      → tf.tf_trapno ≡ t_syscall
      → syscall s.char tf.tf_regs.reg_eax tf.tf_regs.reg_edx tf.tf_regs.reg_ecx tf.tf_regs.reg_ebx
          tf.tf_regs.reg_edi tf.tf_regs.reg_esi
          (arrived e tf k)
        ≡ returned r k1
      → k1.curenv ≡ some e
      → (k1.envs e).env_status ≡ env_running
      → (k1.envs e).env_pgdir ≡ some d
      → k1.kernel_lock ≡ some k1.cpunum
      → (k' : Kernel) × (trap monitor s tf k ≡ running k')
        × Entered e d (answered e (to_word r) k1) k'
        × ((k'.envs e).env_tf.tf_regs.reg_eax ≡ to_word r)
  unfolding after
  trap-syscall e d tf k k1 r u cs is call cur stat dir lock =
      let goes = env_run-Entered (answered e (to_word r) k1) e d lock (ground arith) in
      (
        goes.0,
        trap-arrived e tf k u cs
            ∙ ap finish dispatched
            ∙ ap (λ o. finish (and_then o result)) call
            ∙ resumed
            ∙ goes.1,
        goes.2,
        ap (λ f. f.tf_regs.reg_eax) goes.2.saved ∙ ground arith,
      )
    where
      result : Result → Command (Unit {0})
      result res now = returned tt (set_eax (some e) (to_word res) now)

      finish : Outcome (Unit {0}) → Outcome (Unit {0})
      finish o = and_then o (λ _ k2. resume monitor s k2.curenv k2 k2)

      made : Outcome Result
      made =
          syscall s.char tf.tf_regs.reg_eax tf.tf_regs.reg_edx tf.tf_regs.reg_ecx tf.tf_regs.reg_ebx
            tf.tf_regs.reg_edi tf.tf_regs.reg_esi (arrived e tf k)

      dispatched : trap_dispatch monitor s (some e) tf (arrived e tf k) ≡ and_then made result
      dispatched = trap_dispatch-syscall (some e) tf (arrived e tf k) is

      resumed : finish (and_then (returned r k1) result) ≡ env_run e (answered e (to_word r) k1)
      resumed = resume-running e _ _ cur (ground arith)

  -- A timer interrupt in user mode is a call of the scheduler, with the lock held and the frame of
  -- the trap in `env_tf`.
  pub trap-timer :
      (e : ℕ) (tf : Trapframe) (k : Kernel)
      → IsUser e k
      → tf.tf_cs % 4 ≡ 3
      → tf.tf_trapno ≡ irq_offset
      → trap monitor s tf k ≡ sched_yield (arrived e tf k)
  unfolding after
  trap-timer e tf k u cs is =
      trap-arrived e tf k u cs
      ∙ ap (λ o. and_then o (λ _ k2. resume monitor s k2.curenv k2 k2))
          (trap_dispatch-timer (some e) tf (arrived e tf k) is)
      ∙ ended (sched_yield (arrived e tf k)) _ (leaves-sched_yield (arrived e tf k))
