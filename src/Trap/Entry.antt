-- ===== src/Trap/Entry.antt =====
-- trap_dispatch and trap of kern/trap.c, with spin_lock of kern/spinlock.c as this CPU sees it.
--
-- monitor (kern/monitor.c) is a parameter, what the hardware and the console supply is `Signals`.
-- lapic_eoi and what is printed are no part of the state; no CPU has called panic before.
pub mod Resume
use library_os_exokernel_imp.Base.{
  ℕ, ◌+◌, ◌-◌, ◌%◌, Bool, true, false, not, ◌&&◌, ◌||◌, Option, none, some, ◌==◌, ltb, leb,
  if◌then◌else◌, same_ptr,
}
use library_os_exokernel_imp.Mmu.{has, fl_if}
use library_os_exokernel_imp.Kernel.{Kernel, Trapframe, with_env, env_dying, env_running}
use library_os_exokernel_imp.Kernel.Command.{
  Command, out_of_fuel, ◌>>=◌, ◌>>◌, panic, reads, modify, done, non_null,
}
use library_os_exokernel_imp.Error.{to_word}
use library_os_exokernel_imp.Env.Destroy.{env_destroy}
use library_os_exokernel_imp.Env.Free.{env_free}
use library_os_exokernel_imp.Env.Run.{env_run}
use library_os_exokernel_imp.Sched.{sched_yield}
use library_os_exokernel_imp.Syscall.Dispatch.{syscall}
use library_os_exokernel_imp.Trap.Fault.{page_fault_handler}

-- cr2, the flags register, and what cons_getc returns.
pub record Signals : Type 0 where
  pub cr2 : ℕ
  pub eflags : ℕ
  pub char : ℕ

abbrev pub t_brkpt : ℕ
t_brkpt = 3

abbrev pub t_pgflt : ℕ
t_pgflt = 14

abbrev pub irq_offset : ℕ
irq_offset = 32

abbrev pub irq_offset_handle_max : ℕ
irq_offset_handle_max = 32 + 16 - 1

abbrev pub t_syscall : ℕ
t_syscall = 48

abbrev spins : Command (Unit {0})
spins = λ _. out_of_fuel

-- spin_lock: a panic if this CPU holds the lock. While another one holds it this CPU spins.
unfoldable pub lock_kernel : Command (Unit {0})
lock_kernel = do
  me ← reads (λ k. k.cpunum)
  holder ← reads (λ k. k.kernel_lock)
  if same_ptr holder (some me)
      then panic
      else if same_ptr holder none
      then modify (λ k. record k { kernel_lock = some me })
      else spins

-- The result of a system call, in the frame it came with.
abbrev pub set_eax : Option ℕ → ℕ → Kernel → Kernel
set_eax none w k = k
set_eax (some e) w k =
    with_env e
      (λ v. record v {
        env_tf = record (v.env_tf) { tf_regs = record (v.env_tf.tf_regs) { reg_eax = w } };
      })
      k

module _ (monitor : Command (Unit {0})) (s : Signals) where
  -- `env_destroy(curenv)`
  destroy_current : Command (Unit {0})
  unfolding env_destroy
  destroy_current = do c ← reads (λ k. k.curenv); e ← non_null c; env_destroy e

  -- An interrupt of one of the 16 lines; the ones that are known but the timer's are ignored.
  unfoldable pub handle_irq : ℕ → Command (Unit {0})
  unfolding sched_yield
  handle_irq irq =
      if irq == 0
      then sched_yield
      else if (irq == 1) || (irq == 4) || (irq == 7) || (irq == 14)
      then done
      else panic

  -- `place` is the environment in whose `env_tf` the frame is, or none for one on the stack.
  unfoldable pub dispatch : (place : Option ℕ) → Trapframe → (trapno : ℕ) → Command (Unit {0})
  unfolding handle_irq page_fault_handler syscall destroy_current
  dispatch place tf trapno =
      let r = tf.tf_regs in
      let call =
        syscall s.char r.reg_eax r.reg_edx r.reg_ecx r.reg_ebx r.reg_edi r.reg_esi >>= λ res.
        modify (set_eax place (to_word res)) in
      if leb irq_offset trapno && leb trapno irq_offset_handle_max
      then handle_irq (trapno - irq_offset)
      else if trapno == t_pgflt
      then page_fault_handler s.cr2 tf
      else if trapno == t_brkpt
      then monitor
      else if trapno == t_syscall
      then call
      else if tf.tf_cs == 8
      then panic
      else destroy_current

  unfoldable pub trap_dispatch : (place : Option ℕ) → Trapframe → Command (Unit {0})
  unfolding dispatch
  trap_dispatch place tf = dispatch place tf tf.tf_trapno

  -- The end of trap: back to the environment, or to another one.
  unfoldable pub resume : Option ℕ → Kernel → Command (Unit {0})
  unfolding env_run sched_yield
  resume none k = sched_yield
  resume (some e) k = if (k.envs e).env_status == env_running then env_run e else sched_yield

  -- From user mode: a zombie is freed, or the frame is kept in `curenv`.
  unfoldable pub enter_from_user : Trapframe → Command (Option ℕ)
  unfolding lock_kernel env_free sched_yield
  enter_from_user tf = do
    lock_kernel
    c ← reads (λ k. k.curenv)
    e ← non_null c
    status ← reads (λ k. (k.envs e).env_status)
    let reaped = do env_free e; modify (λ k. record k { curenv = none }); sched_yield
    if status == env_dying then reaped else done
    cur ← reads (λ k. k.curenv)
    now ← non_null cur
    modify (with_env now (λ v. record v { env_tf = tf }))
    reads (λ _. some now)

  enter_from_kernel : Command (Option ℕ)
  enter_from_kernel = if has s.eflags fl_if then panic else reads (λ _. none)

  unfoldable pub trap : Trapframe → Command (Unit {0})
  unfolding enter_from_user enter_from_kernel trap_dispatch resume
  trap tf = do
    place ← (if tf.tf_cs % 4 == 3 then enter_from_user tf else enter_from_kernel)
    trap_dispatch place tf
    c ← reads (λ k. k.curenv)
    k ← reads (λ k. k)
    resume c k
