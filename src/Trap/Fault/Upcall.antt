-- ===== src/Trap/Fault/Upcall.antt =====
-- The frame that page_fault_handler leaves on the user exception stack.
use library_os_exokernel_imp.Base.{
  ℕ, ◌+◌, ◌-◌, ◌^◌, ◌≤◌, ◌≡◌, refl, ap, ◌∙◌, some, ==_refl, if◌then◌else◌, arith,
}
use library_os_exokernel_imp.Mmu.{u32}
use library_os_exokernel_imp.Kernel.{Kernel, Env, Trapframe, with_env}
use library_os_exokernel_imp.Kernel.Command.{Command, running, and_then, modify, ◌>>◌}
use library_os_exokernel_imp.Env.Run.{env_run}
use library_os_exokernel_imp.Env.Run.Enter.{Entered, env_run-Entered}
use library_os_exokernel_imp.Trap.Fault.{push, store_words, regs_words, push_frame}
use library_os_exokernel_imp.Trap.Fault.Stack.{
  IsMapped, slot, pushed, stored_words, push-mapped, store_words-mapped, read_words, utrapframe,
  state_words, fault_words, framed, framed-words, read-words, IsMapped-pushed,
  IsMapped-stored_words,
}

-- The frame is pushed, and the upcall is about to run on it.
abbrev switched : (e i : ℕ) → Kernel → Kernel
switched e i k =
    with_env e
      (λ v. record v {
        env_tf = record (v.env_tf) { tf_esp = slot i; tf_eip = v.env_pgfault_upcall };
      })
      k

push_frame-framed :
    (e fault_va i pg : ℕ) (tf : Trapframe) (k : Kernel)
    → i + 13 ≤ 1024
    → IsMapped k pg
    → push_frame e fault_va tf (slot (i + 13)) k
      ≡ env_run e (switched e i (framed pg i fault_va tf k))
unfolding push_frame framed
push_frame-framed e fault_va i pg tf k le m =
    ap (λ a. and_then (push a (state_words tf) k) (λ _. regs_then))
      (let e1 : slot (i + 13) ≡ slot (i + 10 + 3) = omega arith in e1)
    ∙ ap (λ o. and_then o (λ _. regs_then))
        (push-mapped pg (i + 10) (state_words tf) k (omega arith) m)
    ∙ ap (λ a. and_then (store_words a (regs_words tf.tf_regs) state) (λ _. fault_then))
        (let e2 : u32 (slot (i + 13) + (2 ^ 32 - 44)) ≡ slot (i + 2) = omega arith in e2)
    ∙ ap (λ o. and_then o (λ _. fault_then))
        (store_words-mapped pg (i + 2) (regs_words tf.tf_regs) state (omega arith)
          (IsMapped-pushed pg (i + 10) (state_words tf) k m))
    ∙ ap
        (λ a.
          and_then (push a (fault_words fault_va tf) regs)
            (λ _. run (u32 (slot (i + 13) + (2 ^ 32 - 52)))))
        (let e3 : u32 (slot (i + 13) + (2 ^ 32 - 44)) ≡ slot (i + 2) = omega arith in e3)
    ∙ ap (λ o. and_then o (λ _. run (u32 (slot (i + 13) + (2 ^ 32 - 52)))))
        (push-mapped pg i (fault_words fault_va tf) regs (omega arith) (
          IsMapped-stored_words pg (i + 2) (regs_words tf.tf_regs) state
            (IsMapped-pushed pg (i + 10) (state_words tf) k m)))
    ∙ ap (λ a. run a (framed pg i fault_va tf k))
        (let e4 : u32 (slot (i + 13) + (2 ^ 32 - 52)) ≡ slot i = omega arith in e4)
  where
    run : ℕ → Command (Unit {0})
    run a =
        modify (
          with_env e (λ v. record v {
            env_tf = record (v.env_tf) { tf_esp = a; tf_eip = v.env_pgfault_upcall };
          }))
        >> env_run e

    fault_then : Command (Unit {0})
    fault_then =
        push (u32 (slot (i + 13) + (2 ^ 32 - 44))) (fault_words fault_va tf)
        >> run (u32 (slot (i + 13) + (2 ^ 32 - 52)))

    regs_then : Command (Unit {0})
    regs_then =
        store_words (u32 (slot (i + 13) + (2 ^ 32 - 44))) (regs_words tf.tf_regs) >> fault_then

    state : Kernel
    state = pushed pg (i + 10) (state_words tf) k

    regs : Kernel
    regs = stored_words pg (i + 2) (regs_words tf.tf_regs) state

-- `e` is in its upcall, on the frame of the fault that begins at word `i` of the stack's page.
pub record Delivered (e pg i fault_va : ℕ) (tf : Trapframe) (k k' : Kernel) : Type 0 where
  pub current : k'.curenv ≡ some e
  pub utf : read_words (k'.frame pg) i 13 ≡ utrapframe fault_va tf
  pub esp : (k'.envs e).env_tf.tf_esp ≡ slot i
  pub eip : (k'.envs e).env_tf.tf_eip ≡ (k.envs e).env_pgfault_upcall
  pub regs : (k'.envs e).env_tf.tf_regs ≡ (k.envs e).env_tf.tf_regs

Delivered-Entered :
    (e d pg i fault_va : ℕ) (tf : Trapframe) (k m k' : Kernel)
    → m.envs ≡ k.envs
    → read_words (m.frame pg) i 13 ≡ utrapframe fault_va tf
    → Entered e d (switched e i m) k'
    → Delivered e pg i fault_va tf k k'
Delivered-Entered e d pg i fault_va tf k m k' same words to = record {
  current = to.current;
  utf = ap (λ (f : ℕ → ℕ → ℕ). read_words (f pg) i 13) to.memory ∙ words;
  esp = ap (λ (t : Trapframe). t.tf_esp) saved;
  eip =
      ap (λ (t : Trapframe). t.tf_eip) saved ∙ ap (λ (v : ℕ → Env). (v e).env_pgfault_upcall) same;
  regs = ap (λ (t : Trapframe). t.tf_regs) saved ∙ ap (λ (v : ℕ → Env). (v e).env_tf.tf_regs) same;
}
  where
    saved :
        (k'.envs e).env_tf
        ≡ record ((m.envs e).env_tf) { tf_esp = slot i; tf_eip = (m.envs e).env_pgfault_upcall }
    saved =
        to.saved
        ∙ ap
            (λ b.
              (if b
                then record (m.envs e) {
                  env_tf = record ((m.envs e).env_tf) {
                    tf_esp = slot i;
                    tf_eip = (m.envs e).env_pgfault_upcall;
                  };
                }
                else m.envs e).env_tf)
            (==_refl e)

pub push_frame-Delivered :
    (e d fault_va i pg : ℕ) (tf : Trapframe) (k : Kernel)
    → i + 13 ≤ 1024
    → IsMapped k pg
    → (k.envs e).env_pgdir ≡ some d
    → k.kernel_lock ≡ some k.cpunum
    → (k' : Kernel) × (push_frame e fault_va tf (slot (i + 13)) k ≡ running k')
      × Delivered e pg i fault_va tf k k'
unfolding framed pushed stored_words
push_frame-Delivered e d fault_va i pg tf k le m dir lock =
    let goes =
      env_run-Entered (switched e i (framed pg i fault_va tf k)) e d lock (ground (arith, dir)) in
    (
      goes.0,
      push_frame-framed e fault_va i pg tf k le m ∙ goes.1,
      Delivered-Entered e d pg i fault_va tf k (framed pg i fault_va tf k) goes.0 refl
          (ap (λ (f : ℕ → ℕ). read_words f i 13) (framed-words pg i fault_va tf k)
            ∙ read-words (k.frame pg) i fault_va tf.tf_err tf.tf_regs.reg_edi tf.tf_regs.reg_esi
                tf.tf_regs.reg_ebp tf.tf_regs.reg_oesp tf.tf_regs.reg_ebx tf.tf_regs.reg_edx
                tf.tf_regs.reg_ecx tf.tf_regs.reg_eax tf.tf_eip tf.tf_eflags tf.tf_esp)
          goes.2,
    )
