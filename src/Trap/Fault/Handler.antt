-- ===== src/Trap/Fault/Handler.antt =====
-- page_fault_handler for an environment that has a page-fault upcall and an exception stack.
use library_os_exokernel_imp.Base.{
  ℕ, ◌+◌, ◌-◌, ◌%◌, ◌^◌, ◌≤◌, ◌<◌, ◌≡◌, ap, ◌∙◌, ◌≢◌, ◌⊎◌, inl, inr, Bool, true, false, Option,
  none, some, [], ◌∷◌, ◌&&◌, ◌==◌, ltb, leb, if◌then◌else◌, arith, Bool-cases, bit_or, ==_false,
}
use library_os_exokernel_imp.Mmu.{
  u32, pgsize, pgnum, pdx, ptx, pte_p, pte_w, pte_u, has, uxstacktop, uxstackbase,
}
use library_os_exokernel_imp.Kernel.{Kernel, Trapframe, with_word}
use library_os_exokernel_imp.Kernel.Command.{
  Command, Outcome, returned, running, and_then, panic, reads, non_null, ◌>>=◌, ◌>>◌,
}
use library_os_exokernel_imp.Error.{ok}
use library_os_exokernel_imp.Env.Destroy.{assert_ok, user_mem_assert, env_destroy}
use library_os_exokernel_imp.Pmap.Tables.{Slot, pgdir_walk}
use library_os_exokernel_imp.Pmap.UserMem.{user_mem_check}
use library_os_exokernel_imp.Pmap.UserMem.Sound.{IsDirectory}
use library_os_exokernel_imp.Trap.Fault.{
  utrap_size, push, push_frame, call_upcall, page_fault_handler,
}
use library_os_exokernel_imp.Trap.Fault.Stack.{
  IsMapped, IsMapped-with_word, slot, push-mapped, pushed,
}
use library_os_exokernel_imp.Trap.Fault.Upcall.{Delivered, push_frame-Delivered}

-- `e`, with the page directory `d`, is running and in the kernel; its upcall passes the check, as
-- the top of its exception stack does, and the stack's page is `pg`.
pub record IsReady (e d pg : ℕ) (k : Kernel) : Type 0 where
  pub current : k.curenv ≡ some e
  pub space : (k.envs e).env_pgdir ≡ some d
  pub tables : IsDirectory k d
  pub mapped : IsMapped k pg
  pub locked : k.kernel_lock ≡ some k.cpunum
  pub upcall : (k.envs e).env_pgfault_upcall ≢ 0
  pub upcall_good :
      user_mem_check e (k.envs e).env_pgfault_upcall pgsize (bit_or (bit_or pte_u pte_p) pte_u) k
      ≡ returned (ok 0) k
  pub stack_good :
      user_mem_check e
        (uxstacktop - utrap_size)
        utrap_size
        (bit_or (bit_or (bit_or pte_u pte_p) pte_w) pte_u)
        k
      ≡ returned (ok 0) k

user_mem_assert-good :
    (env va len perm : ℕ) (k : Kernel)
    → user_mem_check env va len (bit_or perm pte_u) k ≡ returned (ok 0) k
    → user_mem_assert env va len perm k ≡ returned tt k
unfolding user_mem_assert assert_ok
user_mem_assert-good env va len perm k h = ap (λ o. and_then o (assert_ok env)) h

pgdir_walk-returned :
    (k : Kernel) (d va : ℕ)
    → IsDirectory k d
    → (s : Option Slot) × (pgdir_walk d va false k ≡ returned s k)
unfolding pgdir_walk
pgdir_walk-returned k d va dir = elim (Bool-cases (has (k.frame d (pdx va)) pte_p)) [
  | inl there ↦ (
    some (pgnum (k.frame d (pdx va)), ptx va),
    ground (arith, there, dir.fits, dir.in_memory (pdx va)),
  )
  | inr absent ↦ (none, ground (arith, absent))
]

page_fault_handler-call :
    (e d pg fault_va : ℕ) (tf : Trapframe) (k : Kernel)
    → IsReady e d pg k
    → tf.tf_cs % 4 ≡ 3
    → page_fault_handler fault_va tf k ≡ call_upcall e fault_va tf k
unfolding page_fault_handler
page_fault_handler-call e d pg fault_va tf k r cs =
    ap (λ b. (if b then panic else from_current k.curenv) k) from_user
    ∙ ap (λ c. from_current c k) r.current
    ∙ ap (λ o. from_space e o k) r.space
    ∙ ap (λ o. and_then o (λ _. by_upcall e)) (pgdir_walk-returned k d fault_va r.tables).1
    ∙ ap (λ b. (if b then env_destroy e else call_upcall e fault_va tf) k)
        (==_false (k.envs e).env_pgfault_upcall 0 r.upcall)
  where
    by_upcall : ℕ → Command (Unit {0})
    by_upcall e1 = reads (λ k1. (k1.envs e1).env_pgfault_upcall) >>= λ u.
        if u == 0 then env_destroy e1 else call_upcall e1 fault_va tf

    from_space : ℕ → Option ℕ → Command (Unit {0})
    from_space e1 o = non_null o >>= λ pgdir. pgdir_walk pgdir fault_va false >> by_upcall e1

    from_current : Option ℕ → Command (Unit {0})
    from_current c =
        non_null c >>= λ e1. reads (λ k1. (k1.envs e1).env_pgdir) >>= λ o. from_space e1 o

    from_user : (tf.tf_cs % 4 == 0) ≡ false
    from_user = ground arith

-- What follows the two checks.
abbrev deliver_frame : (e fault_va : ℕ) → Trapframe → Command (Unit {0})
deliver_frame e fault_va tf =
    if ltb tf.tf_esp uxstacktop && leb uxstackbase tf.tf_esp
    then (if ltb (u32 (tf.tf_esp + (2 ^ 32 - (utrap_size + 4)))) uxstackbase
        then panic
        else push tf.tf_esp (0 ∷ []) >> push_frame e fault_va tf (u32 (tf.tf_esp + (2 ^ 32 - 4))))
    else push_frame e fault_va tf uxstacktop

call_upcall-deliver_frame :
    (e d pg fault_va : ℕ) (tf : Trapframe) (k : Kernel)
    → IsReady e d pg k
    → call_upcall e fault_va tf k ≡ deliver_frame e fault_va tf k
unfolding call_upcall
call_upcall-deliver_frame e d pg fault_va tf k r =
    ap (λ o. and_then o (λ _. second))
      (user_mem_assert-good e (k.envs e).env_pgfault_upcall pgsize (bit_or pte_u pte_p) k
        r.upcall_good)
    ∙ ap (λ o. and_then o (λ _. deliver_frame e fault_va tf))
        (user_mem_assert-good e (uxstacktop - utrap_size) utrap_size
          (bit_or (bit_or pte_u pte_p) pte_w) k r.stack_good)
  where
    second : Command (Unit {0})
    second =
        user_mem_assert e (uxstacktop - utrap_size) utrap_size (bit_or (bit_or pte_u pte_p) pte_w)
        >> deliver_frame e fault_va tf

handler-deliver_frame :
    (e d pg fault_va : ℕ) (tf : Trapframe) (k : Kernel)
    → IsReady e d pg k
    → tf.tf_cs % 4 ≡ 3
    → page_fault_handler fault_va tf k ≡ deliver_frame e fault_va tf k
handler-deliver_frame e d pg fault_va tf k r cs =
    page_fault_handler-call e d pg fault_va tf k r cs
    ∙ call_upcall-deliver_frame e d pg fault_va tf k r

-- A page fault in user code that does not run on its exception stack, of an environment with an
-- upcall and an exception stack that pass the checks: the CPU enters user mode in the upcall, with
-- esp at the frame in the last 52 bytes of the exception stack. Read back, that frame is the struct
-- UTrapframe of the fault: its address, the error code, the registers, eip, eflags and esp of the
-- trap. The registers are left as the trap frame of the environment has them.
pub page_fault_handler-Delivered :
    (e d pg fault_va : ℕ) (tf : Trapframe) (k : Kernel)
    → IsReady e d pg k
    → tf.tf_cs % 4 ≡ 3
    → (tf.tf_esp < uxstackbase) ⊎ (uxstacktop ≤ tf.tf_esp)
    → (k' : Kernel) × (page_fault_handler fault_va tf k ≡ running k')
      × Delivered e pg 1011 fault_va tf k k'
page_fault_handler-Delivered e d pg fault_va tf k r cs outside =
    let made =
      push_frame-Delivered e d fault_va 1011 pg tf k (omega arith) r.mapped r.space r.locked in
    (made.0, handler-deliver_frame e d pg fault_va tf k r cs ∙ choose ∙ made.1, made.2)
  where
    choose : deliver_frame e fault_va tf k ≡ push_frame e fault_va tf uxstacktop k
    choose = ground (arith, outside)

-- A fault in the upcall itself, on the exception stack: where a scratch word and a frame fit below
-- esp, a word 0 is left below esp for the way back, and the frame below that word.
pub page_fault_handler-nested :
    (e d pg fault_va n : ℕ) (tf : Trapframe) (k : Kernel)
    → IsReady e d pg k
    → tf.tf_cs % 4 ≡ 3
    → tf.tf_esp ≡ slot n
    → 14 ≤ n
    → n < 1024
    → (k' : Kernel) × (page_fault_handler fault_va tf k ≡ running k')
      × Delivered e pg (n - 14) fault_va tf (with_word pg (n - 1) 0 k) k'
unfolding pushed
page_fault_handler-nested e d pg fault_va n tf k r cs on low high =
    let made =
      push_frame-Delivered e d fault_va (n - 14) pg tf (with_word pg (n - 1) 0 k) (omega arith)
        (IsMapped-with_word (n - 1) 0 r.mapped) r.space r.locked in
    (made.0, handler-deliver_frame e d pg fault_va tf k r cs ∙ choose ∙ scratch ∙ made.1, made.2)
  where
    nested : ℕ → Command (Unit {0})
    nested esp = push esp (0 ∷ []) >> push_frame e fault_va tf (u32 (esp + (2 ^ 32 - 4)))

    fit : Bool → Outcome (Unit {0})
    fit b = (if b then panic else nested tf.tf_esp) k

    pick : Bool → Outcome (Unit {0})
    pick b =
        (if b
            then (if ltb (u32 (tf.tf_esp + (2 ^ 32 - (utrap_size + 4)))) uxstackbase
                then panic
                else nested tf.tf_esp)
            else push_frame e fault_va tf uxstacktop)
          k

    choose : deliver_frame e fault_va tf k ≡ nested (slot n) k
    choose =
        ap pick (
          let e1 : (ltb tf.tf_esp uxstacktop && leb uxstackbase tf.tf_esp) ≡ true = ground arith in
          e1)
        ∙ ap fit (
            let e2 : ltb (u32 (tf.tf_esp + (2 ^ 32 - (utrap_size + 4)))) uxstackbase ≡ false =
              ground arith in
            e2)
        ∙ ap (λ a. nested a k) on

    scratch :
        nested (slot n) k ≡ push_frame e fault_va tf (slot (n - 14 + 13)) (with_word pg (n - 1) 0 k)
    scratch =
        ap (λ a. nested a k) (let e1 : slot n ≡ slot (n - 1 + 1) = omega arith in e1)
        ∙ ap
            (λ o.
              and_then o (λ _. push_frame e fault_va tf (u32 (slot (n - 1 + 1) + (2 ^ 32 - 4)))))
            (pushes ∙ kept)
        ∙ ap (λ a. push_frame e fault_va tf a (with_word pg (n - 1) 0 k))
            (let e2 : u32 (slot (n - 1 + 1) + (2 ^ 32 - 4)) ≡ slot (n - 14 + 13) = omega arith in
              e2)
      where
        pushes : push (slot (n - 1 + 1)) (0 ∷ []) k ≡ returned tt (pushed pg (n - 1) (0 ∷ []) k)
        pushes = push-mapped pg (n - 1) (0 ∷ []) k (omega arith) r.mapped

        kept : returned tt (pushed pg (n - 1) (0 ∷ []) k) ≡ returned tt (with_word pg (n - 1) 0 k)
        kept =
            ap (λ i. returned tt (with_word pg i 0 k))
              (let e3 : n - 1 + 0 ≡ n - 1 = omega arith in e3)
