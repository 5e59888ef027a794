-- ===== src/Trap/Fault.antt =====
-- page_fault_handler of kern/trap.c. The kernel writes the frame through the user's page tables: a
-- store at an address that they do not map for writing is a fault in the kernel, which panics.
pub mod Stack
pub mod Upcall
pub mod Handler
use library_os_exokernel_imp.Base.{
  ℕ, zero, suc, ◌+◌, ◌-◌, ◌*◌, ◌/◌, ◌%◌, ◌^◌, Bool, false, not, ◌&&◌, List, [], ◌∷◌, ◌==◌, ltb, leb,
  if◌then◌else◌, bit_or,
}
use library_os_exokernel_imp.Mmu.{
  u32, pgsize, pgnum, pdx, ptx, pgoff, pte_p, pte_w, pte_u, has, uxstacktop, uxstackbase,
}
use library_os_exokernel_imp.Kernel.{Kernel, PushRegs, Trapframe, with_word, with_env}
use library_os_exokernel_imp.Kernel.Command.{
  Command, ◌>>=◌, ◌>>◌, panic, reads, modify, done, non_null,
}
use library_os_exokernel_imp.Env.Destroy.{env_destroy, user_mem_assert}
use library_os_exokernel_imp.Env.Run.{env_run}
use library_os_exokernel_imp.Pmap.Tables.{pgdir_walk}

-- A word at an offset of a page, which need not be a multiple of 4.
abbrev pub store_at : (p off v : ℕ) → Kernel → Kernel
store_at p off v k =
    let i = off / 4 in
    let r = 2 ^ (8 * (off % 4)) in
    let w = k.frame p in
    if off % 4 == 0
    then with_word p i v k
    else with_word p (i + 1) (w (i + 1) - w (i + 1) % r + v * r / 2 ^ 32)
        (with_word p i (w i % r + u32 (v * r)) k)

-- `*((uint32_t *) va) = v`, in the address space of cr3
unfoldable pub store_user : (va v : ℕ) → Command (Unit {0})
store_user va v = do
  pgdir ← reads (λ k. k.cr3)
  pde ← reads (λ k. k.frame pgdir (pdx va))
  pte ← reads (λ k. k.frame (pgnum pde) (ptx va))
  if has pde pte_p && has pde pte_w && has pte pte_p && has pte pte_w
      then modify (store_at (pgnum pte) (pgoff va) v)
      else panic

-- push, for each element in turn: `esp` goes down by 4 before each store.
unfoldable pub push : (esp : ℕ) → List ℕ → Command (Unit {0})
unfolding store_user
push esp [] = done
push esp (element ∷ rest) =
    store_user (u32 (esp + (2 ^ 32 - 4))) element >> push (u32 (esp + (2 ^ 32 - 4))) rest

-- The stores of a struct, from its first word on.
unfoldable pub store_words : (va : ℕ) → List ℕ → Command (Unit {0})
unfolding store_user
store_words va [] = done
store_words va (w ∷ rest) = store_user va w >> store_words (u32 (va + 4)) rest

abbrev pub regs_words : PushRegs → List ℕ
regs_words r =
    r.reg_edi ∷ r.reg_esi ∷ r.reg_ebp ∷ r.reg_oesp ∷ r.reg_ebx ∷ r.reg_edx ∷ r.reg_ecx ∷ r.reg_eax
    ∷ []

-- sizeof(struct UTrapframe)
abbrev pub utrap_size : ℕ
utrap_size = 52

-- The frame below `esp`, and the switch to the upcall.
unfoldable pub push_frame : (e fault_va : ℕ) → Trapframe → (esp : ℕ) → Command (Unit {0})
unfolding push store_words env_run
push_frame e fault_va tf esp = do
  push esp (tf.tf_esp ∷ tf.tf_eflags ∷ tf.tf_eip ∷ [])
  store_words (u32 (esp + (2 ^ 32 - 44))) (regs_words tf.tf_regs)
  push (u32 (esp + (2 ^ 32 - 44))) (tf.tf_err ∷ fault_va ∷ [])
  modify (
      with_env e (λ v. record v {
        env_tf = record (v.env_tf) {
          tf_esp = u32 (esp + (2 ^ 32 - 52));
          tf_eip = v.env_pgfault_upcall;
        };
      }))
  env_run e

-- On a fault in user code, for `curenv` = `e`, whose trap frame is `tf`.
unfoldable pub call_upcall : (e fault_va : ℕ) → Trapframe → Command (Unit {0})
unfolding push_frame user_mem_assert
call_upcall e fault_va tf = do
  upcall ← reads (λ k. (k.envs e).env_pgfault_upcall)
  user_mem_assert e upcall pgsize (bit_or pte_u pte_p)
  user_mem_assert e (uxstacktop - utrap_size) utrap_size (bit_or (bit_or pte_u pte_p) pte_w)
  if ltb tf.tf_esp uxstacktop && leb uxstackbase tf.tf_esp
      then (if ltb (u32 (tf.tf_esp + (2 ^ 32 - (utrap_size + 4)))) uxstackbase
          then panic
          else push tf.tf_esp (0 ∷ []) >> push_frame e fault_va tf (u32 (tf.tf_esp + (2 ^ 32 - 4))))
      else push_frame e fault_va tf uxstacktop

unfoldable pub page_fault_handler : (fault_va : ℕ) → Trapframe → Command (Unit {0})
unfolding call_upcall env_destroy pgdir_walk
page_fault_handler fault_va tf = do
  c ← reads (λ k. k.curenv)
  let walked = do
    e ← non_null c
    d ← reads (λ k. (k.envs e).env_pgdir)
    pgdir ← non_null d
    pgdir_walk pgdir fault_va false
    upcall ← reads (λ k. (k.envs e).env_pgfault_upcall)
    if upcall == 0 then env_destroy e else call_upcall e fault_va tf
  if tf.tf_cs % 4 == 0 then panic else walked
