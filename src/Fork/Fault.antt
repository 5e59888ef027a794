-- ===== src/Fork/Fault.antt =====
-- The page-fault handler of lib/fork.c and set_pgfault_handler of lib/pgfault.c, and fork itself
-- with them. The instructions of the program go through the page tables in cr3; one that they do
-- not allow is a page fault in the handler, which `faulted` stands for.
pub mod Refused
use library_os_exokernel_imp.Base.{
  ℕ, zero, suc, ◌+◌, ◌-◌, ◌*◌, ◌/◌, ◌%◌, ◌^◌, ◌<◌, ◌≡◌, refl, ap, ◌∙◌, ◌⊎◌, Bool, true, false, not,
  ◌&&◌, ◌==◌, arith, Option, none, some, if◌then◌else◌, bit_and,
}
use library_os_exokernel_imp.Mmu.{
  u32, pgnum, pgoff, pdx, ptx, pte_p, pte_w, has, uxstackbase, utop, uvpt,
}
use library_os_exokernel_imp.Kernel.{Kernel, env_runnable}
use library_os_exokernel_imp.Kernel.Command.{
  Command, returned, and_then, pure, ◌>>=◌, ◌>>◌, panic, reads, done,
}
use library_os_exokernel_imp.Error.{Result, ok, err}
use library_os_exokernel_imp.Syscall.Memory.{sys_page_alloc, sys_page_map, sys_page_unmap}
use library_os_exokernel_imp.Syscall.Process.{
  sys_exofork, sys_env_set_status, sys_env_set_pgfault_upcall,
}
use library_os_exokernel_imp.Trap.Fault.{store_user}
use library_os_exokernel_imp.Fork.{pte_cow, is_user, dup_pages}

abbrev pub fec_wr : ℕ
fec_wr = 2

-- UTEMP + PTSIZE - PGSIZE
abbrev pub pftemp : ℕ
pftemp = 0x7FF000

-- How the handler ends: it returns, or it panics with a number, or it faults itself.
pub data Handled : Type 0 where
  handled : Handled
  failed : (r : ℕ) → Handled
  faulted : Handled

-- The entries of the directory and of the table for an address, in cr3
unfoldable pub entries_for : (va : ℕ) → Command (ℕ × ℕ)
entries_for va = do
  pgdir ← reads (λ k. k.cr3)
  pde ← reads (λ k. k.frame pgdir (pdx va))
  pte ← reads (λ k. k.frame (pgnum pde) (ptx va))
  pure (pde, pte)

-- `*((uint32_t *) va)`, or a fault
unfoldable pub load_user : (va : ℕ) → Command (Option ℕ)
unfolding entries_for
load_user va = do
  e ← entries_for va
  word ← reads (λ k. k.frame (pgnum e.1) (pgoff va / 4))
  pure (if is_user e.0 && is_user e.1 then some word else none)

-- `*((uint32_t *) va) = v`: false is a fault.
unfoldable pub write_user : (va v : ℕ) → Command Bool
unfolding entries_for store_user
write_user va v = do
  e ← entries_for va
  if is_user e.0 && is_user e.1 && has e.0 pte_w && has e.1 pte_w
      then (store_user va v >> pure true)
      else pure false

-- memmove of a page, word by word: the two pages do not overlap. False is a fault.
unfoldable pub copy_words : (n dst src : ℕ) → Command Bool
unfolding load_user write_user
copy_words zero dst src = pure true
copy_words (suc n) dst src = do
  word ← load_user src
  let rest = copy_words n (u32 (dst + 4)) (u32 (src + 4))
  let copy = λ (w : ℕ). do written ← write_user dst w; if written then rest else pure false
  elim word [ none ↦ pure false | some w ↦ copy w ]

-- `r` of a call that has failed is replaced by the number of the step.
unless_error : Result → (step : ℕ) → Command Handled → Command Handled
unless_error (ok _) step next = next
unless_error (err _) step next = pure (failed step)

unfoldable pub private_copy : (page : ℕ) → Command Handled
unfolding sys_page_alloc sys_page_map sys_page_unmap copy_words unless_error
private_copy page = do
  r ← sys_page_alloc 0 pftemp 7
  unless_error r 3 (do
    copied ← copy_words 1024 pftemp page
    let moves = (do
      r ← sys_page_map 0 pftemp 0 page 7
      unless_error r 4 (do r ← sys_page_unmap 0 pftemp; unless_error r 5 (pure handled)))
    if copied then moves else pure faulted)

-- The addresses of vpt[pn] and vpd[i], which lib/entry.S sets to UVPT and UVPT + (UVPT >> 12) * 4.
abbrev pub vpt_at : (pn : ℕ) → ℕ
vpt_at pn = u32 (uvpt + pn * 4)

abbrev pub vpd_at : (i : ℕ) → ℕ
vpd_at i = u32 (uvpt + uvpt / 4096 * 4 + i * 4)

-- What follows a load, unless that is a fault.
unfoldable pub with_load : Option ℕ → (ℕ → Command Handled) → Command Handled
with_load none next = pure faulted
with_load (some word) next = next word

-- A load and what follows it, unless it is a fault.
unfoldable pub from_load : (va : ℕ) → (ℕ → Command Handled) → Command Handled
unfolding load_user with_load
from_load va next = do word ← load_user va; with_load word next

-- The tests of the table's entry are PTE_P, a write, and PTE_COW.
unfoldable pub check_pte : (addr utf_err pte : ℕ) → Command Handled
unfolding private_copy
check_pte addr utf_err pte =
    if has pte pte_p && not (bit_and fec_wr utf_err == 0) && not (bit_and pte pte_cow == 0)
    then private_copy (addr - addr % 4096)
    else pure (failed 2)

-- The test of the directory's entry, and then the second load from vpt.
unfoldable pub check_pde : (addr utf_err pde : ℕ) → Command Handled
unfolding from_load check_pte
check_pde addr utf_err pde =
    if is_user pde
    then from_load (vpt_at (pgnum addr)) (check_pte addr utf_err)
    else pure (failed 1)

-- vpt and vpd are volatile: vpt is read once before the test of vpd.
unfoldable pub pgfault : (utf_fault_va utf_err : ℕ) → Command Handled
unfolding from_load check_pde
pgfault addr utf_err =
    from_load (vpt_at (pgnum addr)) (λ _. from_load (vpd_at (pdx addr)) (check_pde addr utf_err))

-- `handler` is `_pgfault_handler` before; `upcall` is _pgfault_upcall of lib/pfentry.S.
set_up_stack : (upcall : ℕ) → Result → Command (Unit {0})
set_up_stack upcall (ok r) = if r == 0 then (sys_env_set_pgfault_upcall 0 upcall >> done) else panic
set_up_stack upcall (err _) = panic

unfoldable pub set_pgfault_handler : (upcall new : ℕ) → (handler : Option ℕ) → Command (Option ℕ)
unfolding sys_page_alloc sys_env_set_pgfault_upcall set_up_stack
set_pgfault_handler upcall new none = do
  r ← sys_page_alloc 0 uxstackbase 7
  set_up_stack upcall r
  pure (some new)
set_pgfault_handler upcall new (some _) = pure (some new)

start_child : (child : ℕ) → Result → Command Result
start_child child (ok _) = pure (ok child)
start_child child (err _) = panic

-- The parent's side, with the result of sys_exofork
fork_with : (upcall : ℕ) → Result → Command Result
unfolding sys_env_set_pgfault_upcall dup_pages sys_env_set_status start_child
fork_with upcall (err e) = panic
fork_with upcall (ok child) = do
  sys_env_set_pgfault_upcall child upcall
  dup_pages child (pgnum utop) 0
  r ← sys_env_set_status child env_runnable
  start_child child r

-- fork in the parent; the child begins where sys_exofork returns 0.
unfoldable pub fork : (upcall new : ℕ) → (handler : Option ℕ) → Command Result
unfolding set_pgfault_handler sys_exofork fork_with
fork upcall new handler = do
  set_pgfault_handler upcall new handler
  r ← sys_exofork
  fork_with upcall r

-- The child's side: its own `thisenv` is what sys_getenvid names.
unfoldable pub fork_child : (upcall new : ℕ) → (handler : Option ℕ) → Command Result
unfolding set_pgfault_handler
fork_child upcall new handler = do set_pgfault_handler upcall new handler; pure (ok 0)
