-- ===== src/Syscall/Memory.antt =====
-- The system calls of kern/syscall.c on page mappings.
pub mod Alloc
pub mod Map
use library_os_exokernel_imp.Base.{
  ℕ, ◌-◌, ◌^◌, Bool, true, false, not, ◌&&◌, ◌||◌, Option, none, some, ◌==◌, ltb, leb,
  if◌then◌else◌, bit_and,
}
use library_os_exokernel_imp.Mmu.{pgoff, pte_w, has, utop, pte_syscall}
use library_os_exokernel_imp.Kernel.Command.{Command, pure, ◌>>=◌, ◌>>◌, reads, non_null}
use library_os_exokernel_imp.Error.{Result, ok, err, no_mem, inval}
use library_os_exokernel_imp.Env.Table.{envid2env}
use library_os_exokernel_imp.Syscall.Caller.{with_found}
use library_os_exokernel_imp.Pmap.Pages.{page_alloc, page_free, alloc_zero}
use library_os_exokernel_imp.Pmap.Tables.{Slot, load, page_lookup, page_remove, page_insert}

-- 0 if the address lies in [min, max) and starts a page
abbrev pub check_addr_scale : (val min max : ℕ) → Bool
check_addr_scale val min max = leb min val && ltb val max && (pgoff val == 0)

-- perm & ~PTE_SYSCALL
abbrev pub bad_perm : ℕ → Bool
bad_perm perm = not (bit_and perm (2 ^ 32 - 1 - pte_syscall) == 0)

abbrev pub pgdir_of : ℕ → Command ℕ
pgdir_of e = do d ← reads (λ k. (k.envs e).env_pgdir); non_null d

-- sys_page_alloc with the page that page_alloc gave, and with the result of page_insert
page_inserted : ℕ → Result → Command Result
unfolding page_free
page_inserted page_need (ok _) = pure (ok 0)
page_inserted page_need (err _) = page_free page_need >> pure (err no_mem)

insert_new : (e va perm : ℕ) → Option ℕ → Command Result
unfolding page_insert page_inserted
insert_new e va perm none = pure (err no_mem)
insert_new e va perm (some page_need) = do
  pgdir ← pgdir_of e
  r ← page_insert pgdir (some page_need) va perm
  page_inserted page_need r

alloc_at : (va perm e : ℕ) → Command Result
unfolding page_alloc insert_new
alloc_at va perm e =
    if leb utop va || bad_perm perm
    then pure (err inval)
    else (do page_need ← page_alloc alloc_zero; insert_new e va perm page_need)

unfoldable pub sys_page_alloc : (envid va perm : ℕ) → Command Result
unfolding envid2env alloc_at
sys_page_alloc envid va perm = do f ← envid2env envid true; with_found f (alloc_at va perm)

-- sys_page_map with the page found at `srcva`
map_found : (dst_e dstva perm : ℕ) → Option (ℕ × Slot) → Command Result
unfolding page_insert
map_found dst_e dstva perm none = pure (err inval)
map_found dst_e dstva perm (some (src_page, src_pte)) = do
  pte ← load src_pte
  if not (has pte pte_w) && has perm pte_w
      then pure (err inval)
      else (do pgdir ← pgdir_of dst_e; page_insert pgdir (some src_page) dstva perm)

map_between : (srcva dstva perm src_e dst_e : ℕ) → Command Result
unfolding page_lookup map_found
map_between srcva dstva perm src_e dst_e =
    if not (check_addr_scale srcva 0 utop) || not (check_addr_scale dstva 0 utop)
    then pure (err inval)
    else (do pgdir ← pgdir_of src_e; src ← page_lookup pgdir srcva; map_found dst_e dstva perm src)

-- `perm` is not tested: the test of the system calls' bits is commented out in the source.
unfoldable pub sys_page_map : (srcenvid srcva dstenvid dstva perm : ℕ) → Command Result
unfolding envid2env map_between
sys_page_map srcenvid srcva dstenvid dstva perm = do
  f ← envid2env srcenvid true
  with_found f (λ src_e. do
    g ← envid2env dstenvid false
    with_found g (λ dst_e. map_between srcva dstva perm src_e dst_e))

unmap_at : (va e : ℕ) → Command Result
unfolding page_remove
unmap_at va e =
    if not (check_addr_scale va 0 utop)
    then pure (err inval)
    else (do pgdir ← pgdir_of e; page_remove pgdir va; pure (ok 0))

unfoldable pub sys_page_unmap : (envid va : ℕ) → Command Result
unfolding envid2env unmap_at
sys_page_unmap envid va = do f ← envid2env envid true; with_found f (unmap_at va)
