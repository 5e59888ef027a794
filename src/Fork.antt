-- ===== src/Fork.antt =====
-- duppage of lib/fork.c and the loop of fork that calls it: the user code of the environment that
-- forks, over the system calls.
--
-- `vpd` and `vpt` are the page tables of `curenv`, which env_setup_vm maps at UVPT; that the code
-- reads them only where they are present is its own test. No other environment runs between the
-- calls.
pub mod Flags
pub mod Shared
pub mod Fault
use library_os_exokernel_imp.Base.{
  ℕ, zero, suc, ◌+◌, ◌-◌, ◌*◌, ◌/◌, ◌%◌, ◌^◌, Bool, not, ◌&&◌, ◌==◌, ltb, if◌then◌else◌, bit_and,
  bit_or,
}
use library_os_exokernel_imp.Mmu.{u32, pgnum, pgoff, pte_p, pte_u, pte_w, utop, uxstackbase}
use library_os_exokernel_imp.Kernel.Command.{Command, pure, ◌>>=◌, ◌>>◌, reads, done}
use library_os_exokernel_imp.Error.{Result, ok, err, inval}
use library_os_exokernel_imp.Syscall.Caller.{caller}
use library_os_exokernel_imp.Syscall.Memory.{pgdir_of, sys_page_map, sys_page_alloc}

abbrev pub pte_cow : ℕ
pte_cow = 0x800

-- vpd[i]
unfoldable pub vpd : ℕ → Command ℕ
unfolding caller
vpd i = do e ← caller; pgdir ← pgdir_of e; reads (λ k. k.frame pgdir i)

-- vpt[pn]
unfoldable pub vpt : ℕ → Command ℕ
unfolding vpd
vpt pn = do pde ← vpd (pn / 1024); reads (λ k. k.frame (pgnum pde) (pn % 1024))

-- The flags PTE_P and PTE_U, both
abbrev pub is_user : ℕ → Bool
is_user entry = bit_and entry 5 == 5

-- (PGOFF(pte) | PTE_COW) & (~PTE_W)
abbrev pub cow_perm : ℕ → ℕ
cow_perm pte = bit_and (bit_or (pgoff pte) pte_cow) (2 ^ 32 - 1 - pte_w)

-- A page that is to be copied on a write, in the child and then in the caller.
unfoldable pub share_cow : (envid pn pte : ℕ) → Command Result
unfolding vpt sys_page_map
share_cow envid pn pte = do
  sys_page_map 0 (u32 (pn * 4096)) envid (u32 (pn * 4096)) (cow_perm pte)
  now ← vpt pn
  sys_page_map 0 (u32 (pn * 4096)) 0 (u32 (pn * 4096)) (cow_perm now)
  pure (ok 0)

share_readable : (envid pn pte : ℕ) → Command Result
unfolding sys_page_map
share_readable envid pn pte =
    sys_page_map 0 (u32 (pn * 4096)) envid (u32 (pn * 4096)) (pgoff pte) >> pure (ok 0)

share : (envid pn pte : ℕ) → Command Result
unfolding share_cow share_readable
share envid pn pte =
    if not (is_user pte)
    then pure (err inval)
    else if bit_and pte (bit_or pte_w pte_cow) == 0
    then share_readable envid pn pte
    else share_cow envid pn pte

unfoldable pub duppage : (envid pn : ℕ) → Command Result
unfolding vpd vpt share
duppage envid pn = do
  pde ← vpd (pn / 1024)
  let mapped = do pte ← vpt pn; share envid pn pte
  if is_user pde then mapped else pure (err inval)

-- A round of the loop in fork.
dup_round : (child_envid pgn : ℕ) → Command (Unit {0})
unfolding vpd vpt duppage sys_page_alloc
dup_round child_envid pgn = do
  pde ← vpd (pgn / 1024)
  let stack = sys_page_alloc child_envid uxstackbase 7 >> done
  let dup = do pte ← vpt pgn; if is_user pte then (duppage child_envid pgn >> done) else done
  if pgn == pgnum uxstackbase
      then stack
      else if ltb pgn (pgnum uxstackbase) && is_user pde
      then dup
      else done

-- `n` rounds from `pgn` on; fork makes them for all pages below UTOP.
unfoldable pub dup_pages : (child_envid n pgn : ℕ) → Command (Unit {0})
unfolding dup_round
dup_pages child_envid zero pgn = done
dup_pages child_envid (suc n) pgn = dup_round child_envid pgn >> dup_pages child_envid n (pgn + 1)
