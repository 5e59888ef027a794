-- ===== src/Pmap/Boot.antt =====
-- boot_map_region of kern/pmap.c, with which mem_init builds the kernel's page directory.
use library_os_exokernel_imp.Base.{
  ℕ, zero, suc, ◌+◌, ◌/◌, Bool, true, false, not, ◌&&◌, ◌||◌, Option, none, some, ◌==◌,
  if◌then◌else◌, bit_or,
}
use library_os_exokernel_imp.Mmu.{u32, pgsize, pdx, pte_p, pte_u, pte_addr, has, round_up}
use library_os_exokernel_imp.Kernel.Command.{Command, ◌>>=◌, ◌>>◌, panic, done, when}
use library_os_exokernel_imp.Pmap.Tables.{Slot, load, store, pgdir_walk}

-- `-1 == compare_MAX(v, max, units)`
unfoldable pub compare_max_hits : (v max units : ℕ) → Bool
compare_max_hits v max zero = false
compare_max_hits v max (suc units) = compare_max_hits v max units || (u32 (v + units) == max)

-- The body of the loop, with the slot that pgdir_walk gives.
map_slot : (pgdir va pa perm : ℕ) → Option Slot → Command (Unit {0})
map_slot pgdir va pa perm none = panic
map_slot pgdir va pa perm (some ptep) = do
  store ptep (bit_or (bit_or (pte_addr pa) perm) pte_p)
  pde ← load (pgdir, pdx va)
  when (has perm pte_u && not (has pde pte_u)) (store (pgdir, pdx va) (bit_or pde pte_u))

-- The rounds left: each maps a page.
map_region : ℕ → (pgdir va pa perm : ℕ) → Command (Unit {0})
unfolding pgdir_walk map_slot
map_region zero pgdir va pa perm = done
map_region (suc n) pgdir va pa perm = do
  s ← pgdir_walk pgdir va true
  map_slot pgdir va pa perm s
  map_region n pgdir (u32 (va + pgsize)) (u32 (pa + pgsize)) perm

unfoldable pub boot_map_region : (pgdir va size pa perm : ℕ) → Command (Unit {0})
unfolding compare_max_hits map_region
boot_map_region pgdir va size pa perm =
    if compare_max_hits va 0xffff_ffff 4 || compare_max_hits pa 0xffff_ffff 4
    then done
    else map_region (round_up size pgsize / pgsize) pgdir va pa perm
