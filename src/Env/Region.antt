-- ===== src/Env/Region.antt =====
-- region_alloc of kern/env.c.
use library_os_exokernel_imp.Base.{
  ℕ, zero, suc, ◌+◌, ◌/◌, false, Option, none, some, ltb, leb, if◌then◌else◌, bit_or,
}
use library_os_exokernel_imp.Mmu.{u32, pgsize, pte_p, pte_w, pte_u, round_down, round_up, utop}
use library_os_exokernel_imp.Kernel.Command.{
  Command, out_of_fuel, ◌>>=◌, ◌>>◌, panic, reads, done, non_null,
}
use library_os_exokernel_imp.Pmap.Pages.{page_alloc}
use library_os_exokernel_imp.Pmap.Tables.{Slot, page_insert, pgdir_walk}

map_page : ℕ → ℕ → Option ℕ → Command (Unit {0})
unfolding page_insert
map_page e va none = panic
map_page e va (some p) = do
  d ← reads (λ k. (k.envs e).env_pgdir)
  pgdir ← non_null d
  -- the result of page_insert is not looked at
  page_insert pgdir (some p) va (bit_or (bit_or pte_u pte_p) pte_w) >> done

map_pages : ℕ → (e rdown_va dstoft : ℕ) → Command (Unit {0})
unfolding page_alloc map_page
map_pages zero e rdown_va dstoft = λ _. out_of_fuel
map_pages (suc fuel) e rdown_va dstoft =
    let rest = map_pages fuel e (u32 (rdown_va + pgsize)) dstoft in
    if ltb rdown_va dstoft then (do p ← page_alloc 0; map_page e rdown_va p; rest) else done

-- A round moves `rdown_va` a page towards `dstoft`, which lies below UTOP.
unfoldable pub region_alloc : (e va len : ℕ) → Command (Option Slot)
unfolding map_pages pgdir_walk
region_alloc e va len =
    let dstoft = round_up (u32 (va + len)) pgsize in
    if leb utop dstoft then panic else (do
      map_pages (dstoft / pgsize + 1) e (round_down va pgsize) dstoft
      d ← reads (λ k. (k.envs e).env_pgdir)
      pgdir ← non_null d
      pgdir_walk pgdir va false)
