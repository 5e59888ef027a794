-- ===== src/Tests/Boot.antt =====
-- Runs of the code that sets up the kernel, and of its lock.
use library_os_exokernel_imp.Base.{
  ℕ, ◌==◌, if◌then◌else◌, ◌+◌, ◌-◌, ◌*◌, ◌≡◌, ◌≢◌, refl, true, some, arith,
}
use library_os_exokernel_imp.Mmu.{kernbase, pgnum}
use library_os_exokernel_imp.Kernel.{Kernel}
use library_os_exokernel_imp.Kernel.Command.{returned}
use library_os_exokernel_imp.Pmap.EntryPgdir.{
  entry_pgdir, entry_pgtable, mapped_at_entry, granted_at_entry, translate-entry_pgdir,
}
use library_os_exokernel_imp.Pmap.Tables.Walk.{translate, access}
use library_os_exokernel_imp.Pmap.Init.{page_init}
use library_os_exokernel_imp.Pmap.Init.FreeList.{free_pages, page_init-IsFreeList}
use library_os_exokernel_imp.Pmap.Pages.FreeList.{IsFreeList}
use library_os_exokernel_imp.Spinlock.{
  Spinlock, initlock, turn, move, Reach, started, after, by_cpu, acquired, spinning, stopped,
}
use library_os_exokernel_imp.Spinlock.Exclusion.{holds, waits, exclusion, turn-acquired}
use library_os_exokernel_imp.Tests.Machine.{machine}

-- 4 MB, of which the kernel takes the first 300 pages.
abbrev small_machine : Kernel
small_machine = record machine { npages = 1024 }

page_init-IsFreeList_example :
    (k' : Kernel) × (page_init 0 (some (kernbase + 300 * 4096)) small_machine ≡ returned tt k')
    × IsFreeList k' (free_pages (pgnum (kernbase + 300 * 4096 - kernbase)) 1024)
page_init-IsFreeList_example =
    page_init-IsFreeList 0 (kernbase + 300 * 4096) small_machine (omega arith) (omega arith)
      (omega arith) (omega arith)

-- CPU 0 is in the loop of spin_lock.
abbrev at_loop : Spinlock
at_loop = turn 0 (turn 0 initlock)

at_loop-Reach : Reach at_loop
at_loop-Reach = after (after started (by_cpu 0)) (by_cpu 0)

exclusion_example :
    ((i j : ℕ)
      → holds ((turn 0 at_loop).place i) ≡ true
      → holds ((turn 0 at_loop).place j) ≡ true
      → i ≡ j)
    × ((i : ℕ) → (turn 0 at_loop).place i ≢ stopped)
exclusion_example = exclusion (turn 0 at_loop) (after at_loop-Reach (by_cpu 0))

at_loop-waits : (j : ℕ) → waits (at_loop.place j) ≡ true
unfolding turn move
at_loop-waits j = ground arith

at_loop-spinning : at_loop.place 0 ≡ spinning
unfolding turn move
at_loop-spinning = refl

turn-acquired_example : (turn 0 at_loop).place 0 ≡ acquired
turn-acquired_example = turn-acquired at_loop 0 at_loop-Reach at_loop-waits at_loop-spinning

-- entry_pgdir in page 300 and entry_pgtable in page 301.
abbrev entry_frame : ℕ → ℕ → ℕ
entry_frame p i = if p == 300 then entry_pgdir (kernbase + 301 * 4096) i else entry_pgtable i

translate-entry_pgdir_example :
    (translate entry_frame 300 (kernbase + 0x12345) ≡ mapped_at_entry (kernbase + 0x12345))
    × (access entry_frame 300 (kernbase + 0x12345) ≡ granted_at_entry (kernbase + 0x12345))
translate-entry_pgdir_example =
    translate-entry_pgdir entry_frame 300 (kernbase + 301 * 4096) (kernbase + 0x12345) (omega arith)
      (omega arith) (omega arith) (omega arith) (λ i h. refl) (λ i h. refl)

entry_translation : translate entry_frame 300 (kernbase + 0x12345) ≡ some (0x12, 3)
unfolding translate entry_pgdir entry_pgtable
entry_translation = refl
