-- ===== src/Tests/Paging.antt =====
-- Runs of the code of kern/pmap.c.
use library_os_exokernel_imp.Base.{◌+◌, ◌<◌, ◌⊎◌, ◌≡◌, refl, true, some, [], ◌∷◌, arith, bit_or}
use library_os_exokernel_imp.Mmu.{pte_p}
use library_os_exokernel_imp.Error.{ok}
use library_os_exokernel_imp.Kernel.{Kernel}
use library_os_exokernel_imp.Kernel.Command.{returned}
use library_os_exokernel_imp.Pmap.Pages.{page_alloc, page_decref}
use library_os_exokernel_imp.Pmap.Pages.FreeList.{
  IsFreeList, Allocated, page_alloc-cons, page_decref_cases,
}
use library_os_exokernel_imp.Pmap.Tables.{page_lookup, page_remove}
use library_os_exokernel_imp.Pmap.Tables.Walk.{translate, lookup_result, page_lookup-translate}
use library_os_exokernel_imp.Pmap.Tables.Remove.{Removed, is_current, page_remove-Removed}
use library_os_exokernel_imp.Pmap.UserMem.{user_mem_check}
use library_os_exokernel_imp.Pmap.UserMem.Sound.{
  Checked, user_mem_check-Checked, user_mem_check-tail,
}
use library_os_exokernel_imp.Tests.Machine.{
  machine, machine-IsFreeList, machine-HasTable, machine-IsMapped, machine-IsDirectory,
}

page_alloc-cons_example :
    (k' : Kernel) × (page_alloc 1 machine ≡ returned (some 5) k')
    × IsFreeList k' (6 ∷ [])
    × Allocated 1 5 machine k'
page_alloc-cons_example = page_alloc-cons 1 machine-IsFreeList

page_decref_cases_example :
    (k' : Kernel) × (page_decref 4 machine ≡ returned tt k')
    × ((((machine.pages 4).pp_ref ≡ 1) × IsFreeList k' (4 ∷ 5 ∷ 6 ∷ []))
        ⊎ ((1 < (machine.pages 4).pp_ref) × IsFreeList k' (5 ∷ 6 ∷ [])))
    × ((k'.pages 4).pp_ref + 1 ≡ (machine.pages 4).pp_ref)
page_decref_cases_example =
    page_decref_cases 4 machine-IsFreeList (omega arith) (omega arith) (omega arith)

page_lookup-translate_example :
    page_lookup 2 0 machine ≡ returned (lookup_result (translate machine.frame 2 0) 3 0) machine
page_lookup-translate_example = page_lookup-translate machine-HasTable (λ h. omega arith)

page_remove-Removed_example :
    (k' : Kernel) × (page_remove 2 0 machine ≡ returned tt k') × Removed 2 0 3 4 machine k'
page_remove-Removed_example = page_remove-Removed machine-HasTable machine-IsMapped

machine-is_current : is_current 2 machine ≡ true
unfolding is_current
machine-is_current = refl

user_mem_check-Checked_example :
    Checked machine 2 (bit_or 4 pte_p) 0 (0 + 5000) (user_mem_check 0 0 5000 4 machine)
user_mem_check-Checked_example =
    user_mem_check-Checked 0 0 5000 4 refl machine-IsDirectory refl (omega arith)

-- The byte at 4096 is in no page.
user_mem_check-tail_example : user_mem_check 0 4000 200 4 machine ≡ returned (ok 0) machine
user_mem_check-tail_example =
    user_mem_check-tail 0 4000 200 4 refl machine-IsDirectory (omega arith) (omega arith)
      (record { below = omega arith; table = refl; entry = refl })
