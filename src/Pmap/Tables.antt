-- ===== src/Pmap/Tables.antt =====
-- The two-level page tables of kern/pmap.c: pgdir_walk, page_lookup, page_remove, tlb_invalidate
-- and page_insert. The options __PT_REF__ and __PD_REF__ are off, as in the source.
pub mod Walk
pub mod Remove
pub mod Written
pub mod Allowed
pub mod Insert
use library_os_exokernel_imp.Base.{
  ℕ, zero, suc, ◌+◌, ◌-◌, ◌*◌, ◌/◌, ◌%◌, ◌^◌, Bool, true, false, not, ◌&&◌, ◌||◌, Option, none,
  some, List, [], ◌∷◌, ◌==◌, ltb, leb, if◌then◌else◌, is_null, same_ptr, bit_and, bit_or,
}
use library_os_exokernel_imp.Mmu.{
  u32, pgsize, pgnum, pdx, ptx, pte_p, pte_w, pte_u, pte_addr, has, ulim, round_down,
}
use library_os_exokernel_imp.Kernel.{Kernel, Page, with_page, with_word, with_zero}
use library_os_exokernel_imp.Kernel.Command.{
  Command, Outcome, returned, panicked, pure, ◌>>=◌, ◌>>◌, panic, reads, modify, done, when,
}
use library_os_exokernel_imp.Error.{Result, ok, err, no_mem, unspecified}
use library_os_exokernel_imp.Pmap.Pages.{
  pa2page, kaddr, page2pa, page2kva, alloc_zero, page_alloc, page_decref, incref,
}

-- A `pte_t *`: a page of memory and the index of a word in it.
abbrev pub Slot : Type 0
Slot = ℕ × ℕ

abbrev pub load : Slot → Command ℕ
load (p, i) = reads (λ k. k.frame p i)

abbrev pub store : Slot → ℕ → Command (Unit {0})
store (p, i) v = modify (with_word p i v)

-- `&((pte_t *) page2kva(pde_pg))[PTX(va)]`
table_slot : ℕ → ℕ → Command (Option Slot)
unfolding kaddr
table_slot va pde_pg = do t ← page2kva pde_pg; pure (some (t, ptx va))

new_table : ℕ → ℕ → Option ℕ → Command (Option Slot)
unfolding table_slot
new_table pgdir va none = pure none
new_table pgdir va (some pde_pg) = do
  incref pde_pg
  store (pgdir, pdx va) (bit_or (bit_or (page2pa pde_pg) pte_p) pte_w)
  table_slot va pde_pg

-- The page-directory entry is there.
old_table : ℕ → ℕ → Command (Option Slot)
unfolding pa2page table_slot
old_table va pde = do pde_pg ← pa2page pde; table_slot va pde_pg

-- It is not, and a table is to be allocated.
make_table : ℕ → ℕ → Command (Option Slot)
unfolding page_alloc new_table
make_table pgdir va = do pg ← page_alloc alloc_zero; new_table pgdir va pg

unfoldable pub pgdir_walk : ℕ → ℕ → Bool → Command (Option Slot)
unfolding old_table make_table
pgdir_walk pgdir va create = do
  pde ← load (pgdir, pdx va)
  if has pde pte_p then old_table va pde else if create then make_table pgdir va else pure none

-- pa2page(PTE_ADDR(pte)), with the slot of the entry
page_of : Slot → ℕ → Command (Option (ℕ × Slot))
unfolding pa2page
page_of s pte = do pp ← pa2page (pte_addr pte); pure (some (pp, s))

-- The page mapped at an address, with the slot of its entry.
lookup_slot : Option Slot → Command (Option (ℕ × Slot))
unfolding page_of
lookup_slot none = pure none
lookup_slot (some s) = do pte ← load s; if has pte pte_p then page_of s pte else pure none

unfoldable pub page_lookup : ℕ → ℕ → Command (Option (ℕ × Slot))
unfolding pgdir_walk lookup_slot
page_lookup pgdir va = do s ← pgdir_walk pgdir va false; lookup_slot s

-- The page directory of `curenv`, if there is a `curenv`.
abbrev cur_pgdir : Kernel → Option (Option ℕ)
cur_pgdir k = elim k.curenv [ none ↦ none | some e ↦ some (k.envs e).env_pgdir ]

flushes : Option (Option ℕ) → ℕ → Bool
flushes none pgdir = true
flushes (some d) pgdir = same_ptr d (some pgdir)

unfoldable pub tlb_invalidate : ℕ → ℕ → Command (Unit {0})
unfolding flushes
tlb_invalidate pgdir va = do
  cur ← reads cur_pgdir
  when (flushes cur pgdir) (modify (λ k. record k { invalidated = va ∷ k.invalidated }))

remove_found : ℕ → ℕ → Option (ℕ × Slot) → Command (Unit {0})
unfolding page_decref tlb_invalidate
remove_found pgdir va none = done
remove_found pgdir va (some (rm_page, rm_pte)) = do
  page_decref rm_page
  refs ← reads (λ k. (k.pages rm_page).pp_ref)
  when (refs == 0) (tlb_invalidate pgdir va)
  store rm_pte 0

unfoldable pub page_remove : ℕ → ℕ → Command (Unit {0})
unfolding page_lookup remove_found
page_remove pgdir va = do found ← page_lookup pgdir va; remove_found pgdir va found

-- page_insert at an entry that maps another page: `pp_ref` goes up before the old mapping goes.
unmap_old : (pgdir pp va : ℕ) → Slot → Command (Unit {0})
unfolding page_remove
unmap_old pgdir pp va ptep = do
  pa ← reads (λ k. (k.pages pp).paddr)
  pte ← load ptep
  let remap = incref pp >> when (has pte pte_p) (page_remove pgdir va)
  when (not (pa == pte_addr pte)) remap

-- The part of `page_insert` after the walk.
pub write_entry : (pgdir pp va perm : ℕ) → Slot → Command Result
unfolding unmap_old
write_entry pgdir pp va perm ptep = do
  pde ← load (pgdir, pdx va)
  store (pgdir, pdx va) (bit_or pde (bit_or perm pte_p))
  unmap_old pgdir pp va ptep
  store ptep (bit_or (bit_or (page2pa pp) perm) pte_p)
  pure (ok 0)

insert_at : (pgdir : ℕ) → Option ℕ → (va perm : ℕ) → Option Slot → Command Result
unfolding write_entry
insert_at pgdir pp va perm none = pure (err no_mem)
insert_at pgdir none va perm (some ptep) = pure (err unspecified)
insert_at pgdir (some pp) va perm (some ptep) = write_entry pgdir pp va perm ptep

unfoldable pub page_insert : (pgdir : ℕ) → Option ℕ → (va perm : ℕ) → Command Result
unfolding pgdir_walk insert_at
page_insert pgdir pp va perm = do ptep ← pgdir_walk pgdir va true; insert_at pgdir pp va perm ptep
