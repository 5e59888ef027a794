-- ===== src/Pmap/Tables/Insert.antt =====
-- page_insert: what it does to the translation and to the reference counts.
use library_os_exokernel_imp.Base.{
  ℕ, ◌*◌, ◌<◌, ◌≡◌, true, false, some, [], arith, ◌==◌, bit_or, ◌&&◌,
}
use library_os_exokernel_imp.Mmu.{has, pgnum, pdx, ptx, pte_p, pte_w, pte_u}
use library_os_exokernel_imp.Kernel.{Kernel}
use library_os_exokernel_imp.Kernel.Command.{returned}
use library_os_exokernel_imp.Error.{ok, err, no_mem}
use library_os_exokernel_imp.Pmap.Pages.FreeList.{IsFreeList}
use library_os_exokernel_imp.Pmap.Tables.{page_insert, insert_at}
use library_os_exokernel_imp.Pmap.Tables.Walk.{
  HasTable, translate, access, pgdir_walk-present, pgdir_walk-no_memory,
}
use library_os_exokernel_imp.Pmap.Tables.Remove.{ref_of, removed-paddr, Removed-removed}
use library_os_exokernel_imp.Pmap.Tables.Allowed.{flushed, inserted-granted, inserted-flushed}
use library_os_exokernel_imp.Pmap.Tables.Written.{
  flagged, HasTable-flagged, referred, HasTable-referred, unmapped, inserted, EntryInMemory,
  write_entry-inserted, at_slot, inserted-words, HasTable-inserted, inserted-mapped, recounted,
  inserted-counts,
}

-- What page_insert leaves at the entry of `va` in the table `t`, and everywhere else.
pub record Inserted (pgdir va t pp perm : ℕ) (k k' : Kernel) : Type 0 where
  pub mapped : translate k'.frame pgdir va ≡ some (pp, bit_or perm pte_p)
  pub granted : access k'.frame pgdir va ≡ some (pp, has perm pte_w, has perm pte_u)
  pub tlb : k'.invalidated ≡ flushed pgdir va t pp k k'
  pub counted : (q : ℕ) → ref_of k' q ≡ recounted k t va pp q
  pub words :
      (q i : ℕ)
      → at_slot t va q i ≡ false
      → ((q == pgdir) && (i == pdx va)) ≡ false
      → k'.frame q i ≡ k.frame q i
  pub covered : (has (k'.frame pgdir (pdx va)) pte_p ≡ true) × (pgnum (k'.frame pgdir (pdx va)) ≡ t)
  pub machine : (k'.envs ≡ k.envs) × (k'.curenv ≡ k.curenv) × (k'.npages ≡ k.npages)
  pub addresses : (q : ℕ) → (k'.pages q).paddr ≡ (k.pages q).paddr

unmapped-machine :
    {k : Kernel} {pgdir va t : ℕ} (pp : ℕ)
    → HasTable k pgdir va t
    → let k' = unmapped pgdir pp va t k in
      (k'.envs ≡ k.envs) × (k'.curenv ≡ k.curenv) × (k'.npages ≡ k.npages)
unfolding unmapped referred
unmapped-machine {k} {pgdir} {va} {t} pp h =
    ground (arith, (Removed-removed (pgnum (k.frame t (ptx va))) (HasTable-referred pp h)).envs)

unmapped-paddr :
    (pgdir pp va t : ℕ) (k : Kernel) (q : ℕ)
    → ((unmapped pgdir pp va t k).pages q).paddr ≡ (k.pages q).paddr
unfolding unmapped referred
unmapped-paddr pgdir pp va t k q =
    ground (arith, removed-paddr pgdir va t (pgnum (k.frame t (ptx va))) (referred pp k) q)

pub page_insert-Inserted :
    {k : Kernel} {pgdir va t : ℕ} (pp perm : ℕ)
    → HasTable k pgdir va t
    → EntryInMemory k t va
    → pp < k.npages
    → (k.pages pp).paddr ≡ pp * 4096
    → perm < 4096
    → (k' : Kernel) × (page_insert pgdir (some pp) va perm k ≡ returned (ok 0) k')
      × Inserted pgdir va t pp perm k k'
unfolding page_insert insert_at inserted flagged
page_insert-Inserted {k} {pgdir} {va} {t} pp perm h within lt a small = (
  inserted pgdir pp va perm t k,
  rw (pgdir_walk-present true h, write_entry-inserted pp perm small h within),
  record {
    mapped = inserted-mapped pp perm small lt h;
    granted = inserted-granted pp perm small lt h;
    tlb = inserted-flushed pp perm small h a;
    counted = inserted-counts pp perm small h a;
    words = λ q i ne ne'. ground (arith, inserted-words pgdir pp va perm t k q i);
    covered = HasTable-inserted {va = va} pp perm small h;
    machine = unmapped-machine pp (HasTable-flagged perm small h);
    addresses = λ q. unmapped-paddr pgdir pp va t (flagged pgdir va perm k) q;
  },
)

-- With no table for the address and no free page to make one of, page_insert returns -E_NO_MEM and
-- changes nothing.
pub page_insert-no_memory :
    {k : Kernel} (pgdir pp va perm : ℕ)
    → has (k.frame pgdir (pdx va)) pte_p ≡ false
    → IsFreeList k []
    → page_insert pgdir (some pp) va perm k ≡ returned (err no_mem) k
unfolding page_insert insert_at
page_insert-no_memory pgdir pp va perm h f = rw (pgdir_walk-no_memory pgdir va h f)
