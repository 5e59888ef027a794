-- ===== src/Syscall/Memory/Alloc.antt =====
-- sys_page_alloc: a fresh page at an address.
use library_os_exokernel_imp.Base.{
  ℕ, ◌<◌, ◌≡◌, refl, ap, ◌∙◌, ◌≢◌, true, false, some, List, ◌∷◌, arith,
}
use library_os_exokernel_imp.Mmu.{utop}
use library_os_exokernel_imp.Kernel.{Kernel}
use library_os_exokernel_imp.Kernel.Command.{returned, non_null, ◌>>=◌, and_then}
use library_os_exokernel_imp.Error.{ok}
use library_os_exokernel_imp.Env.Table.{envid2env, found}
use library_os_exokernel_imp.Pmap.Pages.{alloc_zero, page_alloc}
use library_os_exokernel_imp.Pmap.Pages.FreeList.{
  IsFreeList, Allocated, allocated, page_alloc-eq, Allocated-allocated, IsFreeList-allocated,
}
use library_os_exokernel_imp.Pmap.Tables.{page_insert}
use library_os_exokernel_imp.Pmap.Tables.Walk.{HasTable}
use library_os_exokernel_imp.Pmap.Tables.Written.{EntryInMemory}
use library_os_exokernel_imp.Pmap.Tables.Insert.{Inserted, page_insert-Inserted}
use library_os_exokernel_imp.Syscall.Memory.{
  bad_perm, alloc_at, sys_page_alloc, insert_new, page_inserted,
}

sys_page_alloc-found :
    (k : Kernel) (envid va perm e : ℕ)
    → envid2env envid true k ≡ returned (found (some e)) k
    → va < utop
    → bad_perm perm ≡ false
    → sys_page_alloc envid va perm k ≡ alloc_at va perm e k
unfolding sys_page_alloc
sys_page_alloc-found k envid va perm e f low good = rw f

alloc_at-allocated :
    (k : Kernel) (va perm e p : ℕ)
    → va < utop
    → bad_perm perm ≡ false
    → page_alloc alloc_zero k ≡ returned (some p) (allocated alloc_zero p k)
    → alloc_at va perm e k ≡ insert_new e va perm (some p) (allocated alloc_zero p k)
unfolding alloc_at
alloc_at-allocated k va perm e p low good h = ground (arith, h)

HasTable-allocated :
    {k : Kernel} {pgdir va t : ℕ} (p : ℕ)
    → HasTable k pgdir va t
    → p ≢ pgdir
    → HasTable (allocated alloc_zero p k) pgdir va t
unfolding allocated
HasTable-allocated p h ne = record {
  present = ground (arith, h.present);
  names = ground (arith, h.names);
  in_memory = h.in_memory;
  apart = h.apart;
  fits = h.fits;
}

EntryInMemory-allocated :
    (k : Kernel) (va t p : ℕ)
    → EntryInMemory k t va
    → p ≢ t
    → EntryInMemory (allocated alloc_zero p k) t va
unfolding allocated
EntryInMemory-allocated k va t p h ne = λ e. ground (arith, h)

insert_new-inserted :
    (k k' : Kernel) (e va perm p pgdir : ℕ)
    → (k.envs e).env_pgdir ≡ some pgdir
    → page_insert pgdir (some p) va perm k ≡ returned (ok 0) k'
    → insert_new e va perm (some p) k ≡ returned (ok 0) k'
unfolding insert_new
insert_new-inserted k k' e va perm p pgdir dir h =
    ap (λ d. (non_null d >>= λ g. page_insert g (some p) va perm >>= page_inserted p) k) dir
    ∙ ap (λ o. and_then o (page_inserted p)) h

-- What stays of the machine when a page is allocated.
allocated-rest :
    (k : Kernel) (p e : ℕ)
    → ((allocated alloc_zero p k).npages ≡ k.npages)
      × (((allocated alloc_zero p k).pages p).paddr ≡ (k.pages p).paddr)
      × (((allocated alloc_zero p k).envs e).env_pgdir ≡ (k.envs e).env_pgdir)
unfolding allocated
allocated-rest k p e = (refl, ground arith, refl)

-- sys_page_alloc for an environment that the caller may change, at an address below UTOP that a
-- page table covers and with a permission of 12 bits that is allowed, returns 0 where the free
-- page that it takes is neither the page directory nor that table: with the page `p` off the free
-- list and zeroed, all that page_insert promises of `p` at that address holds. This is so for an
-- address that is not page-aligned and for a permission without PTE_U or PTE_P, too, for which the
-- code's comment asks for -E_INVAL.
pub sys_page_alloc-Inserted :
    {k : Kernel} {pgdir t p : ℕ} {ps : List ℕ} (envid va perm e : ℕ)
    → envid2env envid true k ≡ returned (found (some e)) k
    → va < utop
    → bad_perm perm ≡ false
    → perm < 4096
    → (k.envs e).env_pgdir ≡ some pgdir
    → HasTable k pgdir va t
    → EntryInMemory k t va
    → IsFreeList k (p ∷ ps)
    → p ≢ pgdir
    → p ≢ t
    → (zeroed k' : Kernel) × Allocated alloc_zero p k zeroed
      × IsFreeList zeroed ps
      × (sys_page_alloc envid va perm k ≡ returned (ok 0) k')
      × Inserted pgdir va t p perm zeroed k'
sys_page_alloc-Inserted {k} {pgdir} {t} {p} {ps} envid va perm e f low good small dir h within list
      nd nt =
    let got =
      page_alloc-eq alloc_zero p k list.chain.0 list.unused.0 (list.addressed p list.unused.0) in
    let free = IsFreeList-allocated alloc_zero p k ps list in
    let (n, a, d) = allocated-rest k p e in
    let (k', eq, done) =
      page_insert-Inserted p perm (HasTable-allocated p h nd)
        (EntryInMemory-allocated k va t p within nt) (omega (arith, n, list.unused.0))
        (a ∙ list.addressed p list.unused.0) small in
    (
      allocated alloc_zero p k,
      k',
      Allocated-allocated alloc_zero p k,
      free,
      sys_page_alloc-found k envid va perm e f low good
          ∙ alloc_at-allocated k va perm e p low good got
          ∙ insert_new-inserted (allocated alloc_zero p k) k' e va perm p pgdir (d ∙ dir) eq,
      done,
    )
