-- ===== src/Pmap/Tables/Remove.antt =====
-- page_remove: what it does to the translation, to the reference count and to the TLB.
use library_os_exokernel_imp.Base.{
  ℕ, ◌+◌, ◌-◌, ◌%◌, ◌^◌, ◌<◌, ◌≡◌, ◌≢◌, refl, inl, inr, Bool, true, false, Option, none, some,
  Option-cases, ◌∷◌, arith, ◌==◌, leb, if◌then◌else◌, ◌&&◌,
}
use library_os_exokernel_imp.Mmu.{has, pgnum, pdx, ptx, pte_p}
use library_os_exokernel_imp.Mmu.Entry.{not_present}
use library_os_exokernel_imp.Kernel.{Kernel, Env, with_page, with_word}
use library_os_exokernel_imp.Kernel.Command.{returned}
use library_os_exokernel_imp.Pmap.Pages.{page_decref, page_free}
use library_os_exokernel_imp.Pmap.Pages.FreeList.{freed}
use library_os_exokernel_imp.Pmap.Tables.{
  page_remove, remove_found, tlb_invalidate, cur_pgdir, flushes,
}
use library_os_exokernel_imp.Pmap.Tables.Walk.{
  HasTable, translate, lookup_result, page_lookup-translate,
}

abbrev pub ref_of : Kernel → ℕ → ℕ
ref_of k p = (k.pages p).pp_ref

-- The state after page_decref, whatever the count and the address.
unfoldable pub decreffed : ℕ → Kernel → Kernel
decreffed p k =
    let d = with_page p (λ g. record g { pp_ref = (g.pp_ref + 2 ^ 16 - 1) % 2 ^ 16 }) k in
    if ref_of d p == 0 then (if leb d.npages (pgnum (d.pages p).paddr) then d else freed p d) else d

page_decref-decreffed : (p : ℕ) (k : Kernel) → page_decref p k ≡ returned tt (decreffed p k)
unfolding page_decref page_free decreffed freed
page_decref-decreffed p k = ground arith

-- What page_decref leaves alone, and the counts.
pub record Decreffed (p : ℕ) (k k' : Kernel) : Type 0 where
  pub frame : k'.frame ≡ k.frame
  pub envs : k'.envs ≡ k.envs
  pub curenv : k'.curenv ≡ k.curenv
  pub npages : k'.npages ≡ k.npages
  pub invalidated : k'.invalidated ≡ k.invalidated
  pub counted : ref_of k' p ≡ (ref_of k p + 2 ^ 16 - 1) % 2 ^ 16
  pub others : (q : ℕ) → q ≢ p → k'.pages q ≡ k.pages q

Decreffed-decreffed : (p : ℕ) (k : Kernel) → Decreffed p k (decreffed p k)
unfolding decreffed freed
Decreffed-decreffed p k = record {
  frame = ground arith;
  envs = ground arith;
  curenv = ground arith;
  npages = ground arith;
  invalidated = ground arith;
  counted = ground arith;
  others = λ q ne. ground arith;
}

is_page : Option ℕ → ℕ → Bool
is_page none p = false
is_page (some d) p = d == p

live : Option ℕ → (ℕ → Env) → ℕ → Bool
live none envs pgdir = true
live (some c) envs pgdir = is_page (envs c).env_pgdir pgdir

-- Whether the TLB may hold entries of `pgdir`: it is the page directory of `curenv`, or there is no
-- `curenv`.
unfoldable pub is_current : ℕ → Kernel → Bool
unfolding live is_page
is_current pgdir k = live k.curenv k.envs pgdir

flushes-live :
    (cur : Option ℕ) (envs : ℕ → Env) (pgdir : ℕ)
    → flushes (elim cur [ none ↦ none | some e ↦ some (envs e).env_pgdir ]) pgdir
      ≡ live cur envs pgdir
unfolding flushes live is_page
flushes-live none envs pgdir = refl
flushes-live (some c) envs pgdir = elim (Option-cases (envs c).env_pgdir) [
  | inl e ↦ ground arith
  | inr e ↦ ground arith
]

flushes-is_current : (pgdir : ℕ) (k : Kernel) → flushes (cur_pgdir k) pgdir ≡ is_current pgdir k
unfolding is_current
flushes-is_current pgdir k = flushes-live k.curenv k.envs pgdir

-- The state after page_remove has found the page `p` through the entry `ptx va` of the table `t`.
unfoldable pub removed : (pgdir va t p : ℕ) → Kernel → Kernel
unfolding is_current
removed pgdir va t p k =
    let d = decreffed p k in
    with_word t (ptx va) 0 (
      if (ref_of d p == 0) && is_current pgdir d
      then record d { invalidated = va ∷ d.invalidated }
      else d)

pub removed-paddr :
    (pgdir va t p : ℕ) (k : Kernel) (q : ℕ)
    → ((removed pgdir va t p k).pages q).paddr ≡ (k.pages q).paddr
unfolding removed decreffed freed
removed-paddr pgdir va t p k q = ground arith

remove_found-removed :
    (pgdir va t p : ℕ) (k : Kernel)
    → remove_found pgdir va (some (p, (t, ptx va))) k ≡ returned tt (removed pgdir va t p k)
unfolding remove_found tlb_invalidate removed
remove_found-removed pgdir va t p k =
    rw (page_decref-decreffed p k) (ground (arith, flushes-is_current pgdir (decreffed p k)))

-- Whether there is a mapping for `va` in the table `t`, of a page of the memory.
pub record IsMapped (k : Kernel) (t va p : ℕ) : Type 0 where
  pub entry : has (k.frame t (ptx va)) pte_p ≡ true
  pub page : pgnum (k.frame t (ptx va)) ≡ p
  pub in_memory : p < k.npages

translate-mapped :
    {k : Kernel} {pgdir va t p : ℕ}
    → HasTable k pgdir va t
    → IsMapped k t va p
    → translate k.frame pgdir va ≡ some (p, k.frame t (ptx va) % 4096)
unfolding translate
translate-mapped h m = ground arith

pub page_remove-removed :
    {k : Kernel} {pgdir va t p : ℕ}
    → HasTable k pgdir va t
    → IsMapped k t va p
    → page_remove pgdir va k ≡ returned tt (removed pgdir va t p k)
unfolding page_remove lookup_result
page_remove-removed {k} {pgdir} {va} {t} {p} h m =
    rw (page_lookup-translate h (λ _. ground arith), translate-mapped h m)
      (remove_found-removed pgdir va t p k)

-- What page_remove does to everything that it may touch.
pub record Removed (pgdir va t p : ℕ) (k k' : Kernel) : Type 0 where
  pub unmapped : translate k'.frame pgdir va ≡ none
  pub words : (q i : ℕ) → k'.frame q i ≡ (if (q == t) && (i == ptx va) then 0 else k.frame q i)
  pub counted : ref_of k' p ≡ (ref_of k p + 2 ^ 16 - 1) % 2 ^ 16
  pub others : (q : ℕ) → q ≢ p → k'.pages q ≡ k.pages q
  pub tlb :
      k'.invalidated
      ≡ (if (ref_of k' p == 0) && is_current pgdir k then va ∷ k.invalidated else k.invalidated)
  pub envs : (k'.envs ≡ k.envs) × (k'.curenv ≡ k.curenv) × (k'.npages ≡ k.npages)

is_current-decreffed :
    (pgdir p : ℕ) (k : Kernel) → is_current pgdir (decreffed p k) ≡ is_current pgdir k
unfolding is_current
is_current-decreffed pgdir p k = ground (arith, Decreffed-decreffed p k)

pub removed-words :
    (pgdir va t p : ℕ) (k : Kernel) (q i : ℕ)
    → (removed pgdir va t p k).frame q i ≡ (if (q == t) && (i == ptx va) then 0 else k.frame q i)
unfolding removed
removed-words pgdir va t p k q i = ground (arith, Decreffed-decreffed p k)

removed-unmapped :
    {k : Kernel} {pgdir va t : ℕ} (p : ℕ)
    → HasTable k pgdir va t
    → translate (removed pgdir va t p k).frame pgdir va ≡ none
unfolding translate
removed-unmapped {k} {pgdir} {va} {t} p h = ground (
  arith,
  removed-words pgdir va t p k pgdir (pdx va),
  removed-words pgdir va t p k t (ptx va),
  not_present,
)

pub Removed-removed :
    {k : Kernel} {pgdir va t : ℕ} (p : ℕ)
    → HasTable k pgdir va t
    → Removed pgdir va t p k (removed pgdir va t p k)
unfolding removed
Removed-removed {k} {pgdir} {va} {t} p h = record {
  unmapped = removed-unmapped p h;
  words = removed-words pgdir va t p k;
  counted = ground (arith, Decreffed-decreffed p k);
  others = λ q ne. ground (arith, (Decreffed-decreffed p k).others q);
  tlb = ground (arith, Decreffed-decreffed p k, is_current-decreffed pgdir p k);
  envs = ground (arith, Decreffed-decreffed p k);
}

-- page_remove of a mapped address returns; afterwards the address is unmapped, its entry is the
-- only word of memory that has changed, the page has lost one reference and no other page has
-- changed, and the address is flushed from the TLB exactly if that was the last reference and the
-- page directory is that of `curenv`, or there is no `curenv`.
pub page_remove-Removed :
    {k : Kernel} {pgdir va t p : ℕ}
    → HasTable k pgdir va t
    → IsMapped k t va p
    → (k' : Kernel) × (page_remove pgdir va k ≡ returned tt k') × Removed pgdir va t p k k'
page_remove-Removed {k} {pgdir} {va} {t} {p} h m =
    (removed pgdir va t p k, page_remove-removed h m, Removed-removed p h)

-- The TLB entry of a mapped address stays where the page has a second reference, counted without
-- overflow: though the entry of the current page directory has been removed, no address is
-- flushed.
pub page_remove-stale_tlb :
    {k : Kernel} {pgdir va t p : ℕ}
    → HasTable k pgdir va t
    → IsMapped k t va p
    → 1 < ref_of k p
    → ref_of k p < 2 ^ 16
    → is_current pgdir k ≡ true
    → (k' : Kernel) × (page_remove pgdir va k ≡ returned tt k')
      × (translate k.frame pgdir va ≢ none)
      × (translate k'.frame pgdir va ≡ none)
      × (k'.invalidated ≡ k.invalidated)
page_remove-stale_tlb {k} {pgdir} {va} {t} {p} h m more small cur = (
  removed pgdir va t p k,
  page_remove-removed h m,
  ground (arith, translate-mapped h m),
  removed-unmapped p h,
  ground (arith, Removed-removed p h),
)

-- With no mapping page_remove does nothing.
page_remove-unmapped :
    {k : Kernel} {pgdir va t : ℕ}
    → HasTable k pgdir va t
    → has (k.frame t (ptx va)) pte_p ≡ false
    → page_remove pgdir va k ≡ returned tt k
unfolding page_remove remove_found lookup_result translate
page_remove-unmapped h e = rw (page_lookup-translate h (λ p. cc)) (ground arith)
