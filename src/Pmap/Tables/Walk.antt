-- ===== src/Pmap/Tables/Walk.antt =====
-- What the page tables mean: the translation and the access that they give, and pgdir_walk and
-- page_lookup against it.
use library_os_exokernel_imp.Base.{
  ℕ, ◌+◌, ◌%◌, ◌^◌, ◌≤◌, ◌<◌, ◌≡◌, ◌≢◌, Bool, true, false, Option, none, some, List, [], ◌∷◌, arith,
  if◌then◌else◌, bit_or, ◌&&◌,
}
use library_os_exokernel_imp.Mmu.{has, pgnum, pdx, ptx, pte_p, pte_w, pte_u, pte_addr}
use library_os_exokernel_imp.Mmu.Entry.{pgnum-bit_or, has-pte_p, has-pte_p_or}
use library_os_exokernel_imp.Kernel.{Kernel, with_page, with_word}
use library_os_exokernel_imp.Kernel.Command.{returned}
use library_os_exokernel_imp.Pmap.Pages.{kaddr, pa2page, page2pa, alloc_zero}
use library_os_exokernel_imp.Pmap.Pages.FreeList.{
  IsFreeList, allocated, page_alloc-eq, page_alloc-nil,
}
use library_os_exokernel_imp.Pmap.Tables.{Slot, table_slot, pgdir_walk, page_lookup}

-- The page that the two levels of tables give for an address, with the flags of the table's entry.
unfoldable pub translate : (ℕ → ℕ → ℕ) → ℕ → ℕ → Option (ℕ × ℕ)
translate frame pgdir va =
    let pde = frame pgdir (pdx va) in
    let pte = frame (pgnum pde) (ptx va) in
    if has pde pte_p then (if has pte pte_p then some (pgnum pte, pte % 4096) else none) else none

-- What the MMU lets an instruction do at an address: the page, whether it may be written, and
-- whether a program in user mode may use it. The entries of both levels must allow it.
unfoldable pub access : (ℕ → ℕ → ℕ) → ℕ → ℕ → Option (ℕ × Bool × Bool)
access frame pgdir va =
    let pde = frame pgdir (pdx va) in
    let pte = frame (pgnum pde) (ptx va) in
    if has pde pte_p && has pte pte_p
    then some (pgnum pte, has pde pte_w && has pte pte_w, has pde pte_u && has pte pte_u)
    else none

-- `t` is the page table that covers `va`.
pub record HasTable (k : Kernel) (pgdir va t : ℕ) : Type 0 where
  pub present : has (k.frame pgdir (pdx va)) pte_p ≡ true
  pub names : pgnum (k.frame pgdir (pdx va)) ≡ t
  pub in_memory : t < k.npages
  pub apart : t ≢ pgdir
  pub fits : k.npages ≤ 2 ^ 20

pa2page-eq : (pa : ℕ) (k : Kernel) → pgnum pa < k.npages → pa2page pa k ≡ returned (pgnum pa) k
unfolding pa2page
pa2page-eq pa k h = ground arith

kaddr-eq : (pa : ℕ) (k : Kernel) → pgnum pa < k.npages → kaddr pa k ≡ returned (pgnum pa) k
unfolding kaddr
kaddr-eq pa k h = ground arith

-- page2kva of a page of the memory is that page.
table_slot-eq :
    (va t : ℕ) (k : Kernel)
    → t < k.npages
    → k.npages ≤ 2 ^ 20
    → table_slot va t k ≡ returned (some (t, ptx va)) k
unfolding table_slot
table_slot-eq va t k h f = ground arith

pub pgdir_walk-present :
    {k : Kernel} {pgdir va t : ℕ} (create : Bool)
    → HasTable k pgdir va t
    → pgdir_walk pgdir va create k ≡ returned (some (t, ptx va)) k
unfolding pgdir_walk
pgdir_walk-present {k} {pgdir} {va} {t} create h = ground arith

pgdir_walk-absent :
    (k : Kernel) (pgdir va : ℕ)
    → has (k.frame pgdir (pdx va)) pte_p ≡ false
    → pgdir_walk pgdir va false k ≡ returned none k
unfolding pgdir_walk
pgdir_walk-absent k pgdir va h = rw h

-- A translation as page_lookup returns it: the page, and the slot of its entry.
unfoldable pub lookup_result : Option (ℕ × ℕ) → ℕ → ℕ → Option (ℕ × Slot)
lookup_result none t va = none
lookup_result (some (pp, _)) t va = some (pp, (t, ptx va))

pte_addr-pgnum : (pte : ℕ) → pgnum (pte_addr pte) ≡ pgnum pte
pte_addr-pgnum pte = omega arith

-- Where a page table covers the address and its entry there is absent or names a page of the
-- memory, page_lookup returns the page that the MMU translates the address to, with the slot of
-- the entry, or NULL where there is no translation, and changes nothing.
pub page_lookup-translate :
    {k : Kernel} {pgdir va t : ℕ}
    → HasTable k pgdir va t
    → (has (k.frame t (ptx va)) pte_p ≡ true → pgnum (k.frame t (ptx va)) < k.npages)
    → page_lookup pgdir va k ≡ returned (lookup_result (translate k.frame pgdir va) t va) k
unfolding page_lookup translate lookup_result
page_lookup-translate {k} {pgdir} {va} {t} h within = ground (
  arith,
  pgdir_walk-present false h,
  pa2page-eq (pte_addr (k.frame t (ptx va))) k,
  pte_addr-pgnum (k.frame t (ptx va)),
)

page_lookup-absent :
    (k : Kernel) (pgdir va : ℕ)
    → has (k.frame pgdir (pdx va)) pte_p ≡ false
    → (page_lookup pgdir va k ≡ returned none k) × (translate k.frame pgdir va ≡ none)
unfolding page_lookup translate
page_lookup-absent k pgdir va h = (rw (pgdir_walk-absent k pgdir va h), rw h)

-- The table that pgdir_walk makes: the first free page, cleared, with one reference.
unfoldable pub walked : ℕ → ℕ → ℕ → Kernel → Kernel
walked pgdir va p k =
    with_word pgdir (pdx va) (bit_or (bit_or (page2pa p) pte_p) pte_w)
      (with_page p (λ g. record g { pp_ref = (g.pp_ref + 1) % 2 ^ 16 }) (allocated alloc_zero p k))

-- The entry that pgdir_walk writes for a new table.
new_pde_lem :
    (p : ℕ)
    → p < 2 ^ 20
    → let pde = bit_or (bit_or (page2pa p) pte_p) pte_w in (pgnum pde ≡ p) × (has pde pte_p ≡ true)
new_pde_lem p h = ground (
  arith,
  pgnum-bit_or (bit_or (page2pa p) pte_p) pte_w,
  pgnum-bit_or (page2pa p) pte_p,
  has-pte_p (page2pa p),
  has-pte_p_or (bit_or (page2pa p) pte_p) pte_w,
)

HasTable-walked :
    (k : Kernel) (pgdir va p : ℕ)
    → p < k.npages
    → k.npages ≤ 2 ^ 20
    → p ≢ pgdir
    → HasTable (walked pgdir va p k) pgdir va p
unfolding walked allocated
HasTable-walked k pgdir va p lt fits ne = ground (arith, new_pde_lem p)

translate-walked :
    (k : Kernel) (pgdir va p : ℕ)
    → p < k.npages
    → k.npages ≤ 2 ^ 20
    → p ≢ pgdir
    → translate (walked pgdir va p k).frame pgdir va ≡ none
unfolding walked allocated translate
translate-walked k pgdir va p lt fits ne = ground (arith, new_pde_lem p)

-- Where there is no table for the address and a page other than the directory heads the free list,
-- pgdir_walk takes that page for a table, enters it in the directory, and nothing is mapped at the
-- address yet.
pub pgdir_walk-create :
    {k : Kernel} {pgdir va p : ℕ} {ps : List ℕ}
    → has (k.frame pgdir (pdx va)) pte_p ≡ false
    → IsFreeList k (p ∷ ps)
    → p ≢ pgdir
    → (pgdir_walk pgdir va true k ≡ returned (some (p, ptx va)) (walked pgdir va p k))
      × HasTable (walked pgdir va p k) pgdir va p
      × (translate (walked pgdir va p k).frame pgdir va ≡ none)
unfolding pgdir_walk walked
pgdir_walk-create {k} {pgdir} {va} {p} {ps} h f ne = (
  rw (h, page_alloc-eq alloc_zero p k f.chain.0 f.unused.0 (f.addressed p f.unused.0))
      (table_slot-eq va p (walked pgdir va p k) table.in_memory table.fits),
  table,
  translate-walked k pgdir va p f.unused.0 f.fits ne,
)
  where
    table : HasTable (walked pgdir va p k) pgdir va p
    table = HasTable-walked k pgdir va p f.unused.0 f.fits ne

-- With no table, none to spare and none asked for, page_insert's walk fails.
pub pgdir_walk-no_memory :
    {k : Kernel} (pgdir va : ℕ)
    → has (k.frame pgdir (pdx va)) pte_p ≡ false
    → IsFreeList k []
    → pgdir_walk pgdir va true k ≡ returned none k
unfolding pgdir_walk
pgdir_walk-no_memory pgdir va h f = rw (h, page_alloc-nil alloc_zero f)
