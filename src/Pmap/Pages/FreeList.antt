-- ===== src/Pmap/Pages/FreeList.antt =====
-- The free list of physical pages as a list of distinct, unreferenced pages, and what page_alloc,
-- page_free and page_decref do to it.
use library_os_exokernel_imp.Base.{
  ℕ, ◌+◌, ◌-◌, ◌*◌, ◌^◌, ◌≤◌, ◌<◌, ◌≡◌, refl, ◌≢◌, ◌⊎◌, inl, inr, true, false, Option, none, some,
  List, [], ◌∷◌, arith, ◌==◌, if◌then◌else◌, Bool-cases, update, ==_refl, ==_false,
}
use library_os_exokernel_imp.Mmu.{u32, has}
use library_os_exokernel_imp.Kernel.{Kernel, Page, with_page}
use library_os_exokernel_imp.Kernel.Command.{returned}
use library_os_exokernel_imp.Pmap.Pages.{take_page, alloc_zero, page_alloc, page_free, page_decref}

-- From `head` the links lead through `ps` to NULL.
abbrev pub IsChain : (ℕ → Page) → Option ℕ → List ℕ → Type 0
IsChain pages head [] = head ≡ none
IsChain pages head (p ∷ ps) = (head ≡ some p) × IsChain pages (pages p).pp_link ps

abbrev pub Absent : ℕ → List ℕ → Type 0
Absent p [] = Unit
Absent p (q ∷ qs) = (p ≢ q) × Absent p qs

abbrev pub IsDistinct : List ℕ → Type 0
IsDistinct [] = Unit
IsDistinct (p ∷ ps) = Absent p ps × IsDistinct ps

-- Pages of the memory that nothing refers to.
abbrev pub AllUnused : ℕ → (ℕ → Page) → List ℕ → Type 0
AllUnused n pages [] = Unit
AllUnused n pages (p ∷ ps) = (p < n) × ((pages p).pp_ref ≡ 0) × AllUnused n pages ps

-- `paddr` is the address that page_init wrote.
abbrev pub Addressed : Kernel → Type 0
Addressed k = (p : ℕ) → p < k.npages → (k.pages p).paddr ≡ p * 4096

pub record IsFreeList (k : Kernel) (ps : List ℕ) : Type 0 where
  pub chain : IsChain k.pages k.page_free_list ps
  pub distinct : IsDistinct ps
  pub unused : AllUnused k.npages k.pages ps
  pub addressed : Addressed k
  pub fits : k.npages ≤ 2 ^ 20

IsChain-update :
    (pages : ℕ → Page) (q : ℕ) (g : Page) (head : Option ℕ) (ps : List ℕ)
    → Absent q ps
    → IsChain pages head ps
    → IsChain (update pages q g) head ps
IsChain-update pages q g head [] out c = c
IsChain-update pages q g head (p ∷ ps) out c =
    (c.0, rw (==_false q p out.0) (IsChain-update pages q g (pages p).pp_link ps out.1 c.1))

AllUnused-update :
    (n : ℕ) (pages : ℕ → Page) (q : ℕ) (g : Page) (ps : List ℕ)
    → Absent q ps
    → AllUnused n pages ps
    → AllUnused n (update pages q g) ps
AllUnused-update n pages q g [] out u = tt
AllUnused-update n pages q g (p ∷ ps) out u =
    (u.0, rw (==_false q p out.0) u.1, AllUnused-update n pages q g ps out.1 u.2)

-- The state after page_alloc has taken `p`.
unfoldable pub allocated : ℕ → ℕ → Kernel → Kernel
allocated flags p k = record (with_page p (λ g. record g { pp_ref = 0 }) (take_page p k)) {
  frame = if has alloc_zero flags then update k.frame p (λ _. 0) else k.frame;
}

pub page_alloc-eq :
    (flags p : ℕ) (k : Kernel)
    → k.page_free_list ≡ some p
    → p < k.npages
    → (k.pages p).paddr ≡ p * 4096
    → page_alloc flags k ≡ returned (some p) (allocated flags p k)
unfolding page_alloc allocated
page_alloc-eq flags p k h lt a = ground arith

-- What page_alloc leaves of the page `p` that it returns, and of everything else.
pub record Allocated (flags p : ℕ) (k k' : Kernel) : Type 0 where
  pub unreferenced : (k'.pages p).pp_ref ≡ 0
  pub unlinked : (k'.pages p).pp_link ≡ none
  pub zeroed : has alloc_zero flags ≡ true → (w : ℕ) → k'.frame p w ≡ 0
  pub kept : has alloc_zero flags ≡ false → k'.frame ≡ k.frame
  pub others : (q : ℕ) → q ≢ p → (k'.pages q ≡ k.pages q) × (k'.frame q ≡ k.frame q)
  pub elsewhere : (k'.envs ≡ k.envs) × (k'.npages ≡ k.npages)
  pub counted : k'.n_avail_pages ≡ u32 (k.n_avail_pages + 2 ^ 32 - 1)
  pub rest : k' ≡ record k {
    pages = k'.pages;
    frame = k'.frame;
    page_free_list = k'.page_free_list;
    n_avail_pages = k'.n_avail_pages;
  }

pub Allocated-allocated : (flags p : ℕ) (k : Kernel) → Allocated flags p k (allocated flags p k)
unfolding allocated
Allocated-allocated flags p k = record {
  unreferenced = ground arith;
  unlinked = ground arith;
  zeroed = λ h w. ground arith;
  kept = λ h. ground arith;
  others = λ q ne. ground arith;
  elsewhere = ground arith;
  counted = refl;
  rest = refl;
}

pub IsFreeList-allocated :
    (flags p : ℕ) (k : Kernel) (ps : List ℕ)
    → IsFreeList k (p ∷ ps)
    → IsFreeList (allocated flags p k) ps
unfolding allocated
IsFreeList-allocated flags p k ps f = record {
  chain =
      IsChain-update _ p _ (k.pages p).pp_link ps f.distinct.0
        (IsChain-update k.pages p _ (k.pages p).pp_link ps f.distinct.0 f.chain.1);
  distinct = f.distinct.1;
  unused =
      AllUnused-update k.npages _ p _ ps f.distinct.0
        (AllUnused-update k.npages k.pages p _ ps f.distinct.0 f.unused.2);
  addressed = λ q lt. ground (arith, f.addressed q);
  fits = f.fits;
}

-- With `p` at the head of a well-formed free list, page_alloc returns `p`, unreferenced and zeroed
-- if that is asked for, leaves the rest of the list, counts one available page less (in 32 bits),
-- and changes nothing else.
pub page_alloc-cons :
    (flags : ℕ) {p : ℕ} {k : Kernel} {ps : List ℕ}
    → IsFreeList k (p ∷ ps)
    → (k' : Kernel) × (page_alloc flags k ≡ returned (some p) k')
      × IsFreeList k' ps
      × Allocated flags p k k'
page_alloc-cons flags {p} {k} {ps} f = (
  allocated flags p k,
  page_alloc-eq flags p k f.chain.0 f.unused.0 (f.addressed p f.unused.0),
  IsFreeList-allocated flags p k ps f,
  Allocated-allocated flags p k,
)

-- With an empty free list page_alloc returns NULL and changes nothing.
pub page_alloc-nil :
    (flags : ℕ) {k : Kernel} → IsFreeList k [] → page_alloc flags k ≡ returned none k
unfolding page_alloc
page_alloc-nil flags f = ground arith

-- The state after page_free has put `p` back.
unfoldable pub freed : ℕ → Kernel → Kernel
freed p k =
    with_page p (λ g. record g { pp_link = k.page_free_list })
      (record k { page_free_list = some p; n_avail_pages = u32 (k.n_avail_pages + 1) })

page_free-eq :
    (p : ℕ) (k : Kernel)
    → p < k.npages
    → (k.pages p).paddr ≡ p * 4096
    → page_free p k ≡ returned tt (freed p k)
unfolding page_free freed
page_free-eq p k lt a = ground arith

IsFreeList-freed :
    (p : ℕ) (k : Kernel) (ps : List ℕ)
    → IsFreeList k ps
    → p < k.npages
    → Absent p ps
    → (k.pages p).pp_ref ≡ 0
    → IsFreeList (freed p k) (p ∷ ps)
unfolding freed
IsFreeList-freed p k ps f lt out zero_ref = record {
  chain = (refl, rw (==_refl p) (IsChain-update k.pages p _ k.page_free_list ps out f.chain));
  distinct = (out, f.distinct);
  unused = (lt, rw (==_refl p) zero_ref, AllUnused-update k.npages k.pages p _ ps out f.unused);
  addressed = λ q below. ground (arith, f.addressed q);
  fits = f.fits;
}

-- page_free puts a page of the memory that is unreferenced and not on the well-formed free list at
-- the head of it.
pub page_free-cons :
    (p : ℕ) {k : Kernel} {ps : List ℕ}
    → IsFreeList k ps
    → p < k.npages
    → Absent p ps
    → (k.pages p).pp_ref ≡ 0
    → (page_free p k ≡ returned tt (freed p k)) × IsFreeList (freed p k) (p ∷ ps)
page_free-cons p {k} {ps} f lt out zero_ref =
    (page_free-eq p k lt (f.addressed p lt), IsFreeList-freed p k ps f lt out zero_ref)

-- A page that something refers to is not on the list.
Absent-pp_ref :
    (p : ℕ) (k : Kernel) (ps : List ℕ)
    → (k.pages p).pp_ref ≢ 0
    → AllUnused k.npages k.pages ps
    → Absent p ps
Absent-pp_ref p k [] ne u = tt
Absent-pp_ref p k (q ∷ qs) ne u = (λ e. ne (rw e u.1), Absent-pp_ref p k qs ne u.2)

-- A page that is not on the list may change, but for its address.
pub IsFreeList-touch :
    {k k' : Kernel} {ps : List ℕ} (p : ℕ) (g : Page)
    → IsFreeList k ps
    → Absent p ps
    → k'.pages ≡ update k.pages p g
    → g.paddr ≡ (k.pages p).paddr
    → k'.page_free_list ≡ k.page_free_list
    → k'.npages ≡ k.npages
    → IsFreeList k' ps
IsFreeList-touch {k} {k'} {ps} p g f out e a h n = record {
  chain = rw (e, h) (IsChain-update k.pages p g k.page_free_list ps out f.chain);
  distinct = f.distinct;
  unused = rw (e, n) (AllUnused-update k.npages k.pages p g ps out f.unused);
  addressed = λ q below. ground (arith, f.addressed q);
  fits = rw n f.fits;
}

-- The state with one reference to `p` less.
unfoldable pub unreferred : ℕ → Kernel → Kernel
unreferred p k = with_page p (λ g. record g { pp_ref = g.pp_ref - 1 }) k

IsFreeList-unreferred :
    (p : ℕ) (k : Kernel) (ps : List ℕ)
    → IsFreeList k ps
    → Absent p ps
    → IsFreeList (unreferred p k) ps
unfolding unreferred
IsFreeList-unreferred p k ps f out = record {
  chain = IsChain-update k.pages p _ k.page_free_list ps out f.chain;
  distinct = f.distinct;
  unused = AllUnused-update k.npages k.pages p _ ps out f.unused;
  addressed = λ q below. ground (arith, f.addressed q);
  fits = f.fits;
}

page_decref-eq :
    (p : ℕ) (k : Kernel)
    → 0 < (k.pages p).pp_ref
    → (k.pages p).pp_ref < 2 ^ 16
    → page_decref p k ≡ (
        if (k.pages p).pp_ref == 1
        then page_free p (unreferred p k)
        else returned tt (unreferred p k))
unfolding page_decref unreferred
page_decref-eq p k pos small = ground arith

unreferred-zero :
    (p : ℕ) (k : Kernel) → (k.pages p).pp_ref ≡ 1 → ((unreferred p k).pages p).pp_ref ≡ 0
unfolding unreferred
unreferred-zero p k h = ground arith

unreferred-ref :
    (p : ℕ) (k : Kernel)
    → 0 < (k.pages p).pp_ref
    → ((unreferred p k).pages p).pp_ref + 1 ≡ (k.pages p).pp_ref
unfolding unreferred
unreferred-ref p k pos = ground arith

freed-ref :
    (p : ℕ) (k : Kernel)
    → 0 < (k.pages p).pp_ref
    → ((freed p (unreferred p k)).pages p).pp_ref + 1 ≡ (k.pages p).pp_ref
unfolding unreferred freed
freed-ref p k pos = ground arith

-- page_decref on a page of the memory in use, its references counted in 16 bits: the last
-- reference puts it at the head of the well-formed free list, any other only counts down.
pub page_decref_cases :
    (p : ℕ) {k : Kernel} {ps : List ℕ}
    → IsFreeList k ps
    → p < k.npages
    → 0 < (k.pages p).pp_ref
    → (k.pages p).pp_ref < 2 ^ 16
    → (k' : Kernel) × (page_decref p k ≡ returned tt k')
      × ((((k.pages p).pp_ref ≡ 1) × IsFreeList k' (p ∷ ps))
          ⊎ ((1 < (k.pages p).pp_ref) × IsFreeList k' ps))
      × ((k'.pages p).pp_ref + 1 ≡ (k.pages p).pp_ref)
unfolding unreferred
page_decref_cases p {k} {ps} f lt pos small = elim (Bool-cases ((k.pages p).pp_ref == 1)) [
  | inl last ↦
      let (e, f') = page_free-cons p g lt out (unreferred-zero p k (ground arith)) in
      (
        freed p (unreferred p k),
        rw (page_decref-eq p k pos small, last, e),
        inl (ground arith, f'),
        freed-ref p k pos,
      )
  | inr more ↦ (
    unreferred p k,
    rw (page_decref-eq p k pos small, more),
    inr (ground arith, g),
    unreferred-ref p k pos,
  )
]
  where
    out : Absent p ps
    out = Absent-pp_ref p k ps (omega arith) f.unused

    g : IsFreeList (unreferred p k) ps
    g = IsFreeList-unreferred p k ps f out
