-- ===== src/Pmap/Init/FreeList.antt =====
-- The free list that page_init builds.
use mathlib.Core.Path.{subst}
use library_os_exokernel_imp.Base.{
  ℕ, zero, suc, ◌+◌, ◌-◌, ◌^◌, ◌≤◌, ◌<◌, ◌≡◌, refl, ap, sym, ◌∙◌, Bool, false, Option, none, some,
  List, [], ◌++◌, ◌&&◌, ◌==◌, ltb, leb, if◌then◌else◌, arith,
}
use library_os_exokernel_imp.Mmu.{u32, pgnum, kernbase}
use library_os_exokernel_imp.Kernel.{Kernel, Page}
use library_os_exokernel_imp.Kernel.Command.{
  Command, returned, and_then, panic, done, modify, ◌>>=◌, ◌>>◌,
}
use library_os_exokernel_imp.Pmap.Pages.{page2pa}
use library_os_exokernel_imp.Pmap.Pages.FreeList.{IsFreeList, IsChain, AllUnused}
use library_os_exokernel_imp.Pmap.Init.Span.{
  span, IsChain-span, IsRising, IsRising-below, IsRising-IsDistinct, IsRising-span, AllUnused-span,
}
use library_os_exokernel_imp.Pmap.Init.{
  first_call, paddr, boot_alloc, link_page, link_pages, set_ref, set_link, reserve, take_reserved,
  page_init,
}

abbrev within : (i n p : ℕ) → Bool
within i n p = leb i p && ltb p (i + n)

abbrev linked : (p : ℕ) → Option ℕ → Page
linked p next = record { pp_link = next; paddr = page2pa p; pp_ref = 0 }

link_pages-at :
    (n i p : ℕ) (k : Kernel)
    → (link_pages n i k).pages p ≡ (if within i n p then linked p (some (p + 1)) else k.pages p)
unfolding link_pages
link_pages-at zero i p k = ground arith
link_pages-at (suc n) i p k =
    ground (arith, link_pages-at n (i + 1) p (link_page i (some (i + 1)) k))

reserve-at :
    (n i p : ℕ) (k : Kernel)
    → (reserve n i k).pages p
      ≡ (if within i n p then record (k.pages p) { pp_ref = 1 } else k.pages p)
unfolding reserve
reserve-at zero i p k = ground arith
reserve-at (suc n) i p k = ground (arith, reserve-at n (i + 1) p (set_ref i 1 k))

link_pages-npages : (n i : ℕ) (k : Kernel) → (link_pages n i k).npages ≡ k.npages
unfolding link_pages
link_pages-npages zero i k = refl
link_pages-npages (suc n) i k = link_pages-npages n (i + 1) _

reserve-rest :
    (n i : ℕ) (k : Kernel)
    → ((reserve n i k).npages ≡ k.npages) × ((reserve n i k).page_free_list ≡ k.page_free_list)
unfolding reserve
reserve-rest zero i k = (refl, refl)
reserve-rest (suc n) i k = reserve-rest n (i + 1) (set_ref i 1 k)

-- The pages before those in use are taken out.
abbrev chained : ℕ → Kernel → Kernel
chained n k =
    record (set_link 0 none (set_ref 0 1 (link_page (n - 1) none (link_pages (n - 1) 0 k)))) {
      page_free_list = some 1;
    }

abbrev next_of : (b n p : ℕ) → Option ℕ
next_of b n p =
    if p == 160
    then some 7
    else if p == 7
    then none
    else if p == 6
    then some 8
    else if p == 0
    then some 160
    else if p == b - 1
    then none
    else if p == 159
    then some b
    else if p == n - 1
    then none
    else some (p + 1)

abbrev refs_of : (b p : ℕ) → ℕ
refs_of b p = if (p == 7) then 1 else if leb 256 p && ltb p b then 1 else if p == 0 then 1 else 0

chained-at :
    (n p : ℕ) (k : Kernel)
    → 2 ≤ n
    → p < n
    → (chained n k).pages p ≡ (
        if p == 0
        then record { pp_link = none; paddr = page2pa 0; pp_ref = 1 }
        else if p == n - 1
        then linked p none
        else linked p (some (p + 1)))
chained-at n p k two lt = ground (arith, link_pages-at (n - 1) 0 p k)

take_reserved-pp_link :
    (b p : ℕ) (m : Kernel)
    → 256 < b
    → ((take_reserved b m).pages p).pp_link ≡ (
        if p == 160
        then some 7
        else if p == 7
        then none
        else if p == 6
        then some 8
        else if p == 0
        then some 160
        else if p == b - 1
        then none
        else if p == 159
        then some b
        else (m.pages p).pp_link)
unfolding take_reserved
take_reserved-pp_link b p m h = ground (arith, reserve-at (b - 256) 256 p m)

take_reserved-pp_ref :
    (b p : ℕ) (m : Kernel)
    → 256 < b
    → ((take_reserved b m).pages p).pp_ref
      ≡ (if p == 7 then 1 else if leb 256 p && ltb p b then 1 else (m.pages p).pp_ref)
unfolding take_reserved
take_reserved-pp_ref b p m h = ground (arith, reserve-at (b - 256) 256 p m)

take_reserved-paddr :
    (b p : ℕ) (m : Kernel) → ((take_reserved b m).pages p).paddr ≡ (m.pages p).paddr
unfolding take_reserved
take_reserved-paddr b p m = ground (arith, reserve-at (b - 256) 256 p m)

abbrev booted : (b n : ℕ) → Kernel → Kernel
booted b n k = take_reserved b (chained n k)

booted-pp_link :
    (b n p : ℕ) (k : Kernel)
    → 256 < b
    → b < n
    → p < n
    → ((booted b n k).pages p).pp_link ≡ next_of b n p
booted-pp_link b n p k low high lt =
    ground (arith, take_reserved-pp_link b p (chained n k) low, chained-at n p k (omega arith) lt)

booted-pp_ref :
    (b n p : ℕ) (k : Kernel)
    → 256 < b
    → b < n
    → p < n
    → ((booted b n k).pages p).pp_ref ≡ refs_of b p
booted-pp_ref b n p k low high lt =
    ground (arith, take_reserved-pp_ref b p (chained n k) low, chained-at n p k (omega arith) lt)

booted-paddr : (b n p : ℕ) (k : Kernel) → 2 ≤ n → p < n → ((booted b n k).pages p).paddr ≡ page2pa p
booted-paddr b n p k two lt =
    ground (arith, take_reserved-paddr b p (chained n k), chained-at n p k two lt)

abbrev upper : (b n : ℕ) → List ℕ
upper b n = span b (n - b) ++ []

-- The pages 1 to 6, 8 to 159, and from the first that the kernel does not use to the last.
abbrev pub free_pages : (b n : ℕ) → List ℕ
free_pages b n = span 1 6 ++ (span 8 152 ++ upper b n)

-- The state that page_init leaves.
abbrev initial : (b : ℕ) → Kernel → Kernel
initial b k =
    let m = booted b k.npages k in
    record m { n_avail_pages = u32 (m.n_avail_pages + (2 ^ 32 - 97)) }

initial-IsChain :
    (b : ℕ) (k : Kernel)
    → 256 < b
    → b < k.npages
    → IsChain (initial b k).pages (some 1) (free_pages b k.npages)
initial-IsChain b k low high =
    IsChain-span at 5 1 (some 8) (span 8 152 ++ upper b k.npages)
      (λ p l h. ground (arith, link p (omega arith))) (ground (arith, link 6 (omega arith)))
      (IsChain-span at 151 8 (some b) (upper b k.npages)
        (λ p l h. ground (arith, link p (omega arith))) (ground (arith, link 159 (omega arith)))
        (subst (λ (ps : List ℕ). IsChain at (some b) (ps ++ []))
          (ap (span b) (let e : suc (k.npages - b - 1) ≡ k.npages - b = omega arith in e))
          (IsChain-span at (k.npages - b - 1) b none []
            (λ p l h. ground (arith, link p (omega arith)))
            (ground (arith, link (b + (k.npages - b - 1)) (omega arith))) refl)))
  where
    at : ℕ → Page
    at = (initial b k).pages

    link : (p : ℕ) → p < k.npages → (at p).pp_link ≡ next_of b k.npages p
    link p lt = booted-pp_link b k.npages p k low high lt

initial-AllUnused :
    (b : ℕ) (k : Kernel)
    → 256 < b
    → b < k.npages
    → AllUnused k.npages (initial b k).pages (free_pages b k.npages)
initial-AllUnused b k low high =
    AllUnused-span k.npages at 1 6 (span 8 152 ++ upper b k.npages) (omega arith)
      (λ p l h. ground (arith, ref p (omega arith)))
      (AllUnused-span k.npages at 8 152 (upper b k.npages) (omega arith)
        (λ p l h. ground (arith, ref p (omega arith)))
        (AllUnused-span k.npages at b (k.npages - b) [] (omega arith)
          (λ p l h. ground (arith, ref p (omega arith))) tt))
  where
    at : ℕ → Page
    at = (initial b k).pages

    ref : (p : ℕ) → p < k.npages → (at p).pp_ref ≡ refs_of b p
    ref p lt = booted-pp_ref b k.npages p k low high lt

booted-rest :
    (b n : ℕ) (k : Kernel)
    → ((booted b n k).npages ≡ k.npages) × ((booted b n k).page_free_list ≡ some 1)
unfolding take_reserved
booted-rest b n k = (
  (reserve-rest (b - 256) 256 (chained n k)).0 ∙ link_pages-npages (n - 1) 0 k,
  (reserve-rest (b - 256) 256 (chained n k)).1,
)

initial-IsFreeList :
    (b : ℕ) (k : Kernel)
    → 256 < b
    → b < k.npages
    → k.npages ≤ 2 ^ 20
    → IsFreeList (initial b k) (free_pages b k.npages)
initial-IsFreeList b k low high fit = record {
  chain =
      subst (λ (h : Option ℕ). IsChain (initial b k).pages h (free_pages b k.npages)) (sym rest.1)
        (initial-IsChain b k low high);
  distinct = IsRising-IsDistinct 1 (free_pages b k.npages) rising;
  unused =
      subst (λ (n : ℕ). AllUnused n (initial b k).pages (free_pages b k.npages)) (sym rest.0)
        (initial-AllUnused b k low high);
  addressed = λ p lt.
      booted-paddr b k.npages p k (omega arith) (ground (arith, rest.0)) ∙ ground (arith, rest.0);
  fits = ground (arith, rest.0);
}
  where
    rest :
        ((booted b k.npages k).npages ≡ k.npages) × ((booted b k.npages k).page_free_list ≡ some 1)
    rest = booted-rest b k.npages k

    rising : IsRising 1 (free_pages b k.npages)
    rising = IsRising-span 1 6 (span 8 152 ++ upper b k.npages) (
        IsRising-below 8 7 (span 8 152 ++ upper b k.npages) (omega arith) (
          IsRising-span 8 152 (upper b k.npages) (
            IsRising-below b 160 (upper b k.npages) (omega arith)
              (IsRising-span b (k.npages - b) [] tt))))

boot_alloc-zero :
    (end nextfree : ℕ) (m : Kernel)
    → boot_alloc end 0 (some nextfree) m ≡ returned (nextfree, nextfree) m
unfolding boot_alloc first_call
boot_alloc-zero end nextfree m =
    ap (λ b. and_then ((if b then panic else done) m) (λ _. returned (nextfree, nextfree)))
      (let e : ltb m.n_avail_pages 0 ≡ false = ground arith in e)

paddr-above : (kva : ℕ) (m : Kernel) → kernbase ≤ kva → paddr kva m ≡ returned (kva - kernbase) m
unfolding paddr
paddr-above kva m h =
    ap (λ b. (if b then panic else returned (kva - kernbase)) m)
      (let e : ltb kva kernbase ≡ false = ground arith in e)

-- page_init, where the first free address of boot_alloc lies above the first megabyte and within
-- the memory: the free list is the pages 1 to 6, 8 to 159, and those from that address to the end
-- of the memory, all distinct, unreferenced and with their own address; so page 0, page 7 (the
-- entry code of the other CPUs), the I/O hole and the kernel are never handed out.
pub page_init-IsFreeList :
    (end nextfree : ℕ) (k : Kernel)
    → kernbase ≤ nextfree
    → 256 < pgnum (nextfree - kernbase)
    → pgnum (nextfree - kernbase) < k.npages
    → k.npages ≤ 2 ^ 20
    → (k' : Kernel) × (page_init end (some nextfree) k ≡ returned tt k')
      × IsFreeList k' (free_pages (pgnum (nextfree - kernbase)) k.npages)
unfolding page_init
page_init-IsFreeList end nextfree k above low high fit = (
  initial b k,
  ap (λ o. and_then o after_alloc) (boot_alloc-zero end nextfree (chained k.npages k))
      ∙ ap (λ o. and_then o reserved) (paddr-above nextfree (chained k.npages k) above),
  initial-IsFreeList b k low high fit,
)
  where
    b : ℕ
    b = pgnum (nextfree - kernbase)

    reserved : ℕ → Command (Unit {0})
    reserved next =
        modify (take_reserved (pgnum next))
        >> modify (λ m. record m { n_avail_pages = u32 (m.n_avail_pages + (2 ^ 32 - 97)) })

    after_alloc : ℕ × ℕ → Command (Unit {0})
    after_alloc r = paddr r.0 >>= reserved
