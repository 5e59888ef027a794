-- ===== src/Pmap/Init.antt =====
-- boot_alloc and page_init of kern/pmap.c. `nextfree`, the static variable of boot_alloc, is NULL
-- before its first call; `end` is the first address behind the kernel's image, from the linker.
pub mod Span
pub mod FreeList
use library_os_exokernel_imp.Base.{
  ℕ, zero, suc, ◌+◌, ◌-◌, ◌*◌, ◌/◌, ◌%◌, ◌^◌, Bool, not, Option, none, some, ◌==◌, ltb,
  if◌then◌else◌,
}
use library_os_exokernel_imp.Mmu.{u32, pgsize, pgnum, kernbase, round_up}
use library_os_exokernel_imp.Kernel.{Kernel, Page, with_page}
use library_os_exokernel_imp.Kernel.Command.{
  Command, ◌>>=◌, ◌>>◌, pure, panic, reads, modify, done, when,
}
use library_os_exokernel_imp.Pmap.Pages.{page2pa}

-- PGNUM(IOPHYSMEM), PGNUM(EXTPHYSMEM) and PGNUM(MPENTRY_PADDR)
abbrev pub iophysmem_page : ℕ
iophysmem_page = pgnum 0xa_0000

abbrev pub extphysmem_page : ℕ
extphysmem_page = pgnum 0x10_0000

abbrev pub mpentry_page : ℕ
mpentry_page = pgnum 0x7000

-- The first call sets `nextfree`.
first_call : (end : ℕ) → Option ℕ → Command ℕ
first_call end none = do
  modify (λ k. record k { n_avail_pages = k.npages })
  pure (round_up end pgsize)
first_call end (some nextfree) = pure nextfree

-- `n` bytes as pages
abbrev pub amount_pages : ℕ → ℕ
amount_pages n = if n % pgsize == 0 then n / pgsize else n / pgsize + 1

-- The address, and `nextfree` after the call.
unfoldable pub boot_alloc : (end n : ℕ) → Option ℕ → Command (ℕ × ℕ)
unfolding first_call
boot_alloc end n nextfree = do
  result ← first_call end nextfree
  avail ← reads (λ k. k.n_avail_pages)
  if ltb avail (amount_pages n)
      then panic
      else when (not (n == 0)) (modify (λ k. record k { n_avail_pages = avail - amount_pages n }))
  pure (result, if n == 0 then result else round_up (u32 (result + amount_pages n * pgsize)) pgsize)

-- `i` is free, and leads to the page after it.
abbrev pub link_page : (i : ℕ) → Option ℕ → Kernel → Kernel
link_page i next = with_page i (λ v. record v { pp_ref = 0; pp_link = next; paddr = page2pa i })

-- The loop over the pages up to the last.
unfoldable pub link_pages : (n i : ℕ) → Kernel → Kernel
link_pages zero i k = k
link_pages (suc n) i k = link_pages n (i + 1) (link_page i (some (i + 1)) k)

abbrev pub set_ref : (i ref : ℕ) → Kernel → Kernel
set_ref i ref = with_page i (λ v. record v { pp_ref = ref })

abbrev pub set_link : (i : ℕ) → Option ℕ → Kernel → Kernel
set_link i next = with_page i (λ v. record v { pp_link = next })

-- The loop over the pages of the kernel.
unfoldable pub reserve : (n i : ℕ) → Kernel → Kernel
reserve zero i k = k
reserve (suc n) i k = reserve n (i + 1) (set_ref i 1 k)

-- PADDR panics on an address below KERNBASE.
paddr : ℕ → Command ℕ
paddr kva = if ltb kva kernbase then panic else pure (kva - kernbase)

-- What page_init does once it knows the first page that boot_alloc has left.
unfoldable pub take_reserved : (boot_free : ℕ) → Kernel → Kernel
unfolding reserve
take_reserved boot_free k =
    let k1 = reserve (boot_free - extphysmem_page) extphysmem_page k in
    let k2 = set_link (iophysmem_page - 1) (some boot_free) k1 in
    let k3 = set_link (boot_free - 1) none k2 in
    let k4 = set_link 0 (some iophysmem_page) k3 in
    let k5 = set_link (mpentry_page - 1) (some (mpentry_page + 1)) k4 in
    let k6 = set_link mpentry_page none (set_ref mpentry_page 1 k5) in
    set_link iophysmem_page (some mpentry_page) k6

-- (`tail_free_page` is never read.)
unfoldable pub page_init : (end : ℕ) → Option ℕ → Command (Unit {0})
unfolding link_pages take_reserved boot_alloc paddr
page_init end nextfree = do
  n ← reads (λ k. k.npages)
  modify (link_pages (n - 1) 0)
  modify (link_page (n - 1) none)
  modify (set_ref 0 1)
  modify (set_link 0 none)
  modify (λ k. record k { page_free_list = some 1 })
  r ← boot_alloc end 0 nextfree
  next_boot_free ← paddr r.0
  modify (take_reserved (pgnum next_boot_free))
  modify (λ k. record k {
    n_avail_pages = u32 (k.n_avail_pages + (2 ^ 32 - (1 + (extphysmem_page - iophysmem_page))));
  })
