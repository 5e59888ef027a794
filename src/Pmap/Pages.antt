-- ===== src/Pmap/Pages.antt =====
-- The physical pages of kern/pmap.c: page_alloc, page_free, page_decref, and the conversions of
-- kern/pmap.h between pages, physical addresses and kernel pointers.
pub mod FreeList
use library_os_exokernel_imp.Base.{
  ℕ, zero, suc, ◌+◌, ◌-◌, ◌*◌, ◌/◌, ◌%◌, ◌^◌, Bool, true, false, not, ◌&&◌, ◌||◌, Option, none,
  some, List, [], ◌∷◌, ◌==◌, ltb, leb, if◌then◌else◌, is_null, same_ptr, bit_and, bit_or,
}
use library_os_exokernel_imp.Mmu.{
  u32, pgsize, pgnum, pdx, ptx, pte_p, pte_w, pte_u, pte_addr, has, ulim, round_down,
}
use library_os_exokernel_imp.Kernel.{Kernel, Page, with_page, with_word, with_zero}
use library_os_exokernel_imp.Kernel.Command.{
  Command, Outcome, returned, panicked, pure, ◌>>=◌, ◌>>◌, panic, reads, modify, done, when,
}

abbrev pub page2pa : ℕ → ℕ
page2pa pp = u32 (pp * 4096)

-- The page that a physical address lies in; a panic beyond the memory.
unfoldable pub pa2page : ℕ → Command ℕ
pa2page pa k = if ltb (pgnum pa) k.npages then returned (pgnum pa) k else panicked

-- As a kernel pointer is a page's number, KADDR keeps of the address what `pa2page` does.
unfoldable pub kaddr : ℕ → Command ℕ
kaddr pa k = if ltb (pgnum pa) k.npages then returned (pgnum pa) k else panicked

abbrev pub page2kva : ℕ → Command ℕ
page2kva pp = kaddr (page2pa pp)

abbrev pub alloc_zero : ℕ
alloc_zero = 1

abbrev pub take_page : ℕ → Kernel → Kernel
take_page p k =
    with_page p (λ g. record g { pp_link = none })
      (record k {
        page_free_list = (k.pages p).pp_link;
        n_avail_pages = u32 (k.n_avail_pages + 2 ^ 32 - 1);
      })

page_alloc_from : ℕ → Option ℕ → Command (Option ℕ)
page_alloc_from alloc_flags none = pure none
page_alloc_from alloc_flags (some p) = do
  modify (take_page p)
  when (has alloc_zero alloc_flags)
      (do pa ← reads (λ k. (k.pages p).paddr); f ← kaddr pa; modify (with_zero f))
  modify (with_page p (λ g. record g { pp_ref = 0 }))
  pure (some p)

unfoldable pub page_alloc : ℕ → Command (Option ℕ)
unfolding page_alloc_from kaddr
page_alloc alloc_flags = do head ← reads (λ k. k.page_free_list); page_alloc_from alloc_flags head

-- Puts a page at the head of the free list. Nothing happens beyond the end of memory.
unfoldable pub page_free : ℕ → Command (Unit {0})
page_free pp = do
  pa ← reads (λ k. (k.pages pp).paddr)
  n ← reads (λ k. k.npages)
  if leb n (pgnum pa)
      then done
      else modify (λ k.
        with_page pp (λ g. record g { pp_link = k.page_free_list })
          (record k { page_free_list = some pp; n_avail_pages = u32 (k.n_avail_pages + 1) }))

-- `pp_ref` is a uint16_t.
unfoldable pub page_decref : ℕ → Command (Unit {0})
page_decref pp = do
  modify (with_page pp (λ g. record g { pp_ref = (g.pp_ref + 2 ^ 16 - 1) % 2 ^ 16 }))
  refs ← reads (λ k. (k.pages pp).pp_ref)
  when (refs == 0) (page_free pp)

abbrev pub incref : ℕ → Command (Unit {0})
incref pp = modify (with_page pp (λ g. record g { pp_ref = (g.pp_ref + 1) % 2 ^ 16 }))
