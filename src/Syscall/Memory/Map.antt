-- ===== src/Syscall/Memory/Map.antt =====
-- sys_page_map: sharing a page between two address spaces.
use library_os_exokernel_imp.Base.{
  ℕ, ◌<◌, ◌*◌, ◌≡◌, refl, ap, sym, ◌∙◌, Bool, true, false, not, ◌&&◌, ◌||◌, some, if◌then◌else◌,
  arith,
}
use library_os_exokernel_imp.Mmu.{pgnum, ptx, pte_p, pte_w, has, utop}
use library_os_exokernel_imp.Kernel.{Kernel}
use library_os_exokernel_imp.Kernel.Command.{
  Command, Outcome, returned, and_then, pure, non_null, ◌>>=◌,
}
use library_os_exokernel_imp.Error.{Result, ok, err, inval}
use library_os_exokernel_imp.Env.Table.{found, envid2env}
use library_os_exokernel_imp.Pmap.Tables.{page_insert, page_lookup}
use library_os_exokernel_imp.Pmap.Tables.Walk.{
  HasTable, translate, lookup_result, page_lookup-translate,
}
use library_os_exokernel_imp.Pmap.Tables.Written.{EntryInMemory}
use library_os_exokernel_imp.Pmap.Tables.Insert.{Inserted, page_insert-Inserted}
use library_os_exokernel_imp.Syscall.Memory.{
  sys_page_map, map_between, map_found, pgdir_of, check_addr_scale,
}

-- The page `p` is mapped at `va` by the entry in the table `t`.
pub record IsPresent (k : Kernel) (pgdir va t p : ℕ) : Type 0 where
  pub table : HasTable k pgdir va t
  pub there : has (k.frame t (ptx va)) pte_p ≡ true
  pub page : pgnum (k.frame t (ptx va)) ≡ p
  pub in_memory : p < k.npages

page_lookup-present :
    {k : Kernel} {pgdir va t p : ℕ}
    → IsPresent k pgdir va t p
    → page_lookup pgdir va k ≡ returned (some (p, (t, ptx va))) k
unfolding translate lookup_result
page_lookup-present {k} {pgdir} {va} {t} {p} h =
    page_lookup-translate h.table (λ e. ground (arith, h.page, h.in_memory))
    ∙ ground (arith, h.table.present, h.table.names, h.there, h.page)

sys_page_map-between :
    (k : Kernel) (srcenvid srcva dstenvid dstva perm src_e dst_e : ℕ)
    → envid2env srcenvid true k ≡ returned (found (some src_e)) k
    → envid2env dstenvid false k ≡ returned (found (some dst_e)) k
    → sys_page_map srcenvid srcva dstenvid dstva perm k ≡ map_between srcva dstva perm src_e dst_e k
unfolding sys_page_map
sys_page_map-between k srcenvid srcva dstenvid dstva perm src_e dst_e f g = rw (f, g)

-- sys_page_map from an environment that the caller may change, of a page that a page table maps at
-- an aligned address below UTOP, to an aligned address below UTOP that a page table of the other
-- environment covers, with a `perm` of 12 bits: unless it asks to write where the source may not,
-- it returns 0, and all that page_insert promises of the page at the second address holds. This is
-- so for a `perm` that sys_page_alloc would refuse and for a second environment that the caller
-- may not change, too, for which the code's comment asks for -E_INVAL and -E_BAD_ENV.
pub sys_page_map-Inserted :
    {k : Kernel} {sd st dd dt p : ℕ} (srcenvid srcva dstenvid dstva perm src_e dst_e : ℕ)
    → envid2env srcenvid true k ≡ returned (found (some src_e)) k
    → envid2env dstenvid false k ≡ returned (found (some dst_e)) k
    → check_addr_scale srcva 0 utop ≡ true
    → check_addr_scale dstva 0 utop ≡ true
    → (k.envs src_e).env_pgdir ≡ some sd
    → (k.envs dst_e).env_pgdir ≡ some dd
    → IsPresent k sd srcva st p
    → (has perm pte_w ≡ true → has (k.frame st (ptx srcva)) pte_w ≡ true)
    → perm < 4096
    → HasTable k dd dstva dt
    → EntryInMemory k dt dstva
    → (k.pages p).paddr ≡ p * 4096
    → (k' : Kernel) × (sys_page_map srcenvid srcva dstenvid dstva perm k ≡ returned (ok 0) k')
      × Inserted dd dstva dt p perm k k'
unfolding map_between map_found
sys_page_map-Inserted {k} {sd} {st} {dd} {dt} {p} srcenvid srcva dstenvid dstva perm src_e dst_e f g
      sok dok sdir ddir src may small h within addr =
    let (k', eq, done) = page_insert-Inserted p perm h within src.in_memory addr small in
    (
      k',
      sys_page_map-between k srcenvid srcva dstenvid dstva perm src_e dst_e f g
          ∙ between
          ∙ inserts
          ∙ eq,
      done,
    )
  where
    search : Command Result
    search = pgdir_of src_e >>= λ pgdir. page_lookup pgdir srcva >>= map_found dst_e dstva perm

    aligned : Bool → Outcome Result
    aligned b =
        (if not b || not (check_addr_scale dstva 0 utop) then pure (err inval) else search) k

    into : Command Result
    into = pgdir_of dst_e >>= λ pgdir. page_insert pgdir (some p) dstva perm

    refused : Bool → Bool → Bool
    refused w asks = not w && asks

    excluded : (w asks : Bool) → (asks ≡ true → w ≡ true) → refused w asks ≡ false
    excluded true asks h = refl
    excluded false true h = sym (h refl)
    excluded false false h = refl

    allowed : (not (has (k.frame st (ptx srcva)) pte_w) && has perm pte_w) ≡ false
    allowed = excluded (has (k.frame st (ptx srcva)) pte_w) (has perm pte_w) may

    between :
        map_between srcva dstva perm src_e dst_e k
        ≡ map_found dst_e dstva perm (some (p, (st, ptx srcva))) k
    between =
        ap (λ b. aligned b) sok
        ∙ ap (λ b. (if not true || not b then pure (err inval) else search) k) dok
        ∙ ap
            (λ d.
              (non_null d >>= λ pgdir. page_lookup pgdir srcva >>= map_found dst_e dstva perm) k)
            sdir
        ∙ ap (λ o. and_then o (map_found dst_e dstva perm)) (page_lookup-present src)

    inserts :
        map_found dst_e dstva perm (some (p, (st, ptx srcva))) k
        ≡ page_insert dd (some p) dstva perm k
    inserts =
        ap (λ b. (if b then pure (err inval) else into) k) allowed
        ∙ ap (λ d. (non_null d >>= λ pgdir. page_insert pgdir (some p) dstva perm) k) ddir
