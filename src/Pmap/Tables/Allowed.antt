-- ===== src/Pmap/Tables/Allowed.antt =====
-- page_insert: the access that it gives, and the TLB.
use library_os_exokernel_imp.Base.{
  ℕ, ◌*◌, ◌^◌, ◌<◌, ◌≡◌, refl, inl, inr, true, some, arith, ◌==◌, if◌then◌else◌, Bool-cases, bit_or,
  ◌&&◌, not, List, ◌∷◌, ap, ◌∙◌,
}
use library_os_exokernel_imp.Mmu.{has, pgnum, pdx, ptx, pte_p, pte_w, pte_u, pte_addr}
use library_os_exokernel_imp.Mmu.Entry.{has-write_or, has-user_or, address_flags, entry_fields}
use library_os_exokernel_imp.Kernel.{Kernel}
use library_os_exokernel_imp.Pmap.Pages.{page2pa}
use library_os_exokernel_imp.Pmap.Tables.Walk.{HasTable, access}
use library_os_exokernel_imp.Pmap.Tables.Remove.{ref_of, is_current, Removed-removed}
use library_os_exokernel_imp.Pmap.Tables.Written.{
  referred, HasTable-referred, flagged, HasTable-flagged, unmapped, new_entry, inserted,
  inserted_entries, HasTable-inserted,
}

access_of_entries :
    (frame : ℕ → ℕ → ℕ) (pgdir va t : ℕ)
    → has (frame pgdir (pdx va)) pte_p ≡ true
    → pgnum (frame pgdir (pdx va)) ≡ t
    → has (frame t (ptx va)) pte_p ≡ true
    → access frame pgdir va
      ≡ some (
        pgnum (frame t (ptx va)),
        has (frame pgdir (pdx va)) pte_w && has (frame t (ptx va)) pte_w,
        has (frame pgdir (pdx va)) pte_u && has (frame t (ptx va)) pte_u,
      )
unfolding access
access_of_entries frame pgdir va t p n q = rw n (rw (p, q) refl)

-- The directory entry of page_insert allows what `perm` does, and the table entry no more.
entries_allow :
    (pde pp perm : ℕ)
    → pp < 2 ^ 20
    → ((has (bit_or pde (bit_or perm pte_p)) pte_w && has (new_entry pp perm) pte_w)
        ≡ has perm pte_w)
      × ((has (bit_or pde (bit_or perm pte_p)) pte_u && has (new_entry pp perm) pte_u)
          ≡ has perm pte_u)
entries_allow pde pp perm lt =
    let at : page2pa pp ≡ pp * 4096 = omega arith in
    let a = address_flags pp in
    (
      ground (
        arith,
        has-write_or pde (bit_or perm pte_p),
        has-write_or perm pte_p,
        has-write_or (bit_or (page2pa pp) perm) pte_p,
        has-write_or (page2pa pp) perm,
        ap (λ e. has e pte_w) at,
        a.0,
      ),
      ground (
        arith,
        has-user_or pde (bit_or perm pte_p),
        has-user_or perm pte_p,
        has-user_or (bit_or (page2pa pp) perm) pte_p,
        has-user_or (page2pa pp) perm,
        ap (λ e. has e pte_u) at,
        a.1,
      ),
    )

pub inserted-granted :
    {k : Kernel} {pgdir va t : ℕ} (pp perm : ℕ)
    → perm < 4096
    → pp < k.npages
    → HasTable k pgdir va t
    → access (inserted pgdir pp va perm t k).frame pgdir va
      ≡ some (pp, has perm pte_w, has perm pte_u)
inserted-granted {k} {pgdir} {va} {t} pp perm small lt h =
    let (pde, pte) = inserted_entries {va = va} pp perm h in
    let (present, names) = HasTable-inserted {va = va} pp perm small h in
    let fits : pp < 2 ^ 20 = omega (arith, h.fits) in
    let fields = entry_fields pp perm fits small in
    let allowed = entries_allow (k.frame pgdir (pdx va)) pp perm fits in
    access_of_entries (inserted pgdir pp va perm t k).frame pgdir va t present names
      (ap (λ e. has e pte_p) pte ∙ fields.2)
    ∙ rw (pde, pte, fields.0, allowed.0, allowed.1) refl

-- The addresses flushed from the TLB, with `va` added if the entry `pte` for it names another page
-- than that at `addr`, which has no reference any more in `k'`, and the TLB may hold entries of
-- `pgdir`.
abbrev pub flushed_for : (pgdir va addr pte : ℕ) → (k k' : Kernel) → List ℕ
flushed_for pgdir va addr pte k k' =
    if not (addr == pte_addr pte)
      && has pte pte_p
      && (ref_of k' (pgnum pte) == 0)
      && is_current pgdir k
    then va ∷ k.invalidated
    else k.invalidated

abbrev pub flushed : (pgdir va t pp : ℕ) → (k k' : Kernel) → List ℕ
flushed pgdir va t pp k k' = flushed_for pgdir va (pp * 4096) (k.frame t (ptx va)) k k'

unmapped-flushed :
    {k : Kernel} {pgdir va t : ℕ} (pp : ℕ)
    → HasTable k pgdir va t
    → (unmapped pgdir pp va t k).invalidated
      ≡ flushed_for pgdir va (k.pages pp).paddr (k.frame t (ptx va)) k (unmapped pgdir pp va t k)
unfolding unmapped referred is_current
unmapped-flushed {k} {pgdir} {va} {t} pp h =
    let pte = k.frame t (ptx va) in
    elim (Bool-cases ((k.pages pp).paddr == pte_addr pte)) [
      | inl same ↦ rw same refl
      | inr new ↦ elim (Bool-cases (has pte pte_p)) [
        | inl old ↦ rw (new, old) (Removed-removed (pgnum pte) (HasTable-referred pp h)).tlb
        | inr old ↦ rw (new, old) refl
      ]
    ]

pub inserted-flushed :
    {k : Kernel} {pgdir va t : ℕ} (pp perm : ℕ)
    → perm < 4096
    → HasTable k pgdir va t
    → (k.pages pp).paddr ≡ pp * 4096
    → (inserted pgdir pp va perm t k).invalidated
      ≡ flushed pgdir va t pp k (inserted pgdir pp va perm t k)
unfolding inserted flagged is_current
inserted-flushed {k} {pgdir} {va} {t} pp perm small h a =
    let f = flagged pgdir va perm k in
    let u = unmapped pgdir pp va t f in
    let word : f.frame t (ptx va) ≡ k.frame t (ptx va) = ground (arith, h.apart) in
    unmapped-flushed pp (HasTable-flagged perm small h)
    ∙ ap (λ w. flushed_for pgdir va (k.pages pp).paddr w k u) word
    ∙ ap (λ addr. flushed_for pgdir va addr (k.frame t (ptx va)) k u) a
