-- ===== src/Pmap/Tables/Written.antt =====
-- page_insert: the states that it passes through, their words of memory and their reference counts.
use library_os_exokernel_imp.Base.{
  ℕ, ◌+◌, ◌-◌, ◌*◌, ◌%◌, ◌^◌, ◌<◌, ◌≡◌, refl, inl, inr, Bool, true, false, some, arith, ◌==◌,
  if◌then◌else◌, Bool-cases, bit_or, ◌&&◌,
}
use library_os_exokernel_imp.Base.Bits.{bit_or-lt}
use library_os_exokernel_imp.Mmu.{has, pgnum, pdx, ptx, pte_p, pte_addr}
use library_os_exokernel_imp.Mmu.Entry.{pgnum-bit_or, has-pte_p_or, entry_fields}
use library_os_exokernel_imp.Kernel.{Kernel, with_page, with_word}
use library_os_exokernel_imp.Kernel.Command.{returned}
use library_os_exokernel_imp.Error.{ok}
use library_os_exokernel_imp.Pmap.Pages.{page2pa}
use library_os_exokernel_imp.Pmap.Tables.{page_remove, unmap_old, write_entry}
use library_os_exokernel_imp.Pmap.Tables.Walk.{HasTable, translate}
use library_os_exokernel_imp.Pmap.Tables.Remove.{
  ref_of, removed, page_remove-removed, Removed-removed, removed-words,
}

-- The state once the directory entry has the new flags.
unfoldable pub flagged : (pgdir va perm : ℕ) → Kernel → Kernel
flagged pgdir va perm k =
    with_word pgdir (pdx va) (bit_or (k.frame pgdir (pdx va)) (bit_or perm pte_p)) k

pub HasTable-flagged :
    {k : Kernel} {pgdir va t : ℕ} (perm : ℕ)
    → perm < 4096
    → HasTable k pgdir va t
    → HasTable (flagged pgdir va perm k) pgdir va t
unfolding flagged
HasTable-flagged {k} {pgdir} {va} {t} perm small h = record {
  present = ground (arith, has-pte_p_or (k.frame pgdir (pdx va)) (bit_or perm pte_p));
  names = ground (
    arith,
    pgnum-bit_or (k.frame pgdir (pdx va)) (bit_or perm pte_p)
        (bit_or-lt 12 perm 1 small (omega arith)),
  );
  in_memory = h.in_memory;
  apart = h.apart;
  fits = h.fits;
}

-- and one more reference to the page
unfoldable pub referred : ℕ → Kernel → Kernel
referred pp k = with_page pp (λ g. record g { pp_ref = (g.pp_ref + 1) % 2 ^ 16 }) k

pub HasTable-referred :
    {k : Kernel} {pgdir va t : ℕ} (pp : ℕ)
    → HasTable k pgdir va t
    → HasTable (referred pp k) pgdir va t
unfolding referred
HasTable-referred pp h = ground arith

-- The state before the entry is written, from that with the new directory entry.
unfoldable pub unmapped : (pgdir pp va t : ℕ) → Kernel → Kernel
unfolding referred
unmapped pgdir pp va t k =
    let pte = k.frame t (ptx va) in
    if (k.pages pp).paddr == pte_addr pte
    then k
    else if has pte pte_p
    then removed pgdir va t (pgnum pte) (referred pp k)
    else referred pp k

abbrev pub new_entry : (pp perm : ℕ) → ℕ
new_entry pp perm = bit_or (bit_or (page2pa pp) perm) pte_p

unfoldable pub inserted : (pgdir pp va perm t : ℕ) → Kernel → Kernel
inserted pgdir pp va perm t k =
    with_word t (ptx va) (new_entry pp perm) (unmapped pgdir pp va t (flagged pgdir va perm k))

-- An entry that is present names a page of the memory.
abbrev pub EntryInMemory : Kernel → (t va : ℕ) → Type 0
EntryInMemory k t va = has (k.frame t (ptx va)) pte_p ≡ true → pgnum (k.frame t (ptx va)) < k.npages

page_remove-referred :
    {k : Kernel} {pgdir va t : ℕ} (pp : ℕ)
    → HasTable k pgdir va t
    → EntryInMemory k t va
    → has (k.frame t (ptx va)) pte_p ≡ true
    → page_remove pgdir va (referred pp k)
      ≡ returned tt (removed pgdir va t (pgnum (k.frame t (ptx va))) (referred pp k))
unfolding referred
page_remove-referred pp h within e =
    page_remove-removed (HasTable-referred pp h)
      (record { entry = e; page = refl; in_memory = within e })

unmap_old-unmapped :
    {k : Kernel} {pgdir va t : ℕ} (pp : ℕ)
    → HasTable k pgdir va t
    → EntryInMemory k t va
    → unmap_old pgdir pp va (t, ptx va) k ≡ returned tt (unmapped pgdir pp va t k)
unfolding unmap_old unmapped
unmap_old-unmapped {k} {pgdir} {va} {t} pp h within =
    elim (Bool-cases (has (k.frame t (ptx va)) pte_p)) [
      | inl e ↦ ground (arith, page_remove-referred pp h within e)
      | inr e ↦ ground arith
    ]

EntryInMemory-flagged :
    {k : Kernel} {pgdir va t : ℕ} (perm : ℕ)
    → HasTable k pgdir va t
    → EntryInMemory k t va
    → EntryInMemory (flagged pgdir va perm k) t va
unfolding flagged
EntryInMemory-flagged perm h within e = ground (arith, within)

pub write_entry-inserted :
    {k : Kernel} {pgdir va t : ℕ} (pp perm : ℕ)
    → perm < 4096
    → HasTable k pgdir va t
    → EntryInMemory k t va
    → write_entry pgdir pp va perm (t, ptx va) k ≡ returned (ok 0) (inserted pgdir pp va perm t k)
unfolding write_entry inserted flagged
write_entry-inserted {k} {pgdir} {va} {t} pp perm small h within =
    rw (unmap_old-unmapped pp (HasTable-flagged perm small h) (EntryInMemory-flagged perm h within))

abbrev pub at_slot : (t va q i : ℕ) → Bool
at_slot t va q i = (q == t) && (i == ptx va)

unmapped-words :
    (pgdir pp va t : ℕ) (k : Kernel) (q i : ℕ)
    → at_slot t va q i ≡ false
    → (unmapped pgdir pp va t k).frame q i ≡ k.frame q i
unfolding unmapped
unmapped-words pgdir pp va t k q i ne =
    ground (arith, removed-words pgdir va t (pgnum (k.frame t (ptx va))) (referred pp k) q i)

pub inserted-words :
    (pgdir pp va perm t : ℕ) (k : Kernel) (q i : ℕ)
    → (inserted pgdir pp va perm t k).frame q i ≡ (
        if at_slot t va q i
        then new_entry pp perm
        else if (q == pgdir) && (i == pdx va)
        then bit_or (k.frame pgdir (pdx va)) (bit_or perm pte_p)
        else k.frame q i)
unfolding inserted flagged
inserted-words pgdir pp va perm t k q i = elim (Bool-cases (at_slot t va q i)) [
  | inl e ↦ ground arith
  | inr ne ↦ ground (arith, unmapped-words pgdir pp va t (flagged pgdir va perm k) q i ne)
]

translate_of_entries :
    (frame : ℕ → ℕ → ℕ) (pgdir va t : ℕ)
    → has (frame pgdir (pdx va)) pte_p ≡ true
    → pgnum (frame pgdir (pdx va)) ≡ t
    → has (frame t (ptx va)) pte_p ≡ true
    → translate frame pgdir va ≡ some (pgnum (frame t (ptx va)), frame t (ptx va) % 4096)
unfolding translate
translate_of_entries frame pgdir va t p n q = ground arith

-- The directory entry and the table entry that page_insert leaves.
pub inserted_entries :
    {k : Kernel} {pgdir va t : ℕ} (pp perm : ℕ)
    → HasTable k pgdir va t
    → let k' = inserted pgdir pp va perm t k in
      (k'.frame pgdir (pdx va) ≡ bit_or (k.frame pgdir (pdx va)) (bit_or perm pte_p))
      × (k'.frame t (ptx va) ≡ new_entry pp perm)
inserted_entries {k} {pgdir} {va} {t} pp perm h = (
  ground (arith, inserted-words pgdir pp va perm t k pgdir (pdx va)),
  ground (arith, inserted-words pgdir pp va perm t k t (ptx va)),
)

pub HasTable-inserted :
    {k : Kernel} {pgdir va t : ℕ} (pp perm : ℕ)
    → perm < 4096
    → HasTable k pgdir va t
    → (has ((inserted pgdir pp va perm t k).frame pgdir (pdx va)) pte_p ≡ true)
      × (pgnum ((inserted pgdir pp va perm t k).frame pgdir (pdx va)) ≡ t)
unfolding flagged
HasTable-inserted {k} {pgdir} {va} {t} pp perm small h =
    let f = HasTable-flagged perm small h in
    ground (arith, inserted_entries {va = va} pp perm h, f.present, f.names)

pub inserted-mapped :
    {k : Kernel} {pgdir va t : ℕ} (pp perm : ℕ)
    → perm < 4096
    → pp < k.npages
    → HasTable k pgdir va t
    → translate (inserted pgdir pp va perm t k).frame pgdir va ≡ some (pp, bit_or perm pte_p)
inserted-mapped {k} {pgdir} {va} {t} pp perm small lt h =
    let (pde, pte) = inserted_entries {va = va} pp perm h in
    let (present, names) = HasTable-inserted {va = va} pp perm small h in
    let fields = entry_fields pp perm (omega arith) small in
    ground (
      arith,
      translate_of_entries (inserted pgdir pp va perm t k).frame pgdir va t present names,
      pte,
      fields,
    )

-- The reference count of a page after page_insert: the page gains a reference and the one that
-- was mapped there loses one, unless they are the same.
abbrev pub recounted : (k : Kernel) (t va pp q : ℕ) → ℕ
recounted k t va pp q =
    let pte = k.frame t (ptx va) in
    if pp * 4096 == pte_addr pte
    then ref_of k q
    else if q == pp
    then (ref_of k q + 1) % 2 ^ 16
    else if has pte pte_p && (q == pgnum pte)
    then (ref_of k q + 2 ^ 16 - 1) % 2 ^ 16
    else ref_of k q

removed-counts :
    {k : Kernel} {pgdir va t : ℕ} (p q : ℕ)
    → HasTable k pgdir va t
    → ref_of (removed pgdir va t p k) q
      ≡ (if q == p then (ref_of k q + 2 ^ 16 - 1) % 2 ^ 16 else ref_of k q)
removed-counts {k} {pgdir} {va} {t} p q h =
    ground (arith, Removed-removed p h, (Removed-removed p h).others q)

unmapped-counts :
    {k : Kernel} {pgdir va t : ℕ} (pp q : ℕ)
    → HasTable k pgdir va t
    → (k.pages pp).paddr ≡ pp * 4096
    → ref_of (unmapped pgdir pp va t k) q ≡ recounted k t va pp q
unfolding unmapped
unmapped-counts {k} {pgdir} {va} {t} pp q h a =
    ground (arith, removed-counts (pgnum (k.frame t (ptx va))) q (HasTable-referred pp h))

pub inserted-counts :
    {k : Kernel} {pgdir va t : ℕ} (pp perm : ℕ)
    → perm < 4096
    → HasTable k pgdir va t
    → (k.pages pp).paddr ≡ pp * 4096
    → (q : ℕ) → ref_of (inserted pgdir pp va perm t k) q ≡ recounted k t va pp q
unfolding inserted flagged
inserted-counts {k} {pgdir} {va} {t} pp perm small h a q =
    ground (arith, unmapped-counts pp q (HasTable-flagged perm small h) a)
