-- ===== src/Pmap/EntryPgdir.antt =====
-- The page directory and the page table of kern/entrypgdir.c, with which the kernel starts.
use library_os_exokernel_imp.Base.{
  ℕ, ◌+◌, ◌-◌, ◌*◌, ◌/◌, ◌%◌, ◌^◌, ◌<◌, ◌≤◌, ◌≡◌, refl, ◌∙◌, inl, inr, Bool, true, false, ◌&&◌,
  ◌||◌, ◌==◌, ltb, leb, Option, none, some, Bool-cases, if◌then◌else◌, arith, bit_or,
}
use library_os_exokernel_imp.Base.Bits.{
  bit_or_fields, bit_and-one, bit_and-two, bit_and-four, bit_or-mod_two, bit_or-div_pow, bit_or-one,
}
use library_os_exokernel_imp.Mmu.{u32, kernbase, pte_p, pte_w, pgnum, pdx, ptx, has}
use library_os_exokernel_imp.Pmap.Tables.Walk.{translate, access}

-- The 1024 initialisers, whose addresses are the multiples of the page size.
unfoldable pub entry_pgtable : ℕ → ℕ
entry_pgtable i = bit_or (bit_or (i * 4096) pte_p) pte_w

-- `table` is the address of entry_pgtable, which the linker sets; the elements that the initialiser
-- leaves out are 0.
unfoldable pub entry_pgdir : (table : ℕ) → ℕ → ℕ
entry_pgdir table i =
    if i == 0
    then u32 (u32 (table + (2 ^ 32 - kernbase)) + pte_p)
    else if i == pdx kernbase
    then u32 (u32 (table + (2 ^ 32 - kernbase)) + pte_p + pte_w)
    else 0

entry_pgtable-eq : (i : ℕ) → entry_pgtable i ≡ i * 4096 + 3
unfolding entry_pgtable
entry_pgtable-eq i = rw (bit_or_fields 12 i 1 (omega arith)) (
    omega (
      arith,
      bit_or-mod_two (i * 4096 + 1) 2,
      bit_or-div_pow 1 (i * 4096 + 1) 2,
      bit_or-one ((i * 4096 + 1) / 2),
    ))

-- An odd entry is present.
has-odd : (e : ℕ) → e % 2 ≡ 1 → has e pte_p ≡ true
has-odd e h = ground (arith, bit_and-one e)

-- The translation through an entry of the directory for the table at `table`
through_table :
    (frame : ℕ → ℕ → ℕ) (pd table va pde : ℕ)
    → frame pd (pdx va) ≡ pde
    → pde % 2 ≡ 1
    → pgnum pde ≡ table
    → ((i : ℕ) → i < 1024 → frame table i ≡ entry_pgtable i)
    → translate frame pd va ≡ some (va % 0x400000 / 4096, 3)
unfolding translate
through_table frame pd table va pde e odd page tab =
    let entry : frame table (ptx va) ≡ ptx va * 4096 + 3 =
      tab (ptx va) (omega arith) ∙ entry_pgtable-eq (ptx va) in
    rw e (
      rw (has-odd pde odd)
        (rw page (rw entry (rw (has-odd (ptx va * 4096 + 3) (omega arith)) (ground arith)))))

-- and the access that it gives
access_through :
    (frame : ℕ → ℕ → ℕ) (pd table va pde : ℕ)
    → frame pd (pdx va) ≡ pde
    → pde % 2 ≡ 1
    → pde / 4 % 2 ≡ 0
    → pgnum pde ≡ table
    → ((i : ℕ) → i < 1024 → frame table i ≡ entry_pgtable i)
    → access frame pd va ≡ some (va % 0x400000 / 4096, pde / 2 % 2 == 1, false)
unfolding access
access_through frame pd table va pde e odd supervisor page tab =
    let entry : frame table (ptx va) ≡ ptx va * 4096 + 3 =
      tab (ptx va) (omega arith) ∙ entry_pgtable-eq (ptx va) in
    rw e (
      rw (has-odd pde odd) (
        rw page (
          rw entry (
            rw (has-odd (ptx va * 4096 + 3) (omega arith)) (
              ground (
                arith,
                bit_and-two pde,
                bit_and-two (ptx va * 4096 + 3),
                bit_and-four pde,
                bit_and-four (ptx va * 4096 + 3),
              ))))))

-- 4 MB from address 0 on and from KERNBASE on
abbrev pub mapped_at_entry : ℕ → Option (ℕ × ℕ)
mapped_at_entry va =
    if ltb va 0x400000 || (leb kernbase va && ltb va (kernbase + 0x400000))
    then some (va % 0x400000 / 4096, 3)
    else none

-- The same, with what the two levels allow: writes from KERNBASE on, and nothing in user mode.
abbrev pub granted_at_entry : ℕ → Option (ℕ × Bool × Bool)
granted_at_entry va =
    if ltb va 0x400000
    then some (va / 4096, false, false)
    else if leb kernbase va && ltb va (kernbase + 0x400000)
    then some ((va - kernbase) / 4096, true, false)
    else none

-- With a page directory in page `pd` that entry_pgdir has filled, and entry_pgtable at the address
-- `table`, page-aligned and in the kernel's part of the address space, the tables translate the
-- addresses below 4 MB, and those from KERNBASE on, up to 4 MB, to the first 4 MB of memory, with
-- the flags PTE_P and PTE_W of the table, and no other address. As the directory's entry for the
-- lower part lacks PTE_W, the MMU allows writes only from KERNBASE on; it allows nothing in user
-- mode.
pub translate-entry_pgdir :
    (frame : ℕ → ℕ → ℕ) (pd table va : ℕ)
    → kernbase ≤ table
    → table < 2 ^ 32
    → table % 4096 ≡ 0
    → va < 2 ^ 32
    → ((i : ℕ) → i < 1024 → frame pd i ≡ entry_pgdir table i)
    → ((i : ℕ) → i < 1024 → frame (pgnum (table - kernbase)) i ≡ entry_pgtable i)
    → (translate frame pd va ≡ mapped_at_entry va) × (access frame pd va ≡ granted_at_entry va)
unfolding translate access entry_pgdir
translate-entry_pgdir frame pd table va low high aligned fits dir tab =
    elim (Bool-cases (pdx va == 0)) [
      | inl e ↦
          let pde = dir (pdx va) (omega arith) ∙ first e in
          (
            through_table frame pd (pgnum (table - kernbase)) va (table - kernbase + 1) pde
                  (omega arith) (omega arith) tab
                ∙ ground arith,
            access_through frame pd (pgnum (table - kernbase)) va (table - kernbase + 1) pde
                  (omega arith) (omega arith) (omega arith) tab
                ∙ ground arith,
          )
      | inr e ↦ elim (Bool-cases (pdx va == pdx kernbase)) [
        | inl f ↦
            let pde = dir (pdx va) (omega arith) ∙ second e f in
            (
              through_table frame pd (pgnum (table - kernbase)) va (table - kernbase + 3) pde
                    (omega arith) (omega arith) tab
                  ∙ ground arith,
              access_through frame pd (pgnum (table - kernbase)) va (table - kernbase + 3) pde
                    (omega arith) (omega arith) (omega arith) tab
                  ∙ ground arith,
            )
        | inr f ↦ (
          rw (dir (pdx va) (omega arith) ∙ rest e f) (ground arith),
          rw (dir (pdx va) (omega arith) ∙ rest e f) (ground arith),
        )
      ]
    ]
  where
    first : (pdx va == 0) ≡ true → entry_pgdir table (pdx va) ≡ table - kernbase + 1
    first e = rw e (omega arith)

    second :
        (pdx va == 0) ≡ false
        → (pdx va == pdx kernbase) ≡ true
        → entry_pgdir table (pdx va) ≡ table - kernbase + 3
    second e f = rw e (rw f (omega arith))

    rest : (pdx va == 0) ≡ false → (pdx va == pdx kernbase) ≡ false → entry_pgdir table (pdx va) ≡ 0
    rest e f = rw e (rw f refl)
