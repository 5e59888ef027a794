-- ===== src/Mmu/Entry.antt =====
-- Page-table and page-directory entries: a page number above twelve flag bits.

use library_os_exokernel_imp.Base.{
  ℕ, ◌*◌, ◌/◌, ◌%◌, ◌^◌, ◌<◌, ◌≡◌, refl, true, false, ◌||◌, arith, bit_or,
}
use library_os_exokernel_imp.Base.Bits.{
  bit_or_fields, bit_or-one, bit_or-div_pow, bit_or-zero, bit_or-mod_two, bit_and-one, bit_and-two,
  bit_and-four,
}
use library_os_exokernel_imp.Mmu.{pgnum, pte_p, pte_w, pte_u, has, u32}
use native.Mathlib.Nat.{div-eq_of_lt}

-- Or-ing flags into an entry leaves its page number alone.
pub pgnum-bit_or : (e f : ℕ) → f < 4096 → pgnum (bit_or e f) ≡ pgnum e
pgnum-bit_or e f h =
    ground (arith, bit_or-div_pow 12 e f, div-eq_of_lt {n = f} {m = 4096} h, bit_or-zero (e / 4096))

-- PTE_P is the lowest bit.
pub has-pte_p : (e : ℕ) → has (bit_or e pte_p) pte_p ≡ true
has-pte_p e = ground (arith, bit_and-one (bit_or e 1), bit_or-mod_two e 1)

-- and it survives or-ing in more flags.
pub has-pte_p_or : (e f : ℕ) → has e pte_p ≡ true → has (bit_or e f) pte_p ≡ true
has-pte_p_or e f h = ground (arith, bit_and-one e, bit_and-one (bit_or e f), bit_or-mod_two e f)

-- PTE_W and PTE_U are in `e | f` if they are in either.
pub has-write_or : (e f : ℕ) → has (bit_or e f) pte_w ≡ (has e pte_w || has f pte_w)
has-write_or e f = ground (
  arith,
  bit_and-two e,
  bit_and-two f,
  bit_and-two (bit_or e f),
  bit_or-div_pow 1 e f,
  bit_or-mod_two (e / 2) (f / 2),
)

pub has-user_or : (e f : ℕ) → has (bit_or e f) pte_u ≡ (has e pte_u || has f pte_u)
has-user_or e f = ground (
  arith,
  bit_and-four e,
  bit_and-four f,
  bit_and-four (bit_or e f),
  bit_or-div_pow 2 e f,
  bit_or-mod_two (e / 4) (f / 4),
)

-- The address of a page has no flags.
pub address_flags : (p : ℕ) → (has (p * 4096) pte_w ≡ false) × (has (p * 4096) pte_u ≡ false)
address_flags p = (ground (arith, bit_and-two (p * 4096)), ground (arith, bit_and-four (p * 4096)))

pub not_present : has 0 pte_p ≡ false
not_present = refl

-- The entry `page2pa(pp) | perm | PTE_P`: the page, and the flags with PTE_P.
pub entry_fields :
    (p f : ℕ)
    → p < 2 ^ 20
    → f < 4096
    → let e = bit_or (bit_or (u32 (p * 4096)) f) pte_p in
      (pgnum e ≡ p) × (e % 4096 ≡ bit_or f pte_p) × (has e pte_p ≡ true)
entry_fields p f hp hf = ground (
  arith,
  bit_or_fields 12 p f hf,
  bit_or-one (bit_or (p * 4096) f),
  bit_or-one f,
  has-pte_p (bit_or (u32 (p * 4096)) f),
)
