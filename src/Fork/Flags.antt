-- ===== src/Fork/Flags.antt =====
-- The flags of a page that is to be copied on a write: cow_perm of lib/fork.c.
use Prim.Native.Nat.{bit_and-bitwise}
use library_os_exokernel_imp.Base.{
  ℕ, zero, suc, ◌+◌, ◌-◌, ◌*◌, ◌/◌, ◌%◌, ◌^◌, ◌<◌, ◌≡◌, ap, false, not, ◌==◌, bit_and, bit_or,
  arith,
}
use native.Mathlib.Nat.{pow-suc}
use library_os_exokernel_imp.Base.Bits.{bit_and-two, bit_or-lt, bit_or-one}
use library_os_exokernel_imp.Base.Bits.Step.{bit_and_step, bit_or_step}
use library_os_exokernel_imp.Mmu.{pgoff, pte_w, has}
use library_os_exokernel_imp.Fork.{pte_cow, cow_perm}

bit_and-lt : (k a b : ℕ) → a < 2 ^ k → bit_and a b < 2 ^ k
bit_and-lt zero a b h =
    let e : a ≡ zero = omega arith in omega (arith, ap (λ n. bit_and n b) e, bit_and-bitwise zero b)
bit_and-lt (suc k) a b h = ground (arith, bit_and_step a b, bit_and-lt k (a / 2) (b / 2))

pub cow_perm-lt : (pte : ℕ) → cow_perm pte < 4096
cow_perm-lt pte =
    bit_and-lt 12 (bit_or (pgoff pte) pte_cow) (2 ^ 32 - 1 - pte_w)
      (bit_or-lt 12 (pgoff pte) pte_cow (omega arith) (omega arith))

-- The flags of `pte` with bit 1, PTE_W, clear and bit 11, PTE_COW, set.
abbrev pub marked : (pte : ℕ) → ℕ
marked pte = 2 ^ 11 + pte % 2 ^ 11 / 4 * 4 + pte % 2

bit_and-all : (k a : ℕ) → a < 2 ^ k → bit_and a (2 ^ k - 1) ≡ a
bit_and-all zero a h =
    let e : a ≡ zero = omega arith in omega (arith, ap (λ n. bit_and n 0) e, bit_and-bitwise zero 0)
bit_and-all (suc k) a h =
    let half : (2 ^ suc k - 1) / 2 ≡ 2 ^ k - 1 = omega (arith, pow-suc 2 k) in
    let odd : (2 ^ suc k - 1) % 2 ≡ 1 = omega (arith, pow-suc 2 k) in
    omega (
      arith,
      pow-suc 2 k,
      bit_and_step a (2 ^ suc k - 1),
      bit_and-all k (a / 2) (omega (arith, pow-suc 2 k)),
      ap (bit_and (a / 2)) half,
      odd,
    )

or_double : (a b : ℕ) → bit_or a (2 * b) ≡ bit_or (a / 2) b * 2 + a % 2
or_double a b =
    let e : 2 * b / 2 ≡ b = omega arith in
    omega (arith, bit_or_step a (2 * b), ap (bit_or (a / 2)) e)

bit_or-cow : (f : ℕ) → f < 2 ^ 12 → bit_or f (2 ^ 11) ≡ 2 ^ 11 + f % 2 ^ 11
bit_or-cow f h = omega (
  arith,
  or_double f 1024,
  or_double (f / 2) 512,
  or_double (f / 2 / 2) 256,
  or_double (f / 2 / 2 / 2) 128,
  or_double (f / 2 / 2 / 2 / 2) 64,
  or_double (f / 2 / 2 / 2 / 2 / 2) 32,
  or_double (f / 2 / 2 / 2 / 2 / 2 / 2) 16,
  or_double (f / 2 / 2 / 2 / 2 / 2 / 2 / 2) 8,
  or_double (f / 2 / 2 / 2 / 2 / 2 / 2 / 2 / 2) 4,
  or_double (f / 2 / 2 / 2 / 2 / 2 / 2 / 2 / 2 / 2) 2,
  or_double (f / 2 / 2 / 2 / 2 / 2 / 2 / 2 / 2 / 2 / 2) 1,
  bit_or-one (f / 2 / 2 / 2 / 2 / 2 / 2 / 2 / 2 / 2 / 2 / 2),
)

pub cow_perm-marked : (pte : ℕ) → cow_perm pte ≡ marked pte
cow_perm-marked pte =
    let x = bit_or (pgoff pte) pte_cow in
    let small : x < 2 ^ 12 = bit_or-lt 12 (pgoff pte) pte_cow (omega arith) (omega arith) in
    omega (
      arith,
      bit_or-cow (pgoff pte) (omega arith),
      bit_and_step x (2 ^ 32 - 1 - pte_w),
      bit_and_step (x / 2) ((2 ^ 32 - 1 - pte_w) / 2),
      bit_and-all 30 (x / 2 / 2) (omega arith),
    )

pub has-cow_perm : (pte : ℕ) → has (cow_perm pte) pte_w ≡ false
has-cow_perm pte =
    let x = bit_or (pgoff pte) pte_cow in
    let zero_bit : bit_and (cow_perm pte) 2 ≡ 0 = omega (
      arith,
      bit_and-two (cow_perm pte),
      bit_and_step x (2 ^ 32 - 1 - pte_w),
      bit_and_step (x / 2) ((2 ^ 32 - 1 - pte_w) / 2),
    ) in
    ap (λ n. not (n == 0)) zero_bit
