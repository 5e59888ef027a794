-- ===== src/Base/Bits.antt =====
-- `|` and `&` on native numbers at variables: the laws that page-table entries and ids need.
pub mod Step
use Step.{bit_or_step, bit_and_step}
use Prim.Native.Nat.{ℕ, zero, suc, ◌+◌, ◌*◌, ◌/◌, ◌%◌, ◌^◌, ◌≤◌, ◌<◌, min, max, bit_or, bit_and}
use mathlib.Core.Path.{◌≡◌, refl, ap}
use native.Mathlib.Nat.{pow-suc, div-one, div-div-eq-div-mul}
use native.Mathlib.Omega.{arith}

-- `|` and `&` with no bit at all, by halving.
with_no_bit : (bound a : ℕ) → a ≤ bound → (bit_or a 0 ≡ a) × (bit_and a 0 ≡ 0)
with_no_bit bound zero below = (refl, refl)
with_no_bit zero (suc a) below = absurd (omega arith)
with_no_bit (suc bound) (suc a) below =
    let half = with_no_bit bound (suc a / 2) (omega arith) in
    (omega (arith, bit_or_step (suc a) 0, half.0), omega (arith, bit_and_step (suc a) 0, half.1))

pub bit_or-zero : (a : ℕ) → bit_or a 0 ≡ a
bit_or-zero a = (with_no_bit a a (omega arith)).0

bit_and-zero : (a : ℕ) → bit_and a 0 ≡ 0
bit_and-zero a = (with_no_bit a a (omega arith)).1

bit_or-div_two : (a b : ℕ) → bit_or a b / 2 ≡ bit_or (a / 2) (b / 2)
bit_or-div_two a b = omega (arith, bit_or_step a b)

pub bit_or-mod_two : (a b : ℕ) → bit_or a b % 2 ≡ max (a % 2) (b % 2)
bit_or-mod_two a b = omega (arith, bit_or_step a b)

-- `&` with the three lowest single bits.
pub bit_and-one : (a : ℕ) → bit_and a 1 ≡ a % 2
bit_and-one a = omega (arith, bit_and_step a 1, bit_and-zero (a / 2))

pub bit_and-two : (a : ℕ) → bit_and a 2 ≡ (a / 2 % 2) * 2
bit_and-two a = omega (arith, bit_and_step a 2, bit_and-one (a / 2))

pub bit_and-four : (a : ℕ) → bit_and a 4 ≡ (a / 4 % 2) * 4
bit_and-four a = omega (arith, bit_and_step a 4, bit_and-two (a / 2))

-- Shifting right distributes over `|`.
pub bit_or-div_pow : (k a b : ℕ) → bit_or a b / 2 ^ k ≡ bit_or (a / 2 ^ k) (b / 2 ^ k)
bit_or-div_pow zero a b = rw (div-one (bit_or a b), div-one a, div-one b)
bit_or-div_pow (suc k) a b =
    rw
      (
        pow-suc 2 k,
        ← div-div-eq-div-mul (bit_or a b) (2 ^ k) 2,
        ← div-div-eq-div-mul a (2 ^ k) 2,
        ← div-div-eq-div-mul b (2 ^ k) 2,
        bit_or-div_pow k a b,
      )
      (bit_or-div_two (a / 2 ^ k) (b / 2 ^ k))

-- Fields that do not overlap: below a multiple of `2 ^ k` there is room for `k` bits.
pub bit_or_fields : (k q r : ℕ) → r < 2 ^ k → bit_or (q * 2 ^ k) r ≡ q * 2 ^ k + r
bit_or_fields zero q r below = ground (arith, bit_or-zero q)
bit_or_fields (suc k) q r below =
    let power = pow-suc 2 k in
    let shifted = ap (λ (p : ℕ). q * p) power in
    let upper = bit_or_fields k q (r / 2) (ground (arith, power)) in
    ground (arith, shifted, upper, bit_or_step (q * 2 ^ suc k) r)

-- `|` of two numbers of `k` bits has `k` bits.
pub bit_or-lt : (k a b : ℕ) → a < 2 ^ k → b < 2 ^ k → bit_or a b < 2 ^ k
bit_or-lt zero a b p q = rw (a0, b0) (omega arith)
  where
    a0 : a ≡ 0
    a0 = omega arith

    b0 : b ≡ 0
    b0 = omega arith
bit_or-lt (suc k) a b p q = ground (
  arith,
  pow-suc 2 k,
  bit_or_step a b,
  bit_or-lt k (a / 2) (b / 2) (ground (arith, pow-suc 2 k)) (ground (arith, pow-suc 2 k)),
)

pub bit_or-one : (a : ℕ) → bit_or a 1 ≡ a / 2 * 2 + 1
bit_or-one a = omega (arith, bit_or_step a 1, bit_or-zero (a / 2))
