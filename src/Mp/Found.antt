-- ===== src/Mp/Found.antt =====
-- What mpsearch1 finds.
use library_os_exokernel_imp.Base.{
  ℕ, ◌+◌, ◌*◌, ◌%◌, ◌<◌, ◌≡◌, refl, ◌⊎◌, Bool, true, false, ◌&&◌, none, some,
}
use library_os_exokernel_imp.Str.Memory.{Memory}
use library_os_exokernel_imp.Mp.{mpsearch1}
use library_os_exokernel_imp.Mmu.{kernbase}

-- The floating pointer structure: `_MP_`, and 16 bytes that add up to 0 in a byte.
pub IsMp : Memory → ℕ → Type 0
IsMp m p =
    (m p ≡ 95)
    × (m (p + 1) ≡ 77)
    × (m (p + 2) ≡ 80)
    × (m (p + 3) ≡ 95)
    × ((m p
            + m (p + 1)
            + m (p + 2)
            + m (p + 3)
            + m (p + 4)
            + m (p + 5)
            + m (p + 6)
            + m (p + 7)
            + m (p + 8)
            + m (p + 9)
            + m (p + 10)
            + m (p + 11)
            + m (p + 12)
            + m (p + 13)
            + m (p + 14)
            + m (p + 15))
          % 256
        ≡ 0)

all_true : (a b : Bool) → (a && b) ≡ true → (a ≡ true) × (b ≡ true)
all_true true b h = (refl, h)
all_true false b h = cc

-- What the search of the `len` bytes from the physical address `a` on finds.
abbrev pub Finds : (npages : ℕ) → Memory → (a len : ℕ) → Type 0
Finds npages m a len =
    ((k : ℕ) × (mpsearch1 npages m a len ≡ some (some (a + kernbase + k * 16)))
      × (k * 16 < len)
      × IsMp m (a + kernbase + k * 16)
      × ((i : ℕ) → i < k → ¬ IsMp m (a + kernbase + i * 16)))
    ⊎ ((mpsearch1 npages m a len ≡ some none)
        × ((i : ℕ) → i * 16 < len → ¬ IsMp m (a + kernbase + i * 16)))
