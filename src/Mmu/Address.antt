-- ===== src/Mmu/Address.antt =====
-- A linear address and its three fields: PDX, PTX, PGOFF and PGADDR of inc/mmu.h.
use library_os_exokernel_imp.Base.{ℕ, ◌+◌, ◌*◌, ◌^◌, ◌<◌, ◌≡◌, arith}
use library_os_exokernel_imp.Base.Bits.{bit_or_fields}
use library_os_exokernel_imp.Mmu.{pgaddr}

pgaddr-sum : (d t o : ℕ) → t < 1024 → o < 4096 → pgaddr d t o ≡ d * 2 ^ 22 + t * 2 ^ 12 + o
unfolding pgaddr
pgaddr-sum d t o ht ho = ground (
  arith,
  bit_or_fields 22 d (t * 2 ^ 12) (omega arith),
  bit_or_fields 12 (d * 2 ^ 10 + t) o (omega arith),
)
