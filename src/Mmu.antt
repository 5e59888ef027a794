-- ===== src/Mmu.antt =====
-- The constants and address macros of inc/mmu.h and inc/memlayout.h, and the rounding macros of
-- inc/types.h. Addresses and entries are 32-bit words, kept as numbers below 2 ^ 32; a shift right
-- is a division and a mask of low bits a remainder.
pub mod Address
pub mod Entry
use library_os_exokernel_imp.Base.{
  ℕ, ◌+◌, ◌-◌, ◌*◌, ◌/◌, ◌%◌, ◌^◌, bit_or, bit_and, Bool, not, ◌==◌,
}

abbrev pub u32 : ℕ → ℕ
u32 n = n % 2 ^ 32

abbrev pub pgsize : ℕ
pgsize = 4096

abbrev pub ptsize : ℕ
ptsize = 4096 * 1024

abbrev pub kernbase : ℕ
kernbase = 0xf000_0000

abbrev pub ulim : ℕ
ulim = kernbase - ptsize - ptsize

abbrev pub uvpt : ℕ
uvpt = ulim - ptsize

abbrev pub utop : ℕ
utop = uvpt - ptsize - ptsize

abbrev pub uxstacktop : ℕ
uxstacktop = utop

abbrev pub uxstackbase : ℕ
uxstackbase = utop - pgsize

abbrev pub ustacktop : ℕ
ustacktop = utop - 2 * pgsize

abbrev pub ipc_no_page : ℕ
ipc_no_page = 0xaabb_ccdd

abbrev pub gd_ut : ℕ
gd_ut = 0x18

abbrev pub gd_ud : ℕ
gd_ud = 0x20

abbrev pub pte_p : ℕ
pte_p = 1

abbrev pub pte_w : ℕ
pte_w = 2

abbrev pub pte_u : ℕ
pte_u = 4

-- PTE_AVAIL | PTE_P | PTE_W | PTE_U
abbrev pub pte_syscall : ℕ
pte_syscall = 0xe07

abbrev pub fl_if : ℕ
fl_if = 0x200

abbrev pub pgnum : ℕ → ℕ
pgnum la = la / 4096

abbrev pub pdx : ℕ → ℕ
pdx la = la / 4_194_304 % 1024

abbrev pub ptx : ℕ → ℕ
ptx la = la / 4096 % 1024

abbrev pub pgoff : ℕ → ℕ
pgoff la = la % 4096

unfoldable pub pgaddr : ℕ → ℕ → ℕ → ℕ
pgaddr d t o = bit_or (bit_or (d * 2 ^ 22) (t * 2 ^ 12)) o

abbrev pub pte_addr : ℕ → ℕ
pte_addr pte = pte - pte % 4096

-- `a - a % n` and `ROUNDDOWN(a + n - 1, n)`, the sum in 32 bits
abbrev pub round_down : ℕ → ℕ → ℕ
round_down a n = a - a % n

abbrev pub round_up : ℕ → ℕ → ℕ
round_up a n = round_down (u32 (a + n - 1)) n

-- The test `entry & flag`.
abbrev pub has : ℕ → ℕ → Bool
has entry flag = not (bit_and entry flag == 0)
