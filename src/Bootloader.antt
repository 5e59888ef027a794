-- ===== src/Bootloader.antt =====
-- boot/main.c, on the byte at each physical address. The disk is a parameter: the byte `i` of each
-- sector. It is ready whenever waitdisk asks, and reads the sector that its registers select.
pub mod Segment
use library_os_exokernel_imp.Base.{
  ℕ, zero, suc, ◌+◌, ◌-◌, ◌*◌, ◌/◌, ◌%◌, ◌^◌, ◌&&◌, ◌==◌, ltb, leb, if◌then◌else◌, bit_or,
}
use library_os_exokernel_imp.Mmu.{u32}
use library_os_exokernel_imp.Str.Memory.{Memory}

abbrev pub sectsize : ℕ
sectsize = 512

abbrev pub elfhdr : ℕ
elfhdr = 0x10000

abbrev pub Disk : Type 0
Disk = (sector i : ℕ) → ℕ

-- The registers 0x1F3 to 0x1F6 after the `outb`s: 28 bits of the sector, the last four of them in
-- the low half of the drive register.
unfoldable pub selected : (offset : ℕ) → ℕ
selected offset =
    (offset % 256)
    + 256 * (offset / 2 ^ 8 % 256)
    + 2 ^ 16 * (offset / 2 ^ 16 % 256)
    + 2 ^ 24 * (bit_or (offset / 2 ^ 24 % 256) 0xE0 % 16)

unfoldable pub readsect : Disk → (dst offset : ℕ) → Memory → Memory
unfolding selected
readsect disk dst offset m a =
    if leb dst a && ltb a (dst + sectsize) then disk (selected offset) (a - dst) else m a

-- The loop of readseg, with fuel for the sectors that it reads.
unfoldable pub read_sectors : Disk → (fuel pa end_pa offset : ℕ) → Memory → Memory
unfolding readsect
read_sectors disk zero pa end_pa offset m = m
read_sectors disk (suc fuel) pa end_pa offset m =
    let rest =
      read_sectors disk fuel (u32 (pa + sectsize)) end_pa (offset + 1)
        (readsect disk pa offset m) in
    if ltb pa end_pa then rest else m

-- `pa &= ~(SECTSIZE - 1)`
abbrev pub sector_base : ℕ → ℕ
sector_base pa = pa - pa % sectsize

abbrev pub sectors : (pa end_pa : ℕ) → ℕ
sectors pa end_pa = (end_pa - sector_base pa + 511) / sectsize

unfoldable pub readseg : Disk → (pa count offset : ℕ) → Memory → Memory
unfolding read_sectors
readseg disk pa count offset m =
    let end_pa = u32 (pa + count) in
    read_sectors disk (suc (sectors pa end_pa)) (sector_base pa) end_pa (offset / sectsize + 1) m

-- The little-endian numbers at an address.
abbrev pub half_at : Memory → ℕ → ℕ
half_at m a = m a + 2 ^ 8 * m (a + 1)

abbrev pub word_at : Memory → ℕ → ℕ
word_at m a = half_at m a + 2 ^ 16 * half_at m (a + 2)

-- The fields of `struct Elf` and `struct Proghdr` that are used, by their offsets.
abbrev pub elf_magic : ℕ
elf_magic = 0x464C457F

abbrev pub proghdr_size : ℕ
proghdr_size = 32

unfoldable pub load_segment : Disk → (ph : ℕ) → Memory → Memory
unfolding readseg
load_segment disk ph m =
    readseg disk (word_at m (ph + 12)) (word_at m (ph + 20)) (word_at m (ph + 4)) m

-- The loop on the `n` program headers from `ph` on.
unfoldable pub load_segments : Disk → (n ph : ℕ) → Memory → Memory
unfolding load_segment
load_segments disk zero ph m = m
load_segments disk (suc n) ph m =
    load_segments disk n (u32 (ph + proghdr_size)) (load_segment disk ph m)

-- bootmain does not return: it calls the entry point, or it loops after the two `outw`s.
pub data Booted : Type 0 where
  entered : (e_entry : ℕ) → Memory → Booted
  bad : Booted

unfoldable pub bootmain : Disk → Memory → Booted
unfolding readseg load_segments
bootmain disk m0 =
    let m = readseg disk elfhdr (sectsize * 8) 0 m0 in
    if word_at m elfhdr == elf_magic
    then (let m' =
          load_segments disk (half_at m (elfhdr + 44)) (u32 (elfhdr + word_at m (elfhdr + 28))) m in
        entered (word_at m' (elfhdr + 24)) m')
    else bad
