-- ===== src/Bootloader/Segment.antt =====
-- What readseg reads.
use library_os_exokernel_imp.Base.{
  ℕ, zero, suc, ◌+◌, ◌-◌, ◌*◌, ◌/◌, ◌%◌, ◌^◌, ◌≤◌, ◌<◌, ◌≡◌, refl, ◌∙◌, ◌&&◌, ◌⊎◌, inl, inr, true,
  ltb, leb, Bool-cases, if◌then◌else◌, arith, bit_or,
}
use library_os_exokernel_imp.Base.Bits.{bit_or-mod_two, bit_or-div_pow}
use library_os_exokernel_imp.Mmu.{u32}
use library_os_exokernel_imp.Str.Memory.{Memory}
use library_os_exokernel_imp.Bootloader.{
  Disk, sector_base, sectors, selected, readsect, read_sectors, readseg,
}

-- The byte `b` of the kernel image, which begins at sector 1.
abbrev pub image : Disk → ℕ → ℕ
image disk b = disk (b / 512 + 1) (b % 512)

-- The low four bits are those of `x`.
drive : (x : ℕ) → x < 16 → bit_or x 0xE0 % 16 ≡ x
drive x h = omega (
  arith,
  bit_or-mod_two x 0xE0,
  bit_or-div_pow 1 x 0xE0,
  bit_or-mod_two (x / 2) 0x70,
  bit_or-div_pow 1 (x / 2) 0x70,
  bit_or-mod_two (x / 2 / 2) 0x38,
  bit_or-div_pow 1 (x / 2 / 2) 0x38,
  bit_or-mod_two (x / 2 / 2 / 2) 0x1C,
)

-- The registers hold a sector of 28 bits.
selected_lem : (offset : ℕ) → offset < 2 ^ 28 → selected offset ≡ offset
unfolding selected
selected_lem offset h =
    let low : offset / 2 ^ 24 % 256 ≡ offset / 2 ^ 24 = omega arith in
    rw low (omega (arith, drive (offset / 2 ^ 24) (omega arith)))

-- The memory with `n` sectors from `offset` on at `pa`.
abbrev loaded : Disk → (n pa offset : ℕ) → Memory → Memory
loaded disk n pa offset m a =
    if leb pa a && ltb a (pa + n * 512)
    then disk (offset + (a - pa) / 512) ((a - pa) % 512)
    else m a

loaded-suc :
    (disk : Disk) (n pa offset a : ℕ) (m : Memory)
    → offset < 2 ^ 28
    → loaded disk n (pa + 512) (offset + 1) (readsect disk pa offset m) a
      ≡ loaded disk (suc n) pa offset m a
unfolding readsect
loaded-suc disk n pa offset a m h = rw (selected_lem offset h) (elim (Bool-cases (leb pa a)) [
  | inl e ↦ elim (Bool-cases (ltb a (pa + 512))) [
    | inl f ↦
        let block : offset + (a - pa) / 512 ≡ offset = ground arith in
        let byte : (a - pa) % 512 ≡ a - pa = ground arith in rw block (rw byte (ground arith))
    | inr f ↦
        let block : offset + 1 + (a - (pa + 512)) / 512 ≡ offset + (a - pa) / 512 = ground arith in
        let byte : (a - (pa + 512)) % 512 ≡ (a - pa) % 512 = ground arith in
        rw block (rw byte (ground arith))
  ]
  | inr e ↦ ground arith
])

-- The loop reads the sectors from `offset` on to consecutive blocks from `pa` on.
read_sectors-loaded :
    (disk : Disk) (n pa end_pa offset a : ℕ) (m : Memory)
    → offset + n < 2 ^ 28
    → pa + n * 512 < 2 ^ 32
    → end_pa ≤ pa + n * 512
    → pa + n * 512 < end_pa + 512
    → read_sectors disk (suc n) pa end_pa offset m a ≡ loaded disk n pa offset m a
unfolding read_sectors
read_sectors-loaded disk zero pa end_pa offset a m h w e f = ground arith
read_sectors-loaded disk (suc n) pa end_pa offset a m h w e f =
    let more : ltb pa end_pa ≡ true = ground arith in
    let step : u32 (pa + 512) ≡ pa + 512 = omega arith in
    rw more (
      rw step (
        read_sectors-loaded disk n (pa + 512) end_pa (offset + 1) a (readsect disk pa offset m)
          (omega arith) (omega arith) (omega arith) (omega arith)
        ∙ loaded-suc disk n pa offset a m (omega arith)))

-- readseg, for a segment of `count` bytes that ends a sector before the end of the address space
-- and of the disk's 28-bit sectors, at an address that has the offset in its sector that it has in
-- the image: the bytes of the segment are those of the image, and no byte in front of the block
-- that `pa` is in has changed, nor one that is 511 or more behind the segment.
pub readseg-image :
    (disk : Disk) (pa count offset : ℕ) (m : Memory)
    → pa + count + 512 < 2 ^ 32
    → (offset + count) / 512 + 3 < 2 ^ 28
    → pa % 512 ≡ offset % 512
    → ((i : ℕ) → i < count → readseg disk pa count offset m (pa + i) ≡ image disk (offset + i))
      × ((a : ℕ)
          → (a + pa % 512 < pa) ⊎ (pa + count + 511 ≤ a)
          → readseg disk pa count offset m a ≡ m a)
unfolding readseg
readseg-image disk pa count offset m w h e = (inside, outside)
  where
    n : ℕ
    n = sectors pa (pa + count)

    wraps : u32 (pa + count) ≡ pa + count
    wraps = omega arith

    all :
        (a : ℕ)
        → readseg disk pa count offset m a ≡ loaded disk n (sector_base pa) (offset / 512 + 1) m a
    all a = rw wraps (
        read_sectors-loaded disk n (sector_base pa) (pa + count) (offset / 512 + 1) a m
          (omega arith) (omega arith) (omega arith) (omega arith))

    inside : (i : ℕ) → i < count → readseg disk pa count offset m (pa + i) ≡ image disk (offset + i)
    inside i b = all (pa + i) ∙ within
      where
        start : (pa + i) - sector_base pa ≡ offset % 512 + i
        start = omega arith

        block : offset / 512 + 1 + (offset % 512 + i) / 512 ≡ (offset + i) / 512 + 1
        block = omega arith

        byte : (offset % 512 + i) % 512 ≡ (offset + i) % 512
        byte = omega arith

        covers : (leb (sector_base pa) (pa + i) && ltb (pa + i) (sector_base pa + n * 512)) ≡ true
        covers = ground arith

        within :
            loaded disk n (sector_base pa) (offset / 512 + 1) m (pa + i) ≡ image disk (offset + i)
        within = rw covers (rw start (rw block (rw byte refl)))

    outside :
        (a : ℕ)
        → (a + pa % 512 < pa) ⊎ (pa + count + 511 ≤ a)
        → readseg disk pa count offset m a ≡ m a
    outside a out = all a ∙ elim out [ inl o ↦ ground arith | inr o ↦ ground arith ]
