-- ===== src/Str/Memory.antt =====
-- memset, memmove and memcpy of lib/string.c, in the version that is compiled (ASM is 1). Memory is
-- the byte at each address; a `rep` instruction is a loop on its count, one element a round, as the
-- direction flag says.
pub mod Move
pub mod Fill
use library_os_exokernel_imp.Base.{
  ℕ, zero, suc, ◌+◌, ◌-◌, ◌*◌, ◌/◌, ◌%◌, ◌^◌, Bool, true, false, ◌&&◌, ◌==◌, ltb, leb,
  if◌then◌else◌, bit_or,
}
use library_os_exokernel_imp.Mmu.{u32}

abbrev pub Memory : Type 0
Memory = ℕ → ℕ

-- One element of `size` bytes from `s` to `d`: it is read whole, and then written.
abbrev pub movs : (size d s : ℕ) → Memory → Memory
movs size d s m a = if leb d a && ltb a (d + size) then m (s + (a - d)) else m a

-- `cld; rep movs`, up from `d` and `s`
unfoldable pub rep_movs_up : (size n d s : ℕ) → Memory → Memory
rep_movs_up size zero d s m = m
rep_movs_up size (suc n) d s m = rep_movs_up size n (d + size) (s + size) (movs size d s m)

-- `std; rep movs`, down from the last elements of the blocks at `d` and `s`
unfoldable pub rep_movs_down : (size n d s : ℕ) → Memory → Memory
rep_movs_down size zero d s m = m
rep_movs_down size (suc n) d s m =
    rep_movs_down size n d s (movs size (d + n * size) (s + n * size) m)

-- memmove returns `dst`; the result here is the memory that it leaves.
unfoldable pub memmove : (dst src n : ℕ) → Memory → Memory
unfolding rep_movs_up rep_movs_down
memmove dst src n m =
    if ltb src dst && ltb dst (u32 (src + n))
    then if (u32 (src + n) % 4 == 0) && (u32 (dst + n) % 4 == 0) && (n % 4 == 0)
      then rep_movs_down 4 (n / 4) dst src m
      else rep_movs_down 1 n dst src m
    else if (src % 4 == 0) && (dst % 4 == 0) && (n % 4 == 0)
    then rep_movs_up 4 (n / 4) dst src m
    else rep_movs_up 1 n dst src m

unfoldable pub memcpy : (dst src n : ℕ) → Memory → Memory
unfolding memmove
memcpy dst src n m = memmove dst src n m

-- The byte `i` of a 32-bit word, the lowest first.
abbrev pub byte_of : ℕ → ℕ → ℕ
byte_of w i = w / 2 ^ (8 * i) % 256

-- `cld; rep stosl` and `cld; rep stosb`
unfoldable pub rep_stosl : (n d w : ℕ) → Memory → Memory
rep_stosl zero d w m = m
rep_stosl (suc n) d w m =
    rep_stosl n (d + 4) w (λ a. if leb d a && ltb a (d + 4) then byte_of w (a - d) else m a)

unfoldable pub rep_stosb : (n d w : ℕ) → Memory → Memory
rep_stosb zero d w m = m
rep_stosb (suc n) d w m = rep_stosb n (d + 1) w (λ a. if a == d then w % 256 else m a)

-- `(c << 24) | (c << 16) | (c << 8) | c` after `c &= 0xFF`
unfoldable pub four_times : ℕ → ℕ
four_times c =
    let b = c % 256 in bit_or (bit_or (bit_or (u32 (b * 2 ^ 24)) (b * 2 ^ 16)) (b * 2 ^ 8)) b

unfoldable pub memset : (v c n : ℕ) → Memory → Memory
unfolding rep_stosl rep_stosb four_times
memset v c n m =
    if n == 0
    then m
    else if (v % 4 == 0) && (n % 4 == 0)
    then rep_stosl (n / 4) v (four_times c) m
    else rep_stosb n v c m
