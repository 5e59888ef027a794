-- ===== src/Mp.antt =====
-- kern/mpconfig.c: the search for the configuration table of the multiprocessor specification, and
-- the processors that mp_init takes from it. Memory is the byte at each of the kernel's addresses,
-- which KADDR makes of the physical ones.
pub mod Found
pub mod Processors
use library_os_exokernel_imp.Base.{
  ℕ, zero, suc, ◌+◌, ◌-◌, ◌*◌, ◌/◌, ◌%◌, ◌^◌, Bool, true, false, not, ◌&&◌, ◌||◌, ◌==◌, ltb, leb,
  Option, none, some, List, [], ◌∷◌, update, if◌then◌else◌, bit_and,
}
use library_os_exokernel_imp.Base.Text.{bytes}
use library_os_exokernel_imp.Mmu.{u32, pgnum, kernbase}
use library_os_exokernel_imp.Str.Memory.{Memory}
use library_os_exokernel_imp.Bootloader.{half_at, word_at}

-- sizeof(struct mp), sizeof(struct mpproc)
abbrev pub mp_size : ℕ
mp_size = 16

abbrev pub mpproc_size : ℕ
mpproc_size = 20

abbrev pub ncpu_max : ℕ
ncpu_max = 8

-- The sum of the `len` bytes from `addr` on. It is an `int`, of which sum returns the low byte.
unfoldable pub byte_sum : Memory → (addr len : ℕ) → ℕ
byte_sum m addr zero = 0
byte_sum m addr (suc len) = byte_sum m addr len + m (addr + len)

unfoldable pub sum : Memory → (addr len : ℕ) → ℕ
unfolding byte_sum
sum m addr len = byte_sum m addr len % 256

-- `memcmp(p, s, n) == 0`, for the bytes of a text
unfoldable pub has_signature : Memory → (addr : ℕ) → List ℕ → Bool
has_signature m addr [] = true
has_signature m addr (c ∷ s) = m addr == c && has_signature m (addr + 1) s

unfoldable pub is_mp : Memory → (mp : ℕ) → Bool
unfolding has_signature sum
is_mp m mp = has_signature m mp (bytes "_MP_") && sum m mp mp_size == 0

-- The loop, for the `n` structures from `mp` on.
unfoldable pub mp_from : Memory → (n mp : ℕ) → Option ℕ
unfolding is_mp
mp_from m zero mp = none
mp_from m (suc n) mp = if is_mp m mp then some mp else mp_from m n (mp + mp_size)

-- KADDR: a pointer, or a panic, for which `none` stands.
unfoldable pub kaddr_pointer : (npages pa : ℕ) → Option ℕ
kaddr_pointer npages pa = if leb npages (pgnum pa) then none else some (u32 (pa + kernbase))

-- `mp` and `end`, where KADDR gives them.
search_between : Memory → (mp end : Option ℕ) → Option (Option ℕ)
unfolding mp_from
search_between m none end = none
search_between m (some mp) none = none
search_between m (some mp) (some end) = some (mp_from m ((end - mp + 15) / mp_size) mp)

-- A pointer to the structure, or NULL; `none` is the panic. No caller searches up to the end of the
-- address space, where `mp` would wrap around.
unfoldable pub mpsearch1 : (npages : ℕ) → Memory → (a len : ℕ) → Option (Option ℕ)
unfolding kaddr_pointer search_between
mpsearch1 npages m a len =
    search_between m (kaddr_pointer npages a) (kaddr_pointer npages (u32 (a + len)))

-- The first search, and the second if that has found nothing.
or_else : (first second : Option (Option ℕ)) → Option (Option ℕ)
or_else none second = none
or_else (some none) second = second
or_else (some (some mp)) second = some (some mp)

-- `bda` is KADDR(0x40 << 4).
search_places : (npages : ℕ) → Memory → (bda : Option ℕ) → Option (Option ℕ)
unfolding mpsearch1 or_else
search_places npages m none = none
search_places npages m (some bda) =
    let rom = mpsearch1 npages m 0xF0000 0x10000 in
    let ebda = half_at m (bda + 0x0E) in
    let top = u32 (half_at m (bda + 0x13) * 1024 + (2 ^ 32 - 1024)) in
    if not (ebda == 0)
    then or_else (mpsearch1 npages m (ebda * 16) 1024) rom
    else or_else (mpsearch1 npages m top 1024) rom

unfoldable pub mpsearch : (npages : ℕ) → Memory → Option (Option ℕ)
unfolding kaddr_pointer search_places
mpsearch npages m = search_places npages m (kaddr_pointer npages 0x400)

-- The fields of `struct mpconf` by their offsets.
abbrev pub entries_at : ℕ
entries_at = 44

unfoldable pub is_mpconf : Memory → (conf : ℕ) → Bool
unfolding has_signature sum
is_mpconf m conf =
    has_signature m conf (bytes "PCMP")
    && sum m conf (half_at m (conf + 4)) == 0
    && (m (conf + 6) == 1 || m (conf + 6) == 4)
    && sum m (conf + half_at m (conf + 4)) (half_at m (conf + 40)) == m (conf + 42)

-- The table at `conf`, for the structure at `mp`.
checked_table : Memory → (mp : ℕ) → (conf : Option ℕ) → Option (Option (ℕ × ℕ))
unfolding is_mpconf
checked_table m mp none = none
checked_table m mp (some conf) = if is_mpconf m conf then some (some (mp, conf)) else some none

table_of : (npages : ℕ) → Memory → (mp : Option (Option ℕ)) → Option (Option (ℕ × ℕ))
unfolding kaddr_pointer checked_table
table_of npages m none = none
table_of npages m (some none) = some none
table_of npages m (some (some mp)) =
    let physaddr = word_at m (mp + 4) in
    if physaddr == 0 || not (m (mp + 11) == 0)
    then some none
    else checked_table m mp (kaddr_pointer npages physaddr)

-- The structure and the configuration table that it points to, or NULL; `none` is a panic.
unfoldable pub mpconfig : (npages : ℕ) → Memory → Option (Option (ℕ × ℕ))
unfolding mpsearch table_of
mpconfig npages m = table_of npages m (mpsearch npages m)

-- `ncpu`, `ismp`, `lapic`, `bootcpu` as an index of `cpus`, and the `cpu_id` of its elements.
pub record Cpus : Type 0 where
  pub ncpu : ℕ
  pub ismp : Bool
  pub lapic : ℕ
  pub bootcpu : ℕ
  pub cpu_id : ℕ → ℕ
  pub cpu_started : ℕ → Bool

unfoldable pub add_processor : (flags : ℕ) → Cpus → Cpus
add_processor flags c =
    let c' : Cpus = if bit_and flags 2 == 0 then c else record c { bootcpu = c.ncpu } in
    if ltb c.ncpu ncpu_max
    then record c' { ncpu = c.ncpu + 1; cpu_id = update c.cpu_id c.ncpu c.ncpu }
    else c'

-- The loop on the `n` entries from `p` on; an entry of an unknown type ends it.
unfoldable pub read_entries : Memory → (n p : ℕ) → Cpus → Cpus
unfolding add_processor
read_entries m zero p c = c
read_entries m (suc n) p c =
    let processor = read_entries m n (p + mpproc_size) (add_processor (m (p + 3)) c) in
    let other = read_entries m n (p + 8) c in
    if m p == 0 then processor else if ltb (m p) 5 then other else record c { ismp = false }

-- `bootcpu->cpu_status = CPU_STARTED`, and one CPU only if the table is not understood.
unfoldable pub settled : Cpus → Cpus
settled c =
    let c' : Cpus = record c { cpu_started = update c.cpu_started c.bootcpu true } in
    if c.ismp then c' else record c' { ncpu = 1; lapic = 0 }

-- What mp_init makes of the table.
init_with : Memory → Cpus → Option (Option (ℕ × ℕ)) → Option Cpus
unfolding read_entries settled
init_with m c none = none
init_with m c (some none) = some (record c { bootcpu = 0 })
init_with m c (some (some (mp, conf))) = some (
    settled (
      read_entries m (half_at m (conf + 34)) (conf + entries_at)
        (record c { bootcpu = 0; ismp = true; lapic = word_at m (conf + 36) })))

-- `none` is a panic of KADDR.
unfoldable pub mp_init : (npages : ℕ) → Memory → Cpus → Option Cpus
unfolding mpconfig init_with
mp_init npages m c = init_with m c (mpconfig npages m)
