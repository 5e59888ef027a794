-- ===== src/Mp/Processors.antt =====
-- The processors that mp_init registers.
use mathlib.Core.Path.{subst}
use library_os_exokernel_imp.Base.{
  ℕ, suc, ◌+◌, ◌<◌, ◌≡◌, refl, sym, ap, ◌∙◌, Bool, true, false, ◌==◌, ltb, some, List, [], ◌∷◌,
  if◌then◌else◌, arith, bit_and, update,
}
use library_os_exokernel_imp.Str.Memory.{Memory}
use library_os_exokernel_imp.Bootloader.{half_at, word_at}
use library_os_exokernel_imp.Mp.{
  Cpus, add_processor, read_entries, settled, mpconfig, init_with, mp_init, entries_at,
}

-- An entry of the table: a processor with its flags, or one of 8 bytes of another type.
pub data Entry : Type 0 where
  processor : (flags : ℕ) → Entry
  other : (type : ℕ) → Entry

-- The entries stand in memory from `p` on.
abbrev pub LaidOut : Memory → (p : ℕ) → List Entry → Type 0
LaidOut m p [] = Unit
LaidOut m p (processor flags ∷ es) = (m p ≡ 0) × (m (p + 3) ≡ flags) × LaidOut m (p + 20) es
LaidOut m p (other type ∷ es) = (m p ≡ type) × (0 < type) × (type < 5) × LaidOut m (p + 8) es

abbrev pub length : List Entry → ℕ
length [] = 0
length (e ∷ es) = suc (length es)

abbrev pub processors : List Entry → ℕ
processors [] = 0
processors (processor flags ∷ es) = suc (processors es)
processors (other type ∷ es) = processors es

-- At most 8
abbrev pub at_most_8 : ℕ → ℕ
at_most_8 n = if ltb n 8 then n else 8

-- The number of processors in front of the last one with MPPROC_BOOT, or `b`, where there is none;
-- `k` are in front of the list.
abbrev pub boot_index : List Entry → (k b : ℕ) → ℕ
boot_index [] k b = b
boot_index (processor flags ∷ es) k b =
    boot_index es (suc k) (if bit_and flags 2 == 0 then b else k)
boot_index (other type ∷ es) k b = boot_index es k b

-- `k` processors have been read, the last of them with MPPROC_BOOT behind `b` others.
pub record Registered (k b : ℕ) (c : Cpus) : Type 0 where
  pub counted : c.ncpu ≡ at_most_8 k
  pub boot : c.bootcpu ≡ at_most_8 b
  pub numbered : (i : ℕ) → i < c.ncpu → c.cpu_id i ≡ i

recounted : {b : ℕ} {c : Cpus} (k : ℕ) {k' : ℕ} → k ≡ k' → Registered k b c → Registered k' b c
recounted {b} {c} k e r = subst (λ n. Registered n b c) e r

add_processor-Registered :
    (flags k b : ℕ) (c : Cpus)
    → Registered k b c
    → Registered (suc k) (if bit_and flags 2 == 0 then b else k) (add_processor flags c)
unfolding add_processor
add_processor-Registered flags k b c r = record {
  counted = ground (arith, r.counted);
  boot = ground (arith, r.counted, r.boot);
  numbered = λ i h. ground (arith, r.counted, r.numbered i);
}

add_processor-ismp : (flags : ℕ) (c : Cpus) → (add_processor flags c).ismp ≡ c.ismp
unfolding add_processor
add_processor-ismp flags c = ground arith

read_entries-Registered :
    (m : Memory) (es : List Entry) (p k b : ℕ) (c : Cpus)
    → LaidOut m p es
    → Registered k b c
    → Registered (k + processors es) (boot_index es k b) (read_entries m (length es) p c)
      × ((read_entries m (length es) p c).ismp ≡ c.ismp)
unfolding read_entries
read_entries-Registered m [] p k b c h r = (recounted k (omega arith) r, refl)
read_entries-Registered m (processor flags ∷ es) p k b c h r =
    let rest =
      read_entries-Registered m es (p + 20) (suc k) (if bit_and flags 2 == 0 then b else k)
        (add_processor flags c) h.2 (add_processor-Registered flags k b c r) in
    rw h.0 (
      rw h.1 (
        recounted (suc k + processors es) (omega arith) rest.0,
        rest.1 ∙ add_processor-ismp flags c,
      ))
read_entries-Registered m (other type ∷ es) p k b c h r =
    let not_processor : (m p == 0) ≡ false = ground (arith, h.0, h.1) in
    let known : ltb (m p) 5 ≡ true = ground (arith, h.0, h.2) in
    rw not_processor (rw known (read_entries-Registered m es (p + 8) k b c h.3 r))

marked : (f : ℕ → Bool) (i j : ℕ) → i ≡ j → update f i true j ≡ true
marked f i j e = ground arith

settled-Registered :
    (k b : ℕ) (c : Cpus)
    → Registered k b c
    → c.ismp ≡ true
    → Registered k b (settled c) × ((settled c).cpu_started (at_most_8 b) ≡ true)
unfolding settled
settled-Registered k b c r e = rw e (
  record { counted = r.counted; boot = r.boot; numbered = r.numbered },
  marked c.cpu_started c.bootcpu (at_most_8 b) r.boot,
)

abbrev begun : Memory → (conf : ℕ) → Cpus → Cpus
begun m conf c = record c { bootcpu = 0; ismp = true; lapic = word_at m (conf + 36) }

mp_init-eq :
    (npages : ℕ) (m : Memory) (mp conf : ℕ) (c : Cpus)
    → mpconfig npages m ≡ some (some (mp, conf))
    → mp_init npages m c
      ≡ some (settled (read_entries m (half_at m (conf + 34)) (conf + entries_at) (begun m conf c)))
unfolding mp_init init_with
mp_init-eq npages m mp conf c found = ap (init_with m c) found

-- Where mpconfig finds a table whose entries are processors and entries of the other known types,
-- mp_init returns, having numbered the processors from 0, the first 8 of them. It takes the last
-- processor with MPPROC_BOOT for `bootcpu`, or CPU 0, if no processor has it, and marks it as
-- started; but where 8 or more stand in front of that processor, `bootcpu` is behind the end of
-- `cpus`.
pub mp_init-Registered :
    (npages : ℕ) (m : Memory) (mp conf : ℕ) (es : List Entry) (c : Cpus)
    → mpconfig npages m ≡ some (some (mp, conf))
    → LaidOut m (conf + entries_at) es
    → length es ≡ half_at m (conf + 34)
    → c.ncpu ≡ 0
    → (c' : Cpus) × (mp_init npages m c ≡ some c')
      × Registered (processors es) (boot_index es 0 0) c'
      × (c'.cpu_started (at_most_8 (boot_index es 0 0)) ≡ true)
mp_init-Registered npages m mp conf es c found h len none_yet =
    let read = read_entries-Registered m es (conf + entries_at) 0 0 (begun m conf c) h (record {
      counted = none_yet;
      boot = refl;
      numbered = λ i b. absurd (omega (arith, none_yet));
    }) in
    let rest =
      settled-Registered (processors es) (boot_index es 0 0)
        (read_entries m (length es) (conf + entries_at) (begun m conf c))
        (recounted (0 + processors es) (omega arith) read.0) read.1 in
    (
      settled (read_entries m (length es) (conf + entries_at) (begun m conf c)),
      mp_init-eq npages m mp conf c found
          ∙ ap (λ n. some (settled (read_entries m n (conf + entries_at) (begun m conf c))))
              (sym len),
      rest.0,
      rest.1,
    )
