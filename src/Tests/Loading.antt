-- ===== src/Tests/Loading.antt =====
-- Runs of the code of boot/main.c and kern/mpconfig.c.
use library_os_exokernel_imp.Base.{
  ℕ, true, false, some, none, List, [], ◌∷◌, ◌+◌, ◌-◌, ◌%◌, ◌≤◌, ◌<◌, ◌≡◌, ◌⊎◌, refl, arith, ◌==◌,
  if◌then◌else◌,
}
use library_os_exokernel_imp.Mmu.{kernbase}
use library_os_exokernel_imp.Str.Memory.{Memory}
use library_os_exokernel_imp.Mp.{Cpus, mpsearch1, mpconfig, mp_init}
use library_os_exokernel_imp.Mp.Processors.{
  Entry, processor, other, processors, boot_index, at_most_8, Registered, mp_init-Registered,
}
use library_os_exokernel_imp.Bootloader.{Disk, readseg, bootmain, bad}
use library_os_exokernel_imp.Bootloader.Segment.{image, readseg-image}

abbrev zeroed : Memory
zeroed a = 0

abbrev counting : Disk
counting sector i = sector + i

readseg-image_example :
    ((i : ℕ)
      → i < 1000
      → readseg counting 0x100204 1000 0x1004 zeroed (0x100204 + i) ≡ image counting (0x1004 + i))
    × ((a : ℕ)
        → (a + 0x100204 % 512 < 0x100204) ⊎ (0x100204 + 1000 + 511 ≤ a)
        → readseg counting 0x100204 1000 0x1004 zeroed a ≡ 0)
readseg-image_example =
    readseg-image counting 0x100204 1000 0x1004 zeroed (omega arith) (omega arith) (omega arith)

no_kernel : bootmain (λ _ _. 0) zeroed ≡ bad
unfolding bootmain
no_kernel = refl

-- A BIOS data area whose EBDA is at 0x10000, where the floating pointer structure is; its table, at
-- 0x20000, has the boot processor, a bus, and another processor.
abbrev firmware : Memory
firmware a =
    if a == 0x40F
    then 0x10
    else if a == 0x10000
    then 95
    else if a == 0x10001
    then 77
    else if a == 0x10002
    then 80
    else if a == 0x10003
    then 95
    else if a == 0x10006
    then 2
    else if a == 0x1000A
    then 163
    else if a == 0x20000
    then 80
    else if a == 0x20001
    then 67
    else if a == 0x20002
    then 77
    else if a == 0x20003
    then 80
    else if a == 0x20004
    then 92
    else if a == 0x20006
    then 4
    else if a == 0x20007
    then 140
    else if a == 0x20022
    then 3
    else if a == 0x20026
    then 0xE0
    else if a == 0x20027
    then 0xFE
    else if a == 0x2002F
    then 2
    else if a == 0x20040
    then 1
    else 0

-- The same at the kernel's addresses.
abbrev mapped : Memory
mapped va = firmware (va - kernbase)

abbrev no_cpus : Cpus
no_cpus = record {
  ncpu = 0;
  ismp = false;
  lapic = 0;
  bootcpu = 0;
  cpu_id = λ i. 0;
  cpu_started = λ i. false;
}

second : mpsearch1 512 mapped 0xFFF0 1024 ≡ some (some 0xF0010000)
unfolding mpsearch1
second = refl

beyond_memory : mpsearch1 16 mapped 0xFFF0 1024 ≡ none
unfolding mpsearch1
beyond_memory = refl

mapped-mpconfig : mpconfig 512 mapped ≡ some (some (0xF0010000, 0xF0020000))
unfolding mpconfig
mapped-mpconfig = refl

abbrev entries : List Entry
entries = processor 2 ∷ other 1 ∷ processor 0 ∷ []

mp_init-Registered_example :
    (c' : Cpus) × (mp_init 512 mapped no_cpus ≡ some c')
    × Registered (processors entries) (boot_index entries 0 0) c'
    × (c'.cpu_started (at_most_8 (boot_index entries 0 0)) ≡ true)
mp_init-Registered_example =
    mp_init-Registered 512 mapped 0xF0010000 0xF0020000 entries no_cpus mapped-mpconfig
      (omega arith) (omega arith) refl

-- Eight processors, and then the one with MPPROC_BOOT: `bootcpu` is `&cpus[8]`.
abbrev nine : List Entry
nine =
    processor 0
    ∷ processor 0
    ∷ processor 0
    ∷ processor 0
    ∷ processor 0
    ∷ processor 0
    ∷ processor 0
    ∷ processor 0
    ∷ processor 2
    ∷ []

behind_the_end : at_most_8 (boot_index nine 0 0) ≡ 8
behind_the_end = refl
