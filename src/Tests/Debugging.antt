-- ===== src/Tests/Debugging.antt =====
-- Runs of the code of kern/kdebug.c.
use library_os_exokernel_imp.Base.{
  ℕ, ◌+◌, ◌*◌, ◌%◌, suc, ◌≡◌, refl, some, arith, ◌==◌, if◌then◌else◌,
}
use library_os_exokernel_imp.Kdebug.{Stab, Region, stab_binsearch}
use library_os_exokernel_imp.Kdebug.Loop.{stab_binsearch_total}
use library_os_exokernel_imp.Kdebug.Bounds.{IsOrdered}
use library_os_exokernel_imp.Kdebug.Contract.{Containing, stab_binsearch-Containing}
use library_os_exokernel_imp.Kdebug.Info.{debuginfo_eip}

abbrev stab : (type value desc strx : ℕ) → Stab
stab type value desc strx = record {
  n_strx = strx;
  n_type = type;
  n_other = 0;
  n_desc = desc;
  n_value = value;
}

-- A file of two functions, at 0x100 and 0x140, the first with a line at its start and one at 0x108.
abbrev table : ℕ → Stab
table i =
    if i == 1
    then stab 0x64 0x100 0 1
    else if i == 2
    then stab 0x24 0x100 0 3
    else if i == 3
    then stab 0x44 0 10 0
    else if i == 4
    then stab 0x44 8 11 0
    else if i == 5
    then stab 0x24 0x140 0 3
    else if i == 6
    then stab 0x64 0x200 0 0
    else stab 0 0 0 0

found_file : stab_binsearch table 0 7 0x64 0x150 ≡ some (record { left1 = 2; right1 = 6 })
unfolding stab_binsearch
found_file = refl

found_function : stab_binsearch table 1 6 0x24 0x100 ≡ some (record { left1 = 3; right1 = 5 })
unfolding stab_binsearch
found_function = refl

-- Stabs at 0x100 and 0x101: at the first of these addresses the search finds the second stab.
adjacent :
    stab_binsearch (λ i. stab 0x24 (0x100 + i) 0 0) 0 2 0x24 0x100
    ≡ some (record { left1 = 2; right1 = 2 })
unfolding stab_binsearch
adjacent = refl

-- `a.c`, and `f:F` at 3
abbrev strings : ℕ → ℕ
strings i =
    if i == 3 then 102 else if i == 4 then 58 else if i == 5 then 70 else if i == 1 then 97 else 0

found_info :
    debuginfo_eip (record { stabs = table; count = 7; stabstr = strings; size = 7 }) 0x10a
    ≡ some (
      0,
      record {
        eip_file = some 1;
        eip_line = 11;
        eip_fn_name = some 3;
        eip_fn_namelen = 1;
        eip_fn_addr = 0x100;
        eip_fn_narg = 0;
      },
    )
unfolding debuginfo_eip stab_binsearch
found_info = refl

-- Functions of 64 bytes each.
abbrev functions : ℕ → Stab
functions i = stab 0x24 (0x100 + 64 * i) 0 0

functions-IsOrdered : (addr : ℕ) → addr % 64 ≡ 5 → IsOrdered functions 0x24 0 8 addr
functions-IsOrdered addr h = record {
  increasing = λ i j a b c p q. omega arith;
  not_next = λ i a b p e. omega arith;
}

stab_binsearch-Containing_example :
    (l r1 : ℕ) × (stab_binsearch functions 0 8 0x24 0x185
      ≡ some (record { left1 = suc l; right1 = r1 }))
    × Containing functions 0x24 0 8 0x185 l r1
stab_binsearch-Containing_example =
    stab_binsearch-Containing functions 0x24 0 8 0x185 (functions-IsOrdered 0x185 (omega arith)) 1
      (omega arith) (omega arith) (omega arith) (omega arith) (omega arith)

-- A file and its first function at 0x140.
abbrev late : ℕ → Stab
late i = if i == 0 then stab 0x64 0 0 0 else stab 0x24 (0x100 + 64 * i) 0 0

-- Stabs in no order.
abbrev unordered : ℕ → Stab
unordered i = stab 0x24 (i * 37 % 8) 0 0

stab_binsearch_total_example : (r : Region) × (stab_binsearch unordered 0 8 0x24 3 ≡ some r)
stab_binsearch_total_example = stab_binsearch_total unordered 0 8 0x24 3 (omega arith)
