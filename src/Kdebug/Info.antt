-- ===== src/Kdebug/Info.antt =====
-- debuginfo_eip of kern/kdebug.c, from its checks of the string table on. Which tables it reads,
-- the kernel's or those that the program has at USTABDATA, is an argument.
use mathlib.Core.Option.{map}
use library_os_exokernel_imp.Base.{
  ℕ, zero, suc, ◌+◌, ◌-◌, ◌^◌, Bool, not, ◌&&◌, ◌||◌, ◌==◌, ltb, leb, Option, none, some, List, [],
  ◌∷◌, if◌then◌else◌,
}
use library_os_exokernel_imp.Mmu.{u32}
use library_os_exokernel_imp.Str.Chars.{strlen, strfind}
use library_os_exokernel_imp.Kdebug.{Stab, Region, stab_binsearch}

-- `stabs` up to `stab_end`, and the bytes from `stabstr` up to `stabstr_end`
pub record Tables : Type 0 where
  pub stabs : ℕ → Stab
  pub count : ℕ
  pub stabstr : ℕ → ℕ
  pub size : ℕ

-- A name is its offset in the string table; "<unknown>" is `none`.
pub record EipDebugInfo : Type 0 where
  pub eip_file : Option ℕ
  pub eip_line : ℕ
  pub eip_fn_name : Option ℕ
  pub eip_fn_namelen : ℕ
  pub eip_fn_addr : ℕ
  pub eip_fn_narg : ℕ

abbrev pub n_fun : ℕ
n_fun = 0x24

abbrev pub n_sline : ℕ
n_sline = 0x44

abbrev pub n_so : ℕ
n_so = 0x64

abbrev pub n_sol : ℕ
n_sol = 0x84

abbrev pub n_psym : ℕ
n_psym = 0xa0

abbrev pub unknown_info : (addr : ℕ) → EipDebugInfo
unknown_info addr = record {
  eip_file = none;
  eip_line = 0;
  eip_fn_name = none;
  eip_fn_namelen = 9;
  eip_fn_addr = addr;
  eip_fn_narg = 0;
}

-- What debuginfo_eip returns, and `*info`; `none` is a search that did not end, or a read
-- in front of the table.
abbrev pub Lookup : Type 0
Lookup = Option (ℕ × EipDebugInfo)

abbrev pub minus_one : ℕ
minus_one = 2 ^ 32 - 1

-- The string at an offset, of the `n` bytes that are left of the table.
string_from : (stabstr : ℕ → ℕ) (n at : ℕ) → List ℕ
string_from stabstr zero at = []
string_from stabstr (suc n) at =
    if stabstr at == 0 then [] else stabstr at ∷ string_from stabstr n (at + 1)

-- `strfind (name, ':') - name`
name_length : Tables → Option ℕ → ℕ
unfolding string_from strlen strfind
name_length t none = 9
name_length t (some at) =
    let name = string_from t.stabstr (t.size - at) at in strlen name - strlen (strfind name 58)

-- The name of a stab, where its index is in the table
name_of : Tables → (index : ℕ) → Option ℕ → Option ℕ
name_of t index name =
    if ltb (t.stabs index).n_strx t.size then some (t.stabs index).n_strx else name

is_file : Stab → Bool
is_file s = s.n_type == n_sol || (s.n_type == n_so && not (s.n_value == 0))

-- `lline + 1` after the search backwards for the file of the line
file_line : (ℕ → Stab) → (lfile lline1 : ℕ) → ℕ
unfolding is_file
file_line stabs lfile zero = zero
file_line stabs lfile (suc lline) =
    if leb lfile lline && not (is_file (stabs lline))
    then file_line stabs lfile lline
    else suc lline

-- The number of N_PSYM stabs from `lline` on, of `n` at most.
count_args : (ℕ → Stab) → (lline n : ℕ) → ℕ
count_args stabs lline zero = 0
count_args stabs lline (suc n) =
    if (stabs lline).n_type == n_psym then count_args stabs (lline + 1) n + 1 else 0

-- The rest, with the region of the lines; the function's stab is at `fun.left1 - 1`.
with_line : Tables → (lfile : ℕ) (fun line : Region) → EipDebugInfo → ℕ × EipDebugInfo
unfolding file_line name_of count_args
with_line t lfile fun line info =
    let at = file_line t.stabs lfile line.left1 in
    (
      0,
      record info {
        eip_line = (t.stabs (line.left1 - 1)).n_desc;
        eip_file = if ltb lfile at then name_of t (at - 1) info.eip_file else info.eip_file;
        eip_fn_narg =
            if ltb fun.left1 fun.right1
            then count_args t.stabs fun.left1 (fun.right1 - fun.left1 - 1)
            else info.eip_fn_narg;
      },
    )

-- With the region of the function: `lfun <= rfun`, or an assembly file.
with_function : Tables → (addr : ℕ) (file fun : Region) → Lookup
unfolding with_line name_of name_length
with_function t addr file fun =
    let lfile = file.left1 - 1 in
    let lfun = fun.left1 - 1 in
    let start = (t.stabs lfun).n_value in
    let name = name_of t lfun none in
    let named : EipDebugInfo = record (unknown_info addr) {
      eip_fn_name = name;
      eip_fn_addr = start;
      eip_fn_namelen = name_length t name;
    } in
    let in_function =
      map (λ line. with_line t lfile fun line named)
        (stab_binsearch t.stabs lfun fun.right1 n_sline (u32 (addr + (2 ^ 32 - start)))) in
    let in_file =
      map (λ line. with_line t lfile fun line (unknown_info addr))
        (stab_binsearch t.stabs lfile file.right1 n_sline addr) in
    if leb fun.left1 fun.right1 then in_function else in_file

-- With the region of the file: `lfile == 0` is an error, and -1 reads in front of the table.
with_file : Tables → (addr : ℕ) → Region → Lookup
unfolding with_function
with_file t addr file =
    if file.left1 == 1
    then some (minus_one, unknown_info addr)
    else if file.left1 == 0
    then none
    else elim (stab_binsearch t.stabs (file.left1 - 1) file.right1 n_fun addr) [
      | none ↦ none
      | some fun ↦ with_function t addr file fun
    ]

unfoldable pub debuginfo_eip : Tables → (addr : ℕ) → Lookup
unfolding with_file
debuginfo_eip t addr =
    if t.size == 0 || not (t.stabstr (t.size - 1) == 0)
    then some (minus_one, unknown_info addr)
    else elim (stab_binsearch t.stabs 0 t.count n_so addr) [
      | none ↦ none
      | some file ↦ with_file t addr file
    ]
