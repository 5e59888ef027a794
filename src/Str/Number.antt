-- ===== src/Str/Number.antt =====
-- strtol of lib/string.c, on the characters of the string before its '\0'. The `long` that it
-- returns is kept as its 32-bit pattern. (A negative base, which nothing passes, is left out.)
pub mod Decimal
use library_os_exokernel_imp.Base.{
  ℕ, zero, suc, ◌+◌, ◌-◌, ◌*◌, ◌^◌, ◌%◌, Bool, true, false, ◌&&◌, ◌||◌, ◌==◌, ltb, leb, Option,
  none, some, List, [], ◌∷◌, if◌then◌else◌,
}
use library_os_exokernel_imp.Mmu.{u32}
use library_os_exokernel_imp.Str.Chars.{deref}

-- The value of a digit, or `none` at a character that is none.
abbrev pub digit : ℕ → Option ℕ
digit c =
    if leb 48 c && leb c 57
    then some (c - 48)
    else if leb 97 c && leb c 122
    then some (c - 97 + 10)
    else if leb 65 c && leb c 90
    then some (c - 65 + 10)
    else none

unfoldable pub skip_blanks : List ℕ → List ℕ
skip_blanks [] = []
skip_blanks (c ∷ s) = if (c == 32) || (c == 9) then skip_blanks s else c ∷ s

-- The sign, and the rest.
unfoldable pub sign : List ℕ → Bool × List ℕ
sign [] = (false, [])
sign (c ∷ s) = if c == 43 then (false, s) else if c == 45 then (true, s) else (false, c ∷ s)

-- The base, and the rest after its prefix.
unfoldable pub prefix : ℕ → List ℕ → ℕ × List ℕ
prefix base (c ∷ d ∷ s) =
    if ((base == 0) || (base == 16)) && ((c == 48) && (d == 120))
    then (16, s)
    else if (base == 0) && (c == 48)
    then (8, d ∷ s)
    else (if base == 0 then 10 else base, c ∷ d ∷ s)
prefix base (c ∷ []) =
    if (base == 0) && (c == 48) then (8, []) else (if base == 0 then 10 else base, c ∷ [])
prefix base [] = (if base == 0 then 10 else base, [])

-- A digit is taken where it is below the base.
abbrev pub accepted : ℕ → Option ℕ → Option ℕ
accepted base none = none
accepted base (some dig) = if leb base dig then none else some dig

-- The loop on the digits, `val` in 32 bits: the value, and what is left.
unfoldable pub digits : (base val : ℕ) → List ℕ → ℕ × List ℕ
digits base val [] = (val, [])
digits base val (c ∷ s) = elim (accepted base (digit c)) [
  | none ↦ (val, c ∷ s)
  | some dig ↦ digits base (u32 (val * base + dig)) s
]

-- The result, and `*endptr`.
unfoldable pub strtol : List ℕ → ℕ → ℕ × List ℕ
unfolding skip_blanks sign prefix digits
strtol s base =
    let signed = sign (skip_blanks s) in
    let based = prefix base signed.1 in
    let read = digits based.0 0 based.1 in
    (if signed.0 then u32 (2 ^ 32 - read.0) else read.0, read.1)
