-- ===== src/Str/Number/Decimal.antt =====
-- strtol reads decimal numerals.
use library_os_exokernel_imp.Base.{
  ℕ, ◌+◌, ◌-◌, ◌*◌, ◌^◌, ◌≤◌, ◌<◌, ◌≡◌, refl, ap, sym, ◌∙◌, Bool, true, false, ◌||◌, ◌==◌, none,
  some, List, [], ◌∷◌, if◌then◌else◌, arith,
}
use library_os_exokernel_imp.Mmu.{u32}
use library_os_exokernel_imp.Str.Number.{digits, strtol, digit, accepted, sign, skip_blanks, prefix}

-- The characters of a list of digits.
unfoldable pub numeral : List ℕ → List ℕ
numeral [] = []
numeral (d ∷ ds) = (48 + d) ∷ numeral ds

pub data IsDecimal : List ℕ → Type 0 where
  no_digit : IsDecimal []
  with_digit : {ds : List ℕ} (d : ℕ) → d < 10 → IsDecimal ds → IsDecimal (d ∷ ds)

-- The number that the digits stand for, after those of `val`.
unfoldable pub horner : ℕ → List ℕ → ℕ
horner val [] = val
horner val (d ∷ ds) = horner (val * 10 + d) ds

horner-mod : (val : ℕ) (ds : List ℕ) → u32 (horner (u32 val) ds) ≡ u32 (horner val ds)
unfolding horner
horner-mod val [] = omega arith
horner-mod val (d ∷ ds) =
    sym (horner-mod (u32 val * 10 + d) ds)
    ∙ ap (λ v. u32 (horner v ds))
        (let e : u32 (u32 val * 10 + d) ≡ u32 (val * 10 + d) = omega arith in e)
    ∙ horner-mod (val * 10 + d) ds

digit-char : (d : ℕ) → d < 10 → accepted 10 (digit (48 + d)) ≡ some d
digit-char d h = ground arith

digits-step :
    (base val c : ℕ) (s : List ℕ) (d : ℕ)
    → accepted base (digit c) ≡ some d
    → digits base val (c ∷ s) ≡ digits base (u32 (val * base + d)) s
unfolding digits
digits-step base val c s d h =
    ap
      (λ o. elim o as (λ _. ℕ × List ℕ) [
        | none ↦ (val, c ∷ s)
        | some dig ↦ digits base (u32 (val * base + dig)) s
      ])
      h

digits-horner :
    (val : ℕ) (ds : List ℕ)
    → val < 2 ^ 32
    → IsDecimal ds
    → digits 10 val (numeral ds) ≡ (u32 (horner val ds), [])
unfolding numeral digits horner
digits-horner val [] lt is = ap (λ v. (v, [])) (let e : val ≡ u32 val = omega arith in e)
digits-horner val (d ∷ ds) lt (with_digit _ h is) =
    digits-step 10 val (48 + d) (numeral ds) d (digit-char d h)
    ∙ digits-horner (u32 (val * 10 + d)) ds (omega arith) is
    ∙ ap (λ v. (v, [])) (horner-mod (val * 10 + d) ds)

skip_blanks-digit : (c : ℕ) (s : List ℕ) → 48 ≤ c → skip_blanks (c ∷ s) ≡ c ∷ s
unfolding skip_blanks
skip_blanks-digit c s h =
    ap (λ b. if b then skip_blanks s else c ∷ s)
      (let e : ((c == 32) || (c == 9)) ≡ false = ground arith in e)

sign-digit : (c : ℕ) (s : List ℕ) → 48 ≤ c → sign (c ∷ s) ≡ (false, c ∷ s)
unfolding sign
sign-digit c s h =
    ap (λ b. if b then (false, s) else if c == 45 then (true, s) else (false, c ∷ s))
      (let e : (c == 43) ≡ false = ground arith in e)
    ∙ ap (λ b. if b then (true, s) else (false, c ∷ s))
        (let e : (c == 45) ≡ false = ground arith in e)

prefix-ten : (s : List ℕ) → prefix 10 s ≡ (10, s)
unfolding prefix
prefix-ten [] = refl
prefix-ten (c ∷ []) = refl
prefix-ten (c ∷ d ∷ s) = refl

strtol-digits : (c : ℕ) (s : List ℕ) → 48 ≤ c → strtol (c ∷ s) 10 ≡ digits 10 0 (c ∷ s)
unfolding strtol
strtol-digits c s h =
    let rest : Bool × List ℕ → ℕ × List ℕ = λ signed.
      (let based = prefix 10 signed.1 in
        let read = digits based.0 0 based.1 in
        (if signed.0 then u32 (2 ^ 32 - read.0) else read.0, read.1)) in
    ap (λ w. rest (sign w)) (skip_blanks-digit c s h)
    ∙ ap rest (sign-digit c s h)
    ∙ ap (λ (based : ℕ × List ℕ). digits based.0 0 based.1) (prefix-ten (c ∷ s))

numeral-first : (d : ℕ) (ds : List ℕ) → numeral (d ∷ ds) ≡ (48 + d) ∷ numeral ds
unfolding numeral
numeral-first d ds = refl

-- strtol in base 10 of a decimal numeral of at least one digit gives its number, in 32 bits, and
-- the whole of it is read.
pub strtol-numeral :
    (d : ℕ) (ds : List ℕ)
    → d < 10
    → IsDecimal ds
    → strtol (numeral (d ∷ ds)) 10 ≡ (u32 (horner 0 (d ∷ ds)), [])
strtol-numeral d ds h is =
    ap (λ s. strtol s 10) (numeral-first d ds)
    ∙ strtol-digits (48 + d) (numeral ds) (omega arith)
    ∙ ap (λ s. digits 10 0 s) (sym (numeral-first d ds))
    ∙ digits-horner 0 (d ∷ ds) (omega arith) (with_digit d h is)
