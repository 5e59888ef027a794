-- ===== src/Printf/Number/Decimal.antt =====
-- printnum in base 10: the digits that it prints, and that strtol reads them back.
use library_os_exokernel_imp.Base.{
  ℕ, zero, suc, ◌+◌, ◌-◌, ◌*◌, ◌/◌, ◌%◌, ◌^◌, ◌≤◌, ◌<◌, ◌≡◌, refl, ap, sym, ◌∙◌, ◌≢◌, Bool, true,
  false, Bool-cases, inl, inr, leb, List, [], ◌∷◌, ◌++◌, if◌then◌else◌, arith,
}
use native.Mathlib.Nat.{pow-suc}
use library_os_exokernel_imp.Mmu.{u32}
use library_os_exokernel_imp.Str.Number.{strtol, skip_blanks, sign, prefix, digits}
use library_os_exokernel_imp.Str.Number.Decimal.{
  numeral, horner, IsDecimal, no_digit, with_digit, strtol-numeral,
}
use library_os_exokernel_imp.Printf.Number.{printnum, print_digits, pads, digit_char}

-- `putch` that collects what it is given.
abbrev pub collect : ℕ → List ℕ → List ℕ
collect c out = out ++ c ∷ []

-- A character `n` times.
unfoldable pub repeated : ℕ → ℕ → List ℕ
repeated zero c = []
repeated (suc n) c = c ∷ repeated n c

-- The decimal digits of a number, most significant first.
unfoldable pub decimal : ℕ → ℕ → List ℕ
decimal zero num = num % 10 ∷ []
decimal (suc fuel) num =
    let preceding = decimal fuel (num / 10) in
    if leb 10 num then preceding ++ num % 10 ∷ [] else num % 10 ∷ []

horner-append : (v : ℕ) (ds : List ℕ) (d : ℕ) → horner v (ds ++ d ∷ []) ≡ horner v ds * 10 + d
unfolding horner
horner-append v [] d = refl
horner-append v (e ∷ ds) d = horner-append (v * 10 + e) ds d

decimal-more :
    (fuel num : ℕ) → 10 ≤ num → decimal (suc fuel) num ≡ decimal fuel (num / 10) ++ num % 10 ∷ []
unfolding decimal
decimal-more fuel num h =
    ap (λ b. if b then decimal fuel (num / 10) ++ num % 10 ∷ [] else num % 10 ∷ [])
      (let e : leb 10 num ≡ true = ground arith in e)

decimal-last : (fuel num : ℕ) → num < 10 → decimal fuel num ≡ num ∷ []
unfolding decimal
decimal-last zero num h = ap (λ d. d ∷ []) (omega arith)
decimal-last (suc fuel) num h =
    ap (λ b. if b then decimal fuel (num / 10) ++ num % 10 ∷ [] else num % 10 ∷ [])
      (let e : leb 10 num ≡ false = ground arith in e)
    ∙ ap (λ d. d ∷ []) (let e : num % 10 ≡ num = omega arith in e)

-- With enough fuel the digits stand for the number.
pub horner-decimal : (fuel num : ℕ) → num < 2 ^ fuel → horner 0 (decimal fuel num) ≡ num
unfolding horner
horner-decimal zero num h = ap (horner 0) (decimal-last 0 num (omega arith)) ∙ omega arith
horner-decimal (suc fuel) num h = elim (Bool-cases (leb 10 num)) [
  | inl more ↦
      let half : num / 10 < 2 ^ fuel = ground (arith, pow-suc 2 fuel) in
      ap (horner 0) (decimal-more fuel num (ground arith))
      ∙ horner-append 0 (decimal fuel (num / 10)) (num % 10)
      ∙ ap (λ v. v * 10 + num % 10) (horner-decimal fuel (num / 10) half)
      ∙ omega arith
  | inr last ↦ ap (horner 0) (decimal-last (suc fuel) num (ground arith)) ∙ omega arith
]

IsDecimal-append : (ds : List ℕ) (d : ℕ) → d < 10 → IsDecimal ds → IsDecimal (ds ++ d ∷ [])
IsDecimal-append [] d h is = with_digit d h no_digit
IsDecimal-append (e ∷ ds) d h (with_digit _ k is) = with_digit e k (IsDecimal-append ds d h is)

pub IsDecimal-decimal : (fuel num : ℕ) → IsDecimal (decimal fuel num)
unfolding decimal
IsDecimal-decimal zero num = with_digit (num % 10) (omega arith) no_digit
IsDecimal-decimal (suc fuel) num =
    choose (leb 10 num)
      (IsDecimal-append (decimal fuel (num / 10)) (num % 10) (omega arith)
        (IsDecimal-decimal fuel (num / 10)))
      (with_digit (num % 10) (omega arith) no_digit)
  where
    choose : (b : Bool) {s t : List ℕ} → IsDecimal s → IsDecimal t → IsDecimal (if b then s else t)
    choose true s t = s
    choose false s t = t

append_assoc : (s t u : List ℕ) → (s ++ t) ++ u ≡ s ++ (t ++ u)
append_assoc [] t u = refl
append_assoc (c ∷ s) t u = ap (λ v. c ∷ v) (append_assoc s t u)

numeral-append : (s : List ℕ) (d : ℕ) → numeral (s ++ d ∷ []) ≡ numeral s ++ (48 + d) ∷ []
unfolding numeral
numeral-append [] d = refl
numeral-append (e ∷ s) d = ap (λ v. (48 + e) ∷ v) (numeral-append s d)

append-none : (s : List ℕ) → s ++ [] ≡ s
append-none [] = refl
append-none (c ∷ s) = ap (λ v. c ∷ v) (append-none s)

pads-repeated : (n c : ℕ) (out : List ℕ) → pads collect n c out ≡ out ++ repeated n c
unfolding pads repeated
pads-repeated zero c out = sym (append-none out)
pads-repeated (suc n) c out =
    pads-repeated n c (out ++ c ∷ []) ∙ append_assoc out (c ∷ []) (repeated n c)

-- How many pad characters stand before the digits.
unfoldable pub padding : (fuel num width : ℕ) → ℕ
padding zero num width = width - 1
padding (suc fuel) num width =
    let preceding = padding fuel (num / 10) (width - 1) in
    if leb 10 num then preceding else width - 1

print_digits-more :
    (fuel num width padc : ℕ) (out : List ℕ)
    → 10 ≤ num
    → print_digits collect (suc fuel) num 10 width padc out
      ≡ print_digits collect fuel (num / 10) 10 (width - 1) padc out ++ digit_char (num % 10) ∷ []
unfolding print_digits
print_digits-more fuel num width padc out h =
    ap
      (λ b.
        (if b
          then print_digits collect fuel (num / 10) 10 (width - 1) padc out
          else pads collect (width - 1) padc out)
        ++ digit_char (num % 10) ∷ [])
      (let e : leb 10 num ≡ true = ground arith in e)

print_digits-last :
    (fuel num width padc : ℕ) (out : List ℕ)
    → num < 10
    → print_digits collect fuel num 10 width padc out
      ≡ pads collect (width - 1) padc out ++ digit_char (num % 10) ∷ []
unfolding print_digits
print_digits-last zero num width padc out h = refl
print_digits-last (suc fuel) num width padc out h =
    ap
      (λ b.
        (if b
          then print_digits collect fuel (num / 10) 10 (width - 1) padc out
          else pads collect (width - 1) padc out)
        ++ digit_char (num % 10) ∷ [])
      (let e : leb 10 num ≡ false = ground arith in e)

char-digit : (num : ℕ) → digit_char (num % 10) ≡ 48 + num % 10
char-digit num = ground arith

padding-more :
    (fuel num width : ℕ)
    → 10 ≤ num
    → padding (suc fuel) num width ≡ padding fuel (num / 10) (width - 1)
unfolding padding
padding-more fuel num width h =
    ap (λ b. if b then padding fuel (num / 10) (width - 1) else width - 1)
      (let e : leb 10 num ≡ true = ground arith in e)

padding-last : (fuel num width : ℕ) → num < 10 → padding fuel num width ≡ width - 1
unfolding padding
padding-last zero num width h = refl
padding-last (suc fuel) num width h =
    ap (λ b. if b then padding fuel (num / 10) (width - 1) else width - 1)
      (let e : leb 10 num ≡ false = ground arith in e)

numeral-one : (d : ℕ) → numeral (d ∷ []) ≡ (48 + d) ∷ []
unfolding numeral
numeral-one d = refl

print_digits-one :
    (fuel num width padc : ℕ) (out : List ℕ)
    → num < 10
    → print_digits collect fuel num 10 width padc out
      ≡ (out ++ repeated (padding fuel num width) padc) ++ numeral (decimal fuel num)
print_digits-one fuel num width padc out h =
    print_digits-last fuel num width padc out h
    ∙ ap (λ p. p ++ digit_char (num % 10) ∷ []) (pads-repeated (width - 1) padc out)
    ∙ ap (λ n. (out ++ repeated n padc) ++ digit_char (num % 10) ∷ [])
        (sym (padding-last fuel num width h))
    ∙ ap (λ s. (out ++ repeated (padding fuel num width) padc) ++ s)
        (ap (λ c. c ∷ []) (let e : digit_char (num % 10) ≡ 48 + num = ground arith in e)
          ∙ sym (numeral-one num)
          ∙ ap numeral (sym (decimal-last fuel num h)))

-- printnum in base 10 prints the padding and then the digits.
print_digits-decimal :
    (fuel num width padc : ℕ) (out : List ℕ)
    → num < 2 ^ fuel
    → print_digits collect fuel num 10 width padc out
      ≡ (out ++ repeated (padding fuel num width) padc) ++ numeral (decimal fuel num)
print_digits-decimal zero num width padc out h =
    print_digits-one zero num width padc out (omega arith)
print_digits-decimal (suc fuel) num width padc out h = elim (Bool-cases (leb 10 num)) [
  | inr last ↦ print_digits-one (suc fuel) num width padc out (ground arith)
  | inl more ↦
      let big : 10 ≤ num = ground arith in
      let half : num / 10 < 2 ^ fuel = ground (arith, pow-suc 2 fuel) in
      let before = out ++ repeated (padding fuel (num / 10) (width - 1)) padc in
      print_digits-more fuel num width padc out big
      ∙ ap (λ s. s ++ digit_char (num % 10) ∷ [])
          (print_digits-decimal fuel (num / 10) (width - 1) padc out half)
      ∙ append_assoc before (numeral (decimal fuel (num / 10))) (digit_char (num % 10) ∷ [])
      ∙ ap (λ c. before ++ (numeral (decimal fuel (num / 10)) ++ c ∷ [])) (char-digit num)
      ∙ ap (λ s. before ++ s) (sym (numeral-append (decimal fuel (num / 10)) (num % 10)))
      ∙ ap (λ s. before ++ numeral s) (sym (decimal-more fuel num big))
      ∙ ap (λ n. (out ++ repeated n padc) ++ numeral (decimal (suc fuel) num))
          (sym (padding-more fuel num width big))
]

skip_blanks-repeated : (n : ℕ) (s : List ℕ) → skip_blanks (repeated n 32 ++ s) ≡ skip_blanks s
unfolding skip_blanks repeated
skip_blanks-repeated zero s = refl
skip_blanks-repeated (suc n) s = skip_blanks-repeated n s

strtol-blanks : (n : ℕ) (s : List ℕ) (base : ℕ) → strtol (repeated n 32 ++ s) base ≡ strtol s base
unfolding strtol
strtol-blanks n s base =
    let rest : List ℕ → ℕ × List ℕ = λ blanked.
      (let signed = sign blanked in
        let based = prefix base signed.1 in
        let read = digits based.0 0 based.1 in
        (if signed.0 then u32 (2 ^ 32 - read.0) else read.0, read.1)) in
    ap rest (skip_blanks-repeated n s)

append-nonempty : (s : List ℕ) (c : ℕ) → s ++ c ∷ [] ≢ []
append-nonempty [] c e = ground arith
append-nonempty (d ∷ s) c e = ground arith

decimal-nonempty : (fuel num : ℕ) → decimal fuel num ≢ []
unfolding decimal
decimal-nonempty zero num e = ground arith
decimal-nonempty (suc fuel) num e = elim (Bool-cases (leb 10 num)) [
  | inl more ↦
      append-nonempty (decimal fuel (num / 10)) (num % 10)
        (sym (decimal-more fuel num (ground arith)) ∙ e)
  | inr last ↦ ground (arith, decimal-last (suc fuel) num (ground arith), e)
]

strtol-decimal :
    (fuel num : ℕ) → num < 2 ^ fuel → strtol (numeral (decimal fuel num)) 10 ≡ (u32 num, [])
strtol-decimal fuel num h =
    elim-digits (decimal fuel num) (IsDecimal-decimal fuel num) (horner-decimal fuel num h)
      (decimal-nonempty fuel num)
  where
    elim-digits :
        (ds : List ℕ)
        → IsDecimal ds
        → horner 0 ds ≡ num
        → (ds ≢ [])
        → strtol (numeral ds) 10 ≡ (u32 num, [])
    elim-digits [] is e n = absurd (n refl)
    elim-digits (d ∷ ds) (with_digit _ k is) e n =
        strtol-numeral d ds k is ∙ ap (λ v. (u32 v, [])) e

-- What printnum prints in base 10 of a number below 2 ^ 64, padded with blanks to any width, strtol
-- reads back, in 32 bits and to its end.
pub printnum-strtol :
    (num width : ℕ) → num < 2 ^ 64 → strtol (printnum collect num 10 width 32 []) 10 ≡ (u32 num, [])
unfolding printnum
printnum-strtol num width h =
    ap (λ s. strtol s 10) (print_digits-decimal 64 num width 32 [] h)
    ∙ strtol-blanks (padding 64 num width) (numeral (decimal 64 num)) 10
    ∙ strtol-decimal 64 num h
