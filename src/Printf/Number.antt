-- ===== src/Printf/Number.antt =====
-- printnum of lib/printfmt.c. `putch` is the function that it is given, on a state of its caller's.
pub mod Decimal
use library_os_exokernel_imp.Base.{
  ℕ, zero, suc, ◌+◌, ◌-◌, ◌/◌, ◌%◌, Bool, true, false, leb, ltb, if◌then◌else◌,
}

-- "0123456789abcdef"[d]
abbrev pub digit_char : ℕ → ℕ
digit_char d = if leb d 9 then 48 + d else 87 + d

module _ {S : Type 0} (putch : ℕ → S → S) where
  -- `while (--width > 0) putch(padc)`, with the rounds
  unfoldable pub pads : ℕ → ℕ → S → S
  pads zero padc out = out
  pads (suc n) padc out = pads n padc (putch padc out)

  -- A width that is negative is 0 here: neither pads. The fuel is a bound on the digits in base 2.
  unfoldable pub print_digits : (fuel num base width padc : ℕ) → S → S
  unfolding pads
  print_digits zero num base width padc out =
      putch (digit_char (num % base)) (pads (width - 1) padc out)
  print_digits (suc fuel) num base width padc out =
      let preceding = print_digits fuel (num / base) base (width - 1) padc out in
      let padded = pads (width - 1) padc out in
      putch (digit_char (num % base)) (if leb base num then preceding else padded)

  -- `num` is an `unsigned long long`.
  unfoldable pub printnum : (num base width padc : ℕ) → S → S
  unfolding print_digits
  printnum num base width padc out = print_digits 64 num base width padc out
