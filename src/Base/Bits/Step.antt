-- ===== src/Base/Bits/Step.antt =====
-- The native bit operations stand for a recursion on binary digits with fuel. Fuel beyond the first
-- operand is of no use, so each operation has one equation for its lowest digit.
use Prim.Native.Nat.{
  ℕ, zero, suc, ◌+◌, ◌-◌, ◌*◌, ◌/◌, ◌%◌, ◌≤◌, min, max, bit_or, bit_and, digits, bitwise,
  bit_and-bitwise, bit_or-bitwise,
}
use mathlib.Core.Path.{◌≡◌, refl, sym, ap, ◌∙◌}
use native.Mathlib.Omega.{arith}

module _ (rest : ℕ → ℕ) (op : ℕ → ℕ → ℕ) where
  -- One unit of fuel more changes nothing.
  idle : (x fuel y : ℕ) → x ≤ fuel → digits rest op (suc fuel) x y ≡ digits rest op fuel x y
  idle zero zero y enough = refl
  idle zero (suc fuel) y enough = refl
  idle (suc x) zero y enough = absurd (omega arith)
  idle (suc x) (suc fuel) y enough =
      let below : suc x / 2 ≤ fuel = omega arith in
      ap (λ high. high * 2 + op (suc x % 2) (y % 2)) (idle (suc x / 2) fuel (y / 2) below)

  spare :
      (extra x y : ℕ) (fuel : ℕ)
      → x ≤ fuel
      → digits rest op (extra + fuel) x y ≡ digits rest op fuel x y
  spare zero x y fuel enough = ap (λ k. digits rest op k x y) (omega arith)
  spare (suc extra) x y fuel enough =
      ap (λ k. digits rest op k x y)
        (let e : suc extra + fuel ≡ suc (extra + fuel) = omega arith in e)
      ∙ idle x (extra + fuel) y (omega arith)
      ∙ spare extra x y fuel enough

  lowest :
      (x y : ℕ)
      → bitwise rest op (suc x) y ≡ bitwise rest op (suc x / 2) (y / 2) * 2 + op (suc x % 2) (y % 2)
  lowest x y =
      let half = suc x / 2 in
      let fuel : x - half + half ≡ x = omega arith in
      ap (λ high. high * 2 + op (suc x % 2) (y % 2))
        (ap (λ k. digits rest op k half (y / 2)) (sym fuel)
          ∙ spare (x - half) half (y / 2) half (omega arith))

pub bit_or_step : (x y : ℕ) → bit_or x y ≡ bit_or (x / 2) (y / 2) * 2 + max (x % 2) (y % 2)
bit_or_step zero y =
    let whole = bit_or-bitwise zero y in
    let half = bit_or-bitwise zero (y / 2) in omega (arith, whole, half)
bit_or_step (suc x) y =
    bit_or-bitwise (suc x) y
    ∙ lowest (λ d. d) max x y
    ∙ ap (λ high. high * 2 + max (suc x % 2) (y % 2)) (sym (bit_or-bitwise (suc x / 2) (y / 2)))

pub bit_and_step : (x y : ℕ) → bit_and x y ≡ bit_and (x / 2) (y / 2) * 2 + min (x % 2) (y % 2)
bit_and_step zero y =
    let whole = bit_and-bitwise zero y in
    let half = bit_and-bitwise zero (y / 2) in omega (arith, whole, half)
bit_and_step (suc x) y =
    bit_and-bitwise (suc x) y
    ∙ lowest (λ _. 0) min x y
    ∙ ap (λ high. high * 2 + min (suc x % 2) (y % 2)) (sym (bit_and-bitwise (suc x / 2) (y / 2)))
