-- ===== src/Str/Memory/Fill.antt =====
-- memset writes the byte all over the block.
use library_os_exokernel_imp.Base.{
  ℕ, zero, suc, ◌+◌, ◌-◌, ◌*◌, ◌/◌, ◌%◌, ◌^◌, ◌<◌, ◌≡◌, ap, ◌∙◌, ◌&&◌, arith, ◌==◌, ltb, leb,
  if◌then◌else◌, bit_or,
}
use library_os_exokernel_imp.Base.Bits.{bit_or_fields}
use library_os_exokernel_imp.Mmu.{u32}
use library_os_exokernel_imp.Str.Memory.{Memory, memset, rep_stosb, rep_stosl, four_times, byte_of}

four_times-sum : (c : ℕ) → four_times c ≡ c % 256 * 16_843_009
unfolding four_times
four_times-sum c =
    let b = c % 256 in
    let top : bit_or (u32 (b * 2 ^ 24)) (b * 2 ^ 16) ≡ (b * 256 + b) * 2 ^ 16 =
      ground (arith, bit_or_fields 24 b (b * 2 ^ 16)) in
    let next : bit_or ((b * 256 + b) * 2 ^ 16) (b * 2 ^ 8) ≡ (b * 65_536 + b * 256 + b) * 2 ^ 8 =
      ground (arith, bit_or_fields 16 (b * 256 + b) (b * 2 ^ 8)) in
    ap (λ x. bit_or (bit_or x (b * 2 ^ 8)) b) top
    ∙ ap (λ x. bit_or x b) next
    ∙ ground (arith, bit_or_fields 8 (b * 65_536 + b * 256 + b) b)

byte_of-four_times : (c i : ℕ) → i < 4 → byte_of (four_times c) i ≡ c % 256
byte_of-four_times c zero h = ap (λ w. byte_of w 0) (four_times-sum c) ∙ omega arith
byte_of-four_times c (suc zero) h = ap (λ w. byte_of w 1) (four_times-sum c) ∙ omega arith
byte_of-four_times c (suc (suc zero)) h = ap (λ w. byte_of w 2) (four_times-sum c) ∙ omega arith
byte_of-four_times c (suc (suc (suc zero))) h =
    ap (λ w. byte_of w 3) (four_times-sum c) ∙ omega arith
byte_of-four_times c (suc (suc (suc (suc i)))) h = absurd (omega arith)

rep_stosb-fill :
    (n d w : ℕ) (m : Memory) (a : ℕ)
    → rep_stosb n d w m a ≡ (if leb d a && ltb a (d + n) then w % 256 else m a)
unfolding rep_stosb
rep_stosb-fill zero d w m a = ground arith
rep_stosb-fill (suc n) d w m a =
    ground (arith, rep_stosb-fill n (d + 1) w (λ a'. if a' == d then w % 256 else m a') a)

rep_stosl-fill :
    (n d w b : ℕ) (m : Memory) (a : ℕ)
    → ((i : ℕ) → i < 4 → byte_of w i ≡ b)
    → rep_stosl n d w m a ≡ (if leb d a && ltb a (d + n * 4) then b else m a)
unfolding rep_stosl
rep_stosl-fill zero d w b m a h = ground arith
rep_stosl-fill (suc n) d w b m a h = ground (
  arith,
  rep_stosl-fill n (d + 4) w b
      (λ a'. if leb d a' && ltb a' (d + 4) then byte_of w (a' - d) else m a') a h,
  h (a - d),
)

-- memset leaves the low byte of `c` at each of the `n` addresses from `v`, and every other byte as
-- it was.
pub memset-fill :
    (v c n : ℕ) (m : Memory) (a : ℕ)
    → memset v c n m a ≡ (if leb v a && ltb a (v + n) then c % 256 else m a)
unfolding memset
memset-fill v c n m a = ground (
  arith,
  rep_stosb-fill n v c m a,
  rep_stosl-fill (n / 4) v (four_times c) (c % 256) m a (byte_of-four_times c),
)
