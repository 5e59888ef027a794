-- ===== src/Str/Memory/Move.antt =====
-- memmove copies the block as it was, also where the blocks overlap.
use library_os_exokernel_imp.Base.{
  ℕ, zero, suc, ◌+◌, ◌-◌, ◌*◌, ◌/◌, ◌%◌, ◌^◌, ◌≤◌, ◌<◌, ◌≡◌, refl, ap, ◌∙◌, ◌⊎◌, inl, inr, Bool,
  true, false, ◌&&◌, arith, ◌==◌, ltb, leb, if◌then◌else◌, Bool-cases,
}
use library_os_exokernel_imp.Mmu.{u32}
use library_os_exokernel_imp.Str.Memory.{Memory, movs, rep_movs_up, rep_movs_down, memmove}

-- The block of `n` bytes at `s`, as it is in `m`, stands at `d`.
abbrev pub moved : (n d s : ℕ) → Memory → Memory
moved n d s m a = if leb d a && ltb a (d + n) then m (s + (a - d)) else m a

rep_movs_up-moved :
    (size n d s : ℕ) (m : Memory) (a : ℕ)
    → (d ≤ s) ⊎ (s + n * size ≤ d)
    → rep_movs_up size n d s m a ≡ moved (n * size) d s m a
unfolding rep_movs_up
rep_movs_up-moved size zero d s m a h = ground arith
rep_movs_up-moved size (suc n) d s m a h =
    ground (
      arith,
      rep_movs_up-moved size n (d + size) (s + size) (movs size d s m) a (ground (arith, h)),
    )

-- Within the lower block, what is read is above what has been written.
moved-last :
    (b size d s : ℕ) (m : Memory) (a : ℕ)
    → s ≤ d
    → moved b d s (movs size (d + b) (s + b) m) a ≡ moved (b + size) d s m a
moved-last b size d s m a h = elim (Bool-cases (leb d a && ltb a (d + b))) [
  | inl low ↦
      (let same : s + (a - d) < d + b = ground arith in
        let bound : a < d + b = ground arith in let from : d ≤ a = ground arith in ground arith)
  | inr out ↦
      (let there : (s + b) + (a - (d + b)) ≡ s + (a - (b + d)) + b = omega arith in
        elim (Bool-cases (leb (d + b) a && ltb a (d + b + size))) [
          | inl top ↦
              (let e : s + b + (a - (d + b)) ≡ s + (a - d) = ground arith in ground (arith, e))
          | inr other ↦ ground arith
        ])
]

rep_movs_down-moved :
    (size n d s : ℕ) (m : Memory) (a : ℕ)
    → s ≤ d
    → rep_movs_down size n d s m a ≡ moved (n * size) d s m a
unfolding rep_movs_down
rep_movs_down-moved size zero d s m a h = ground arith
rep_movs_down-moved size (suc n) d s m a h =
    rep_movs_down-moved size n d s (movs size (d + n * size) (s + n * size) m) a h
    ∙ moved-last (n * size) size d s m a h
    ∙ ap (λ b. moved b d s m a) (omega arith)

if_at :
    (b : Bool) (f g : Memory) (a t : ℕ)
    → (b ≡ true → f a ≡ t)
    → (b ≡ false → g a ≡ t)
    → (if b then f else g) a ≡ t
if_at true f g a t hf hg = hf refl
if_at false f g a t hf hg = hg refl

words_all : (n : ℕ) → n % 4 ≡ 0 → n / 4 * 4 ≡ n
words_all n h = omega (arith, h)

third : (p q : Bool) (n : ℕ) → (p && q && (n % 4 == 0)) ≡ true → n % 4 ≡ 0
third p q n h = ground (arith, h)

overlap :
    (dst src n : ℕ)
    → src + n < 2 ^ 32
    → (ltb src dst && ltb dst (u32 (src + n))) ≡ false
    → (dst ≤ src) ⊎ (src + n ≤ dst)
overlap dst src n hs h = elim (Bool-cases (leb dst src)) [
  | inl below ↦ inl (ground arith)
  | inr above ↦ inr (ground arith)
]

below_lem : (dst src e : ℕ) → (ltb src dst && ltb dst e) ≡ true → src ≤ dst
below_lem dst src e h = ground arith

-- memmove leaves at `dst` the `n` bytes that stood at `src`, also where the blocks overlap, and
-- every other byte as it was, where neither block reaches the end of the address space.
pub memmove-moved :
    (dst src n : ℕ) (m : Memory) (a : ℕ)
    → dst + n < 2 ^ 32
    → src + n < 2 ^ 32
    → memmove dst src n m a ≡ (if leb dst a && ltb a (dst + n) then m (src + (a - dst)) else m a)
unfolding memmove
memmove-moved dst src n m a hd hs =
    let t = moved n dst src m a in
    let down = rep_movs_down 4 (n / 4) dst src m in
    let down_bytes = rep_movs_down 1 n dst src m in
    let up = rep_movs_up 4 (n / 4) dst src m in
    let up_bytes = rep_movs_up 1 n dst src m in
    let words = λ (h : n % 4 ≡ 0). ap (λ b. moved b dst src m a) (words_all n h) in
    let bytes = ap (λ b. moved b dst src m a) (let e : n * 1 ≡ n = omega arith in e) in
    if_at (ltb src dst && ltb dst (u32 (src + n))) _ _ a t
      (λ over.
        if_at ((u32 (src + n) % 4 == 0) && (u32 (dst + n) % 4 == 0) && (n % 4 == 0)) down down_bytes
          a t
          (λ h.
            rep_movs_down-moved 4 (n / 4) dst src m a (below_lem dst src (u32 (src + n)) over)
            ∙ words (third (u32 (src + n) % 4 == 0) (u32 (dst + n) % 4 == 0) n h))
          (λ h.
            rep_movs_down-moved 1 n dst src m a (below_lem dst src (u32 (src + n)) over) ∙ bytes))
      (λ apart.
        if_at ((src % 4 == 0) && (dst % 4 == 0) && (n % 4 == 0)) up up_bytes a t
          (λ h.
            rep_movs_up-moved 4 (n / 4) dst src m a (
              ground (
                arith,
                overlap dst src n hs apart,
                words_all n (third (src % 4 == 0) (dst % 4 == 0) n h),
              ))
            ∙ words (third (src % 4 == 0) (dst % 4 == 0) n h))
          (λ h.
            rep_movs_up-moved 1 n dst src m a (ground (arith, overlap dst src n hs apart)) ∙ bytes))
