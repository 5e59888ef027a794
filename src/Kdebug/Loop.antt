-- ===== src/Kdebug/Loop.antt =====
-- The loop of stab_binsearch: it ends, and what its bounds separate.
use mathlib.Core.Option.{map}
use library_os_exokernel_imp.Base.{
  ℕ, zero, suc, ◌+◌, ◌-◌, ◌*◌, ◌/◌, ◌^◌, ◌≤◌, ◌<◌, ◌≡◌, refl, sym, ap, ◌∙◌, inl, inr, true, false,
  ◌==◌, ltb, some, Bool-cases, Option-cases, ltb→lt, if◌then◌else◌, arith,
}
use library_os_exokernel_imp.Mmu.{u32}
use library_os_exokernel_imp.Kdebug.{
  Stab, Search, last_of, bisect, compare_at, search_round, search, at_start, search_fuel, Region,
  finish, stab_binsearch,
}

-- A stab of the type that is searched for.
abbrev pub IsOf : (stabs : ℕ → Stab) (type i : ℕ) → Type 0
IsOf stabs type i = (stabs i).n_type ≡ type

-- What the inner loop finds has the type and lies in its range.
pub last_of-IsOf :
    (stabs : ℕ → Stab) (type l n m : ℕ)
    → last_of stabs type l n ≡ some m
    → IsOf stabs type m × (l ≤ m) × (m < l + n)
unfolding last_of
last_of-IsOf stabs type l zero m h = ground arith
last_of-IsOf stabs type l (suc n) m h = ground (arith, last_of-IsOf stabs type l n m)

-- It finds a stab at or behind any of the type.
pub last_of-reaches :
    (stabs : ℕ → Stab) (type l n i : ℕ)
    → IsOf stabs type i
    → l ≤ i
    → i < l + n
    → (m : ℕ) × (last_of stabs type l n ≡ some m) × (i ≤ m)
unfolding last_of
last_of-reaches stabs type l zero i t a b = absurd (omega arith)
last_of-reaches stabs type l (suc n) i t a b = elim (Bool-cases ((stabs (l + n)).n_type == type)) [
  | inl e ↦ (l + n, rw e refl, omega arith)
  | inr e ↦
      let rest = last_of-reaches stabs type l n i t a (below e) in (rest.0, rw e rest.1, rest.2)
]
  where
    below : ((stabs (l + n)).n_type == type) ≡ false → i < l + n
    below e = elim (Bool-cases (ltb i (l + n))) [
      | inl s ↦ ground arith
      | inr s ↦
          let at : i ≡ l + n = ground arith in
          let e' : (stabs (l + n)).n_type ≡ type = ap (λ j. (stabs j).n_type) (sym at) ∙ t in
          absurd (ground arith)
    ]

-- Less to search, and the address grows by no more than that.
abbrev Shrinks : (measure : Search → ℕ) → Search → Search → Type 0
Shrinks measure s s' = (measure s' < measure s) × (s'.addr + measure s' ≤ s.addr + measure s)

module _ (stabs : ℕ → Stab) (type : ℕ) where
  -- 0 where the first stab of the range is settled: it has the type and a smaller address.
  unsettled : Search → ℕ
  unsettled s =
      if (stabs s.l).n_type == type then if ltb (stabs s.l).n_value s.addr then 0 else 1 else 1

  unsettled-le : (s : Search) → unsettled s ≤ 1
  unfolding unsettled
  unsettled-le s = ground arith

  pub measure : Search → ℕ
  measure s = 2 * (s.r1 - s.l) + unsettled s

  exact-Shrinks :
      (m : ℕ) (s : Search)
      → IsOf stabs type m
      → s.l ≤ m
      → m < s.r1
      → s.addr + 1 < 2 ^ 32
      → (stabs m).n_value ≡ s.addr
      → Shrinks measure s
          (record s { region_left = m; l = m; addr = u32 (s.addr + 1); any_matches = true })
  unfolding measure unsettled
  exact-Shrinks m s t a b w e = elim (Bool-cases (s.l == m)) [
    | inl q ↦
        let here : s.l ≡ m = ground arith in
        ground (arith, ap (λ j. (stabs j).n_value) here, ap (λ j. (stabs j).n_type) here)
    | inr q ↦ ground arith
  ]

  -- What a round moves, with `m` found up to `true_m`.
  compare_at-Shrinks :
      (m true_m : ℕ) (s : Search)
      → IsOf stabs type m
      → s.l ≤ m
      → m ≤ true_m
      → true_m < s.r1
      → s.addr + 1 < 2 ^ 32
      → Shrinks measure s (compare_at (stabs m).n_value m true_m s)
  unfolding measure compare_at
  compare_at-Shrinks m true_m s t a b c w = elim (Bool-cases (ltb (stabs m).n_value s.addr)) [
    | inl e ↦ rw e (omega (arith, unsettled-le))
    | inr e ↦ rw e (elim (Bool-cases (ltb s.addr (stabs m).n_value)) [
      | inl e' ↦ rw e' (omega (arith, unsettled-le, ltb→lt _ _ e'))
      | inr e' ↦ rw e' (exact-Shrinks m s t a (omega arith) w (ground arith))
    ])
  ]

  skip-Shrinks :
      (t : ℕ) (s : Search) → s.l ≤ t → t < s.r1 → Shrinks measure s (record s { l = t + 1 })
  unfolding measure
  skip-Shrinks t s a b = omega (arith, unsettled-le)

  measure_lower : (s : Search) → s.l < s.r1 → 1 < measure s
  unfolding measure
  measure_lower s h = omega arith

  search_round-Shrinks :
      (s : Search)
      → s.l < s.r1
      → s.addr + 1 < 2 ^ 32
      → Shrinks measure s (search_round stabs type s)
  unfolding search_round bisect
  search_round-Shrinks s h w =
      elim (Option-cases (last_of stabs type s.l ((s.l + (s.r1 - 1)) / 2 + 1 - s.l))) [
        | inl e ↦ rw e (skip-Shrinks _ s (omega arith) (omega arith))
        | inr (m, e) ↦
            let p = last_of-IsOf stabs type s.l _ m e in
            rw e (compare_at-Shrinks m _ s p.0 p.1 (omega arith) (omega arith) w)
      ]

  -- With fuel above the measure the loop ends.
  pub search_total :
      (fuel : ℕ) (s : Search)
      → measure s < fuel
      → s.addr + measure s < 2 ^ 32
      → (s' : Search) × (search fuel stabs type s ≡ some s')
  unfolding search
  search_total zero s h w = absurd (omega arith)
  search_total (suc fuel) s h w = elim (Bool-cases (ltb s.l s.r1)) [
    | inl e ↦
        let p : Shrinks measure s (search_round stabs type s) =
          search_round-Shrinks s (ltb→lt _ _ e) (omega (arith, ltb→lt _ _ e, measure_lower s)) in
        rw e (search_total fuel (search_round stabs type s) (omega arith) (omega arith))
    | inr e ↦ (s, rw e refl)
  ]

  pub at_start-measure :
      (left right1 addr : ℕ) → measure (at_start left right1 addr) < search_fuel left right1
  unfolding measure
  at_start-measure left right1 addr = omega (arith, unsettled-le (at_start left right1 addr))

-- For any table, be its stabs in order or not, and an address so far below 2 ^ 32 that the search
-- does not wrap it around (addr + 2 * (right1 - left) + 2 < 2 ^ 32), stab_binsearch returns: the
-- rounds of its loop are less than 2 * (right1 - left) + 2.
pub stab_binsearch_total :
    (stabs : ℕ → Stab) (left right1 type addr : ℕ)
    → addr + search_fuel left right1 < 2 ^ 32
    → (r : Region) × (stab_binsearch stabs left right1 type addr ≡ some r)
unfolding stab_binsearch
stab_binsearch_total stabs left right1 type addr h =
    let total =
      search_total stabs type (search_fuel left right1) (at_start left right1 addr)
        (at_start-measure stabs type left right1 addr)
        (omega (arith, at_start-measure stabs type left right1 addr)) in
    (finish stabs type total.0, ap (map (finish stabs type)) total.1)
