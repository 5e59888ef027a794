-- ===== src/Kdebug/Contract.antt =====
-- What stab_binsearch promises: it brackets the address.
use library_os_exokernel_imp.Base.{
  ℕ, zero, suc, ◌+◌, ◌^◌, ◌≤◌, ◌<◌, ◌≡◌, refl, sym, ap, ◌∙◌, ◌⊎◌, inl, inr, true, ◌==◌, ltb, some,
  Bool-cases, ltb→lt, ==_false, arith,
}
use library_os_exokernel_imp.Kdebug.{
  Stab, Search, search, at_start, search_fuel, rightmost, finish, stab_binsearch,
}
use library_os_exokernel_imp.Kdebug.Loop.{IsOf, search_total, at_start-measure}
use library_os_exokernel_imp.Kdebug.Bounds.{IsOrdered, Bounds, search-Bounds}

-- The loop at the end finds the last stab of the type.
rightmost-last :
    (stabs : ℕ → Stab) (type left n j : ℕ)
    → IsOf stabs type j
    → left ≤ j
    → j < n
    → (l : ℕ) × (rightmost stabs type left n ≡ suc l) × IsOf stabs type l × (j ≤ l) × (l < n)
unfolding rightmost
rightmost-last stabs type left zero j is a b = absurd (omega arith)
rightmost-last stabs type left (suc n) j is a b = elim (Bool-cases (n == j)) [
  | inl e ↦
      let e' : j ≡ n = ground arith in
      let is' : IsOf stabs type n = ap (λ i. (stabs i).n_type) (sym e') ∙ is in
      (n, ground arith, is', omega arith, omega arith)
  | inr e ↦ elim (Bool-cases ((stabs n).n_type == type)) [
    | inl f ↦ (n, ground arith, ground arith, ground arith, omega arith)
    | inr f ↦
        let rest = rightmost-last stabs type left n j is a (ground arith) in
        (rest.0, ground (arith, rest.1), rest.2, rest.3, omega (arith, rest.4))
  ]
]

rightmost-left :
    (stabs : ℕ → Stab) (type left n : ℕ)
    → left < n
    → ((i : ℕ) → left ≤ i → i < n → ¬ IsOf stabs type i)
    → rightmost stabs type left n ≡ suc left
unfolding rightmost
rightmost-left stabs type left zero h none_of = absurd (omega arith)
rightmost-left stabs type left (suc n) h none_of = elim (Bool-cases (ltb left n)) [
  | inl e ↦ rw e (
      rw (==_false _ _ (none_of n (omega arith) (omega arith)))
        (rightmost-left stabs type left n (ltb→lt left n e) (λ i a b. none_of i a (omega arith))))
  | inr e ↦ ground arith
]

-- `l` is the stab that contains `addr`, and the next one is at `r1`, if there is one.
pub record Containing (stabs : ℕ → Stab) (type left right1 addr l r1 : ℕ) : Type 0 where
  pub matching : IsOf stabs type l
  pub range : (left ≤ l) × (l < r1) × (r1 ≤ right1)
  pub at_or_below : (stabs l).n_value ≤ addr
  pub single : (i : ℕ) → l < i → i < r1 → ¬ IsOf stabs type i
  pub next : (r1 ≡ right1) ⊎ (IsOf stabs type r1 × (addr < (stabs r1).n_value))

module _ (stabs : ℕ → Stab) (type left right1 addr : ℕ)
    (ordered : IsOrdered stabs type left right1 addr) where
  -- The loop separates the stabs at or below the address from those above it.
  Bounds-upper :
      (s : Search) (i : ℕ)
      → Bounds stabs type left right1 addr ordered s
      → s.r1 ≤ s.l
      → i < right1
      → IsOf stabs type i
      → (stabs i).n_value ≤ addr
      → i < s.r1
  Bounds-upper s i b e h is v = elim (Bool-cases (ltb i s.r1)) [
    | inl f ↦ ltb→lt i s.r1 f
    | inr f ↦ absurd (omega (arith, b.above i (ground arith) h is, b.address))
  ]

  Bounds-lower :
      (s : Search) (i : ℕ)
      → Bounds stabs type left right1 addr ordered s
      → s.r1 ≤ s.l
      → left ≤ i
      → i < s.r1
      → IsOf stabs type i
      → (stabs i).n_value ≤ addr
  Bounds-lower s i b e a h is = omega (arith, b.below i a (omega arith) is, b.address)

  at_start-Bounds :
      left ≤ right1 → Bounds stabs type left right1 addr ordered (at_start left right1 addr)
  at_start-Bounds h = record {
    lower = omega arith;
    upper = omega arith;
    meet = h;
    below = λ i a c is. absurd (omega arith);
    above = λ i a c is. absurd (omega arith);
    same = refl;
    next = inl refl;
    matched = λ e. absurd (cc);
    address = inl refl;
    begins = omega arith;
    best = inl refl;
    unmatched = λ _. (refl, refl, λ i a c is. omega arith);
  }

  finish-Containing :
      (s : Search) (j : ℕ)
      → Bounds stabs type left right1 addr ordered s
      → s.r1 ≤ s.l
      → left ≤ j
      → j < right1
      → IsOf stabs type j
      → (stabs j).n_value ≤ addr
      → (l : ℕ) × (finish stabs type s ≡ record { left1 = suc l; right1 = s.r1 })
        × Containing stabs type left right1 addr l s.r1
  unfolding finish
  finish-Containing s j b e a h is v = (
    l,
    finished,
    record {
      matching = found.2;
      range = (omega (arith, found.3, start.1), found.4, b.upper);
      at_or_below = Bounds-lower s l b e (omega (arith, found.3, start.1)) found.4 found.2;
      single = λ i c d is'.
          let other =
            rightmost-last stabs type s.region_left s.r1 i is' (omega (arith, found.3, start.2))
              d in
          let same : suc other.0 ≡ suc l = sym other.1 ∙ found.1 in omega (arith, same, other.3);
      next = after;
    },
  )
    where
      matches : s.any_matches ≡ true
      matches = elim (Bool-cases s.any_matches) [
        | inl m ↦ m
        | inr m ↦ let u = b.unmatched m in absurd (u.2 j a (omega (arith, u.1)) is)
      ]

      start : (j' : ℕ) × (left ≤ j') × (s.region_left ≤ j') × (j' < s.r1) × IsOf stabs type j'
      start = elim b.best [
        | inl best ↦ (j, a, omega arith, Bounds-upper s j b e h is v, is)
        | inr best ↦ (
          s.region_left,
          b.begins,
          omega arith,
          elim (Bool-cases (ltb s.region_left s.r1)) [
            | inl f ↦ ltb→lt _ _ f
            | inr f ↦
                absurd (omega (arith, best.2, b.above s.region_left (ground arith) best.1 best.0))
          ],
          best.0,
        )
      ]

      found :
          (l : ℕ) × (rightmost stabs type s.region_left s.r1 ≡ suc l)
          × IsOf stabs type l
          × (start.0 ≤ l)
          × (l < s.r1)
      found = rightmost-last stabs type s.region_left s.r1 start.0 start.4 start.2 start.3

      l : ℕ
      l = found.0

      finished : finish stabs type s ≡ record { left1 = suc l; right1 = s.r1 }
      finished = rw matches (rw b.same (ap (λ n. record { left1 = n; right1 = s.r1 }) found.1))

      after : (s.r1 ≡ right1) ⊎ (IsOf stabs type s.r1 × (addr < (stabs s.r1).n_value))
      after = elim b.next [
        | inl n ↦ inl n
        | inr n ↦ elim (Bool-cases (s.r1 == right1)) [
          | inl f ↦ inl (ground arith)
          | inr f ↦
              inr (
                n,
                omega (arith, b.address, b.above s.r1 (omega arith) (ground (arith, b.upper)) n),
              )
        ]
      ]

  ended :
      left ≤ right1
      → addr + search_fuel left right1 < 2 ^ 32
      → (s : Search) × (search (search_fuel left right1) stabs type (at_start left right1 addr)
          ≡ some s)
        × Bounds stabs type left right1 addr ordered s
        × (s.r1 ≤ s.l)
  ended h w =
      let total =
        search_total stabs type (search_fuel left right1) (at_start left right1 addr)
          (at_start-measure stabs type left right1 addr)
          (omega (arith, at_start-measure stabs type left right1 addr)) in
      let kept =
        search-Bounds stabs type left right1 addr ordered (search_fuel left right1) _ total.0
          (at_start-Bounds h) (omega arith) total.1 in
      (total.0, total.1, kept.0, kept.1)

  -- With the addresses of the stabs of a type between two bounds strictly increasing, none of them
  -- at `addr + 1`, one of them at or below `addr`, and `addr` so far below 2 ^ 32 that the search
  -- does not wrap it around (addr + 2 * (right1 - left) + 2 < 2 ^ 32), stab_binsearch returns the
  -- last of those at or below `addr`, and as its second bound the index before the next stab of
  -- the type, or the bound that it was given where there is no next one.
  pub stab_binsearch-Containing :
      (j : ℕ)
      → left ≤ j
      → j < right1
      → IsOf stabs type j
      → (stabs j).n_value ≤ addr
      → addr + search_fuel left right1 < 2 ^ 32
      → (l r1 : ℕ) × (stab_binsearch stabs left right1 type addr
          ≡ some (record { left1 = suc l; right1 = r1 }))
        × Containing stabs type left right1 addr l r1
  unfolding stab_binsearch
  stab_binsearch-Containing j a h is v w =
      let end = ended (omega arith) w in
      let f = finish-Containing end.0 j end.2 end.3 a h is v in
      (f.0, end.0.r1, rw end.1 (ap some f.1), f.2)

  -- With no stab of the type between the bounds, stab_binsearch returns bounds with
  -- `*region_left > *region_right`.
  pub stab_binsearch-absent :
      left ≤ right1
      → addr + search_fuel left right1 < 2 ^ 32
      → ((i : ℕ) → left ≤ i → i < right1 → ¬ IsOf stabs type i)
      → stab_binsearch stabs left right1 type addr
        ≡ some (record { left1 = suc left; right1 = left })
  unfolding stab_binsearch finish
  stab_binsearch-absent h w none_of =
      let end = ended h w in
      rw end.1 (elim (Bool-cases end.0.any_matches) [
        | inl m ↦ let i = end.2.matched m in absurd (none_of i.0 i.1 i.2 i.3)
        | inr m ↦ rw m (
            rw (end.2.unmatched m).0
              (ap (λ n. some (record { left1 = n; right1 = left })) (omega arith)))
      ])

  -- With the stabs of the type all above `addr`, the first of them `f` and not at the left bound,
  -- stab_binsearch leaves the left bound as it is, and the right one at `f - 1`: so
  -- `*region_left ≤ *region_right`, as if the address were found.
  pub stab_binsearch-above :
      (f : ℕ)
      → left < f
      → f < right1
      → addr + search_fuel left right1 < 2 ^ 32
      → IsOf stabs type f
      → ((i : ℕ) → left ≤ i → i < f → ¬ IsOf stabs type i)
      → addr < (stabs f).n_value
      → stab_binsearch stabs left right1 type addr ≡ some (record { left1 = suc left; right1 = f })
  unfolding stab_binsearch finish
  stab_binsearch-above f a h w is first v = rw end.1 (
      rw matches (
        rw (b.same ∙ at_first) (
          rw unmoved (
            ap (λ n. some (record { left1 = n; right1 = f }))
              (rightmost-left stabs type left f a first)))))
    where
      end :
          (s : Search) × (search (search_fuel left right1) stabs type (at_start left right1 addr)
            ≡ some s)
          × Bounds stabs type left right1 addr ordered s
          × (s.r1 ≤ s.l)
      end = ended (omega arith) w

      s : Search
      s = end.0

      b : Bounds stabs type left right1 addr ordered s
      b = end.2

      matches : s.any_matches ≡ true
      matches = elim (Bool-cases s.any_matches) [
        | inl m ↦ m
        | inr m ↦
            let u = b.unmatched m in absurd (u.2 f (omega arith) (omega (arith, u.1, end.3)) is)
      ]

      at_first : s.r1 ≡ f
      at_first = elim (Bool-cases (ltb f s.r1)) [
        | inl e ↦ absurd (omega (arith, Bounds-lower s f b end.3 (omega arith) (ltb→lt _ _ e) is))
        | inr e ↦ elim (Bool-cases (ltb s.r1 f)) [
          | inl e' ↦ elim b.next [
            | inl n ↦ absurd (omega (arith, n, ltb→lt _ _ e'))
            | inr n ↦ absurd (first s.r1 (omega (arith, b.lower, b.meet)) (ltb→lt _ _ e') n)
          ]
          | inr e' ↦ ground arith
        ]
      ]

      unmoved : s.region_left ≡ left
      unmoved = elim b.best [
        | inl e ↦ e
        | inr best ↦ elim (Bool-cases (ltb s.region_left f)) [
          | inl e ↦ absurd (first s.region_left b.begins (ltb→lt _ _ e) best.0)
          | inr e ↦ absurd (
              omega (
                arith,
                best.2,
                b.address,
                end.3,
                b.above s.region_left (ground (arith, at_first)) best.1 best.0,
              ))
        ]
      ]
