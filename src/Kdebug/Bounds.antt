-- ===== src/Kdebug/Bounds.antt =====
-- What the bounds of stab_binsearch separate.
use mathlib.Core.Path.{subst}
use library_os_exokernel_imp.Base.{
  ℕ, zero, suc, ◌+◌, ◌-◌, ◌/◌, ◌^◌, ◌≤◌, ◌<◌, ◌≡◌, refl, sym, ap, ◌∙◌, ◌≢◌, ◌⊎◌, inl, inr, true,
  false, ◌==◌, ltb, some, Bool-cases, Option-cases, ltb→lt, arith,
}
use library_os_exokernel_imp.Mmu.{u32}
use library_os_exokernel_imp.Kdebug.{
  Stab, Search, last_of, bisect, compare_at, search_round, search,
}
use library_os_exokernel_imp.Kdebug.Loop.{IsOf, last_of-IsOf, last_of-reaches}

-- The stabs of the type from `left` on and below `right1` stand in the order of their addresses,
-- and none of them is at `addr + 1`.
pub record IsOrdered (stabs : ℕ → Stab) (type left right1 addr : ℕ) : Type 0 where
  pub increasing :
      (i j : ℕ)
      → left ≤ i
      → i < j
      → j < right1
      → IsOf stabs type i
      → IsOf stabs type j
      → (stabs i).n_value < (stabs j).n_value
  pub not_next : (i : ℕ) → left ≤ i → i < right1 → IsOf stabs type i → (stabs i).n_value ≢ addr + 1

module _ (stabs : ℕ → Stab) (type left right1 addr : ℕ)
    (ordered : IsOrdered stabs type left right1 addr) where
  pub record Bounds (s : Search) : Type 0 where
    pub lower : left ≤ s.l
    pub upper : s.r1 ≤ right1
    pub meet : s.l ≤ s.r1
    pub below : (i : ℕ) → left ≤ i → i < s.l → IsOf stabs type i → (stabs i).n_value < s.addr
    pub above : (i : ℕ) → s.r1 ≤ i → i < right1 → IsOf stabs type i → s.addr < (stabs i).n_value
    pub same : s.right1 ≡ s.r1
    pub next : (s.r1 ≡ right1) ⊎ IsOf stabs type s.r1
    pub matched : s.any_matches ≡ true → (i : ℕ) × (left ≤ i) × (i < right1) × IsOf stabs type i
    pub address : (s.addr ≡ addr) ⊎ (s.addr ≡ addr + 1)
    pub begins : left ≤ s.region_left
    pub best :
        (s.region_left ≡ left)
        ⊎ (IsOf stabs type s.region_left
            × (s.region_left < right1)
            × ((stabs s.region_left).n_value < s.addr))
    pub unmatched :
        s.any_matches ≡ false
        → (s.region_left ≡ left)
          × (s.r1 ≡ right1)
          × ((i : ℕ) → left ≤ i → i < s.l → ¬ IsOf stabs type i)

  -- Nothing of the type in the range up to `t`.
  skip-Bounds :
      (t : ℕ) (s : Search)
      → Bounds s
      → s.l ≤ t
      → t < s.r1
      → ((i : ℕ) → s.l ≤ i → i ≤ t → ¬ IsOf stabs type i)
      → Bounds (record s { l = t + 1 })
  skip-Bounds t s b h h' none_of = record {
    lower = omega (arith, b.lower);
    upper = b.upper;
    meet = omega arith;
    below = λ i p q is. elim (Bool-cases (ltb i s.l)) [
      | inl e ↦ b.below i p (ltb→lt i s.l e) is
      | inr e ↦ absurd (none_of i (ground arith) (omega arith) is)
    ];
    above = b.above;
    same = b.same;
    next = b.next;
    matched = b.matched;
    address = b.address;
    begins = b.begins;
    best = b.best;
    unmatched = λ f. (
      (b.unmatched f).0,
      (b.unmatched f).1,
      λ i p q is. elim (Bool-cases (ltb i s.l)) [
        | inl e ↦ (b.unmatched f).2 i p (ltb→lt i s.l e) is
        | inr e ↦ none_of i (ground arith) (omega arith) is
      ],
    );
  }

  -- With `m` the last of the type up to `t`.
  module _ (m t : ℕ) (s : Search) (b : Bounds s) (is : IsOf stabs type m) (p : s.l ≤ m) (q : m ≤ t)
      (h : t < s.r1) (last : (i : ℕ) → m < i → i ≤ t → ¬ IsOf stabs type i) where
    upto : (i : ℕ) → left ≤ i → i ≤ t → IsOf stabs type i → (stabs i).n_value ≤ (stabs m).n_value
    upto i a c is' = elim (Bool-cases (ltb i m)) [
      | inl e ↦
          omega (arith, ordered.increasing i m a (ltb→lt i m e) (omega (arith, b.upper)) is' is)
      | inr e ↦ elim (Bool-cases (i == m)) [
        | inl e' ↦ let e'' : i ≡ m = ground arith in omega (arith, ap (λ j. (stabs j).n_value) e'')
        | inr e' ↦ absurd (last i (ground arith) c is')
      ]
    ]

    from : (i : ℕ) → m ≤ i → i < right1 → IsOf stabs type i → (stabs m).n_value ≤ (stabs i).n_value
    from i a c is' = elim (Bool-cases (i == m)) [
      | inl e ↦ let e' : i ≡ m = ground arith in omega (arith, ap (λ j. (stabs j).n_value) e')
      | inr e ↦
          omega (arith, ordered.increasing m i (omega (arith, b.lower)) (ground arith) c is is')
    ]

    before-Bounds :
        (stabs m).n_value < s.addr
        → Bounds (record s { region_left = m; l = t + 1; any_matches = true })
    before-Bounds v = record {
      lower = omega (arith, b.lower);
      upper = b.upper;
      meet = omega arith;
      below = λ i a c is'. omega (arith, upto i a (omega arith) is');
      above = b.above;
      same = b.same;
      next = b.next;
      matched = λ _. (m, omega (arith, b.lower), omega (arith, b.upper), is);
      address = b.address;
      begins = omega (arith, b.lower);
      best = inr (is, omega (arith, b.upper), v);
      unmatched = λ f. absurd (cc);
    }

    behind-Bounds :
        s.addr < (stabs m).n_value → Bounds (record s { right1 = m; r1 = m; any_matches = true })
    behind-Bounds v = record {
      lower = b.lower;
      upper = omega (arith, b.upper);
      meet = p;
      below = b.below;
      above = λ i a c is'. omega (arith, from i a c is');
      same = refl;
      next = inr is;
      matched = λ _. (m, omega (arith, b.lower), omega (arith, b.upper), is);
      address = b.address;
      begins = b.begins;
      best = b.best;
      unmatched = λ f. absurd (cc);
    }

    exact-Bounds :
        (stabs m).n_value ≡ s.addr
        → addr + 1 < 2 ^ 32
        → Bounds (record s { region_left = m; l = m; addr = u32 (s.addr + 1); any_matches = true })
    exact-Bounds v w = record {
      lower = omega (arith, b.lower);
      upper = b.upper;
      meet = omega arith;
      below = λ i a c is'. omega (arith, unmoved, upto i a (omega arith) is');
      above = λ i a c is'.
          omega
            (arith, unmoved, b.above i a c is', ordered.not_next i (omega (arith, b.lower)) c is');
      same = b.same;
      next = b.next;
      matched = λ _. (m, omega (arith, b.lower), omega (arith, b.upper), is);
      address = inr (omega (arith, unmoved));
      begins = omega (arith, b.lower);
      best = inr (is, omega (arith, b.upper), omega (arith, unmoved));
      unmatched = λ f. absurd (cc);
    }
      where
        unmoved : s.addr ≡ addr
        unmoved = elim b.address [
          | inl e ↦ e
          | inr e ↦
              absurd
                (ordered.not_next m (omega (arith, b.lower)) (omega (arith, b.upper)) is (v ∙ e))
        ]

    compare_at-Bounds : addr + 1 < 2 ^ 32 → Bounds (compare_at (stabs m).n_value m t s)
    unfolding compare_at
    compare_at-Bounds w = elim (Bool-cases (ltb (stabs m).n_value s.addr)) [
      | inl e ↦ rw e (before-Bounds (ltb→lt _ _ e))
      | inr e ↦ rw e (elim (Bool-cases (ltb s.addr (stabs m).n_value)) [
        | inl e' ↦ rw e' (behind-Bounds (ltb→lt _ _ e'))
        | inr e' ↦ rw e' (exact-Bounds (ground arith) w)
      ])
    ]

  search_round-Bounds :
      (s : Search) → Bounds s → s.l < s.r1 → addr + 1 < 2 ^ 32 → Bounds (search_round stabs type s)
  unfolding search_round bisect
  search_round-Bounds s b h w = elim (Option-cases (last_of stabs type s.l (true_m + 1 - s.l))) [
    | inl e ↦ rw e (
        skip-Bounds true_m s b (omega arith) (omega arith)
          λ i p q is. let found = reaches i p q is in cc (e, found.1))
    | inr (m, e) ↦
        let p = last_of-IsOf stabs type s.l _ m e in
        rw e (
          compare_at-Bounds m true_m s b p.0 p.1 (omega arith) (omega arith)
            (λ i a c is.
              let found = reaches i (omega arith) c is in
              let at : some m ≡ some found.0 = sym e ∙ found.1 in absurd (ground (arith, found.2)))
            w)
  ]
    where
      true_m : ℕ
      true_m = (s.l + (s.r1 - 1)) / 2

      reaches :
          (i : ℕ)
          → s.l ≤ i
          → i ≤ true_m
          → IsOf stabs type i
          → (m : ℕ) × (last_of stabs type s.l (true_m + 1 - s.l) ≡ some m) × (i ≤ m)
      reaches i p q is = last_of-reaches stabs type s.l _ i is p (omega arith)

  some-injective : {s s' : Search} → some s ≡ some s' → s ≡ s'
  some-injective h = cc

  pub search-Bounds :
      (fuel : ℕ) (s s' : Search)
      → Bounds s
      → addr + 1 < 2 ^ 32
      → search fuel stabs type s ≡ some s'
      → Bounds s' × (s'.r1 ≤ s'.l)
  unfolding search
  search-Bounds zero s s' b w h = cc
  search-Bounds (suc fuel) s s' b w h = elim (Bool-cases (ltb s.l s.r1)) [
    | inl e ↦ search-Bounds fuel _ s' (search_round-Bounds s b (ltb→lt _ _ e) w) w (rw e at h)
    | inr e ↦
        subst (λ s'. Bounds s' × (s'.r1 ≤ s'.l))
          (let h' : some s ≡ some s' = (rw e at h) in some-injective h') (b, ground arith)
  ]
