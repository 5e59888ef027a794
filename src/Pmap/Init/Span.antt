-- ===== src/Pmap/Init/Span.antt =====
-- Stretches of successive pages on a free list.
use mathlib.Core.Path.{subst}
use library_os_exokernel_imp.Base.{
  ℕ, zero, suc, ◌+◌, ◌≤◌, ◌<◌, ◌≡◌, refl, ap, sym, ◌∙◌, Option, some, List, [], ◌∷◌, ◌++◌, arith,
}
use library_os_exokernel_imp.Kernel.{Page}
use library_os_exokernel_imp.Pmap.Pages.FreeList.{IsChain, Absent, IsDistinct, AllUnused}

-- `n` numbers from `a` on
unfoldable pub span : (a n : ℕ) → List ℕ
span a zero = []
span a (suc n) = a ∷ span (a + 1) n

pub IsChain-span :
    (pages : ℕ → Page) (m a : ℕ) (next : Option ℕ) (rest : List ℕ)
    → ((p : ℕ) → a ≤ p → p < a + m → (pages p).pp_link ≡ some (p + 1))
    → (pages (a + m)).pp_link ≡ next
    → IsChain pages next rest
    → IsChain pages (some a) (span a (suc m) ++ rest)
unfolding span
IsChain-span pages zero a next rest steps last c = (
  refl,
  subst (λ (h : Option ℕ). IsChain pages h rest)
      (sym last ∙ ap (λ q. (pages q).pp_link) (let e : a + 0 ≡ a = omega arith in e)) c,
)
IsChain-span pages (suc m) a next rest steps last c = (
  refl,
  (
    steps a (omega arith) (omega arith),
    (IsChain-span pages m (a + 1) next rest (λ p low high. steps p (omega arith) (omega arith))
        (ap (λ q. (pages q).pp_link) (let e : a + 1 + m ≡ a + suc m = omega arith in e) ∙ last)
        c).1,
  ),
)

-- A list of numbers from `low` on, in rising order.
abbrev pub IsRising : ℕ → List ℕ → Type 0
IsRising low [] = Unit
IsRising low (p ∷ ps) = (low ≤ p) × IsRising (p + 1) ps

pub IsRising-below : (low q : ℕ) (ps : List ℕ) → q ≤ low → IsRising low ps → IsRising q ps
IsRising-below low q [] h r = tt
IsRising-below low q (p ∷ ps) h r = (omega (arith, r.0), r.1)

IsRising-Absent : (low q : ℕ) (ps : List ℕ) → q < low → IsRising low ps → Absent q ps
IsRising-Absent low q [] h r = tt
IsRising-Absent low q (p ∷ ps) h r =
    (λ e. omega (arith, r.0), IsRising-Absent (p + 1) q ps (omega (arith, r.0)) r.1)

pub IsRising-IsDistinct : (low : ℕ) (ps : List ℕ) → IsRising low ps → IsDistinct ps
IsRising-IsDistinct low [] r = tt
IsRising-IsDistinct low (p ∷ ps) r =
    (IsRising-Absent (p + 1) p ps (omega arith) r.1, IsRising-IsDistinct (p + 1) ps r.1)

pub IsRising-span :
    (a n : ℕ) (rest : List ℕ) → IsRising (a + n) rest → IsRising a (span a n ++ rest)
unfolding span
IsRising-span a zero rest r = IsRising-below (a + 0) a rest (omega arith) r
IsRising-span a (suc n) rest r = (
  omega arith,
  IsRising-span (a + 1) n rest (IsRising-below (a + suc n) (a + 1 + n) rest (omega arith) r),
)

pub AllUnused-span :
    (size : ℕ) (pages : ℕ → Page) (a n : ℕ) (rest : List ℕ)
    → a + n ≤ size
    → ((p : ℕ) → a ≤ p → p < a + n → (pages p).pp_ref ≡ 0)
    → AllUnused size pages rest
    → AllUnused size pages (span a n ++ rest)
unfolding span
AllUnused-span size pages a zero rest fit free u = u
AllUnused-span size pages a (suc n) rest fit free u = (
  omega arith,
  free a (omega arith) (omega arith),
  AllUnused-span size pages (a + 1) n rest (omega arith)
      (λ p low high. free p (omega arith) (omega arith)) u,
)
