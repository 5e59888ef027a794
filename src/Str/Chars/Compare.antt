-- ===== src/Str/Chars/Compare.antt =====
-- strcmp and strncmp: equality, and the prefix that strncmp compares.
use library_os_exokernel_imp.Base.{
  ℕ, zero, suc, ◌<◌, ◌≡◌, refl, ap, sym, ◌∙◌, ◌↔◌, inl, inr, ◌==◌, List, [], ◌∷◌, arith, Bool-cases,
}
use library_os_exokernel_imp.Str.Chars.{strcmp, strncmp}

-- The characters of a string: bytes that are not '\0'.
pub data IsString : List ℕ → Type 0 where
  ended : IsString []
  char : {c : ℕ} {s : List ℕ} → 0 < c → c < 256 → IsString s → IsString (c ∷ s)

strcmp-equal : (p q : List ℕ) → IsString p → IsString q → strcmp p q ≡ 0 → p ≡ q
unfolding strcmp
strcmp-equal [] [] hp hq h = refl
strcmp-equal [] (b ∷ q) hp (char b0 b1 hq) h = absurd (omega arith)
strcmp-equal (a ∷ p) [] (char a0 a1 hp) hq h = absurd (omega arith)
strcmp-equal (a ∷ p) (b ∷ q) (char a0 a1 hp) (char b0 b1 hq) h = elim (Bool-cases (a == b)) [
  | inl same ↦ ground (arith, strcmp-equal p q hp hq)
  | inr differ ↦ absurd (ground arith)
]

strcmp-same : (p : List ℕ) → strcmp p p ≡ 0
unfolding strcmp
strcmp-same [] = refl
strcmp-same (a ∷ p) = ground (arith, strcmp-same p)

-- strcmp of two strings of bytes other than '\0' is 0 just where they are equal.
pub strcmp_iff : (p q : List ℕ) → IsString p → IsString q → (strcmp p q ≡ 0) ↔ (p ≡ q)
strcmp_iff p q hp hq = (strcmp-equal p q hp hq, λ e. ap (λ x. strcmp p x) (sym e) ∙ strcmp-same p)

-- The string cut after `n` characters.
unfoldable pub cut : ℕ → List ℕ → List ℕ
cut zero s = []
cut (suc n) [] = []
cut (suc n) (c ∷ s) = c ∷ cut n s

-- strncmp compares, as strcmp does, the two strings cut after `n` characters.
pub strncmp-cut : (p q : List ℕ) (n : ℕ) → strncmp p q n ≡ strcmp (cut n p) (cut n q)
unfolding strncmp strcmp cut
strncmp-cut p q zero = refl
strncmp-cut [] [] (suc n) = refl
strncmp-cut [] (b ∷ q) (suc n) = refl
strncmp-cut (a ∷ p) [] (suc n) = refl
strncmp-cut (a ∷ p) (b ∷ q) (suc n) = rw (strncmp-cut p q n)
