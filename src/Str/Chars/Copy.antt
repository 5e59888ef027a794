-- ===== src/Str/Chars/Copy.antt =====
-- strlcpy: the copy is cut to the size of the buffer and always ended.
use library_os_exokernel_imp.Base.{
  ℕ, zero, suc, ◌+◌, ◌≤◌, ◌≡◌, refl, ap, sym, ◌∙◌, ◌⊎◌, inl, inr, true, false, ◌==◌, List, [], ◌∷◌,
  ◌++◌, if◌then◌else◌, arith, Bool-cases,
}
use library_os_exokernel_imp.Str.Chars.{
  strlcpy, strlcpy_chars, strcpy, strlen, strnlen, strfind, deref,
}
use library_os_exokernel_imp.Str.Chars.Compare.{cut}

-- The number of bytes in a list.
abbrev pub length : List ℕ → ℕ
length [] = 0
length (_ ∷ s) = length s + 1

strlcpy_chars-cut : (src : List ℕ) (size : ℕ) → strlcpy_chars src size ≡ cut size src
unfolding strlcpy_chars cut
strlcpy_chars-cut src zero = refl
strlcpy_chars-cut [] (suc size) = refl
strlcpy_chars-cut (c ∷ src) (suc size) = ap (λ s. c ∷ s) (strlcpy_chars-cut src size)

strcpy-append : (s : List ℕ) → strcpy s ≡ s ++ 0 ∷ []
unfolding strcpy
strcpy-append [] = refl
strcpy-append (c ∷ s) = ap (λ t. c ∷ t) (strcpy-append s)

strlen-cut : (s : List ℕ) (n : ℕ) → strlen (cut n s) ≡ strnlen s n
unfolding strlen strnlen cut
strlen-cut s zero = refl
strlen-cut [] (suc n) = refl
strlen-cut (c ∷ s) (suc n) = ap (λ m. m + 1) (strlen-cut s n)

-- Into a buffer with room strlcpy writes as many characters of `src` as leave room for the '\0',
-- then the '\0', and it returns their number, which is strnlen of the room for them.
pub strlcpy-cut :
    (src : List ℕ) (size : ℕ) → strlcpy src (suc size) ≡ (cut size src ++ 0 ∷ [], strnlen src size)
unfolding strlcpy
strlcpy-cut src size =
    ap (λ s. (strcpy s, strlen s)) (strlcpy_chars-cut src size)
    ∙ ap (λ t. (t, strlen (cut size src))) (strcpy-append (cut size src))
    ∙ ap (λ n. (cut size src ++ 0 ∷ [], n)) (strlen-cut src size)

length-append_nul : (s : List ℕ) → length (s ++ 0 ∷ []) ≡ length s + 1
length-append_nul [] = refl
length-append_nul (c ∷ s) = ap (λ n. n + 1) (length-append_nul s)

pub length-cut : (s : List ℕ) (n : ℕ) → length (cut n s) ≤ n
unfolding cut
length-cut s zero = omega arith
length-cut [] (suc n) = omega arith
length-cut (c ∷ s) (suc n) = omega (arith, length-cut s n)

-- strlcpy writes no more than `size` bytes.
pub length-strlcpy : (src : List ℕ) (size : ℕ) → length (strlcpy src size).0 ≤ size
unfolding strlcpy
length-strlcpy src zero = omega arith
length-strlcpy src (suc size) =
    let e = ap (λ (r : List ℕ × ℕ). length r.0) (strlcpy-cut src size) in
    omega (arith, e, length-append_nul (cut size src), length-cut src size)

-- `c` is not among the characters of the list.
abbrev pub Lacks : ℕ → List ℕ → Type 0
Lacks c [] = Unit
Lacks c (a ∷ s) = ((a == c) ≡ false) × Lacks c s

strfind-here : (a : ℕ) (s : List ℕ) (c : ℕ) → (a == c) ≡ true → strfind (a ∷ s) c ≡ a ∷ s
unfolding strfind
strfind-here a s c h = ap (λ b. if b then a ∷ s else strfind s c) h

strfind-later : (a : ℕ) (s : List ℕ) (c : ℕ) → (a == c) ≡ false → strfind (a ∷ s) c ≡ strfind s c
unfolding strfind
strfind-later a s c h = ap (λ b. if b then a ∷ s else strfind s c) h

strfind-end : (c : ℕ) → strfind [] c ≡ []
unfolding strfind
strfind-end c = refl

ended : {t t' : List ℕ} {c : ℕ} → t ≡ t' → (t ≡ []) ⊎ (deref t ≡ c) → (t' ≡ []) ⊎ (deref t' ≡ c)
ended e (inl h) = inl (sym e ∙ h)
ended e (inr h) = inr (ap deref (sym e) ∙ h)

-- strfind gives the rest of the string from the first `c`, or its end: what precedes has no `c`.
pub strfind-split :
    (s : List ℕ) (c : ℕ)
    → (before : List ℕ) × (s ≡ before ++ strfind s c)
      × Lacks c before
      × ((strfind s c ≡ []) ⊎ (deref (strfind s c) ≡ c))
strfind-split [] c = ([], sym (strfind-end c), tt, inl (strfind-end c))
strfind-split (a ∷ s) c = elim (Bool-cases (a == c)) [
  | inl here ↦ (
    [],
    sym (strfind-here a s c here),
    tt,
    inr (ap deref (strfind-here a s c here) ∙ ground arith),
  )
  | inr later ↦
      let r = strfind-split s c in
      let e = strfind-later a s c later in
      (a ∷ r.0, ap (λ t. a ∷ t) (r.1 ∙ ap (λ t. r.0 ++ t) (sym e)), (later, r.2), ended (sym e) r.3)
]
