-- ===== src/Console/Keyboard/Letters.antt =====
-- Letters typed on the keyboard.
use library_os_exokernel_imp.Base.{
  ℕ, zero, suc, ◌+◌, ◌-◌, ◌%◌, ◌≤◌, ◌<◌, ◌≡◌, refl, sym, ap, ◌∙◌, Bool, true, false, not, ◌&&◌,
  ◌||◌, ◌==◌, leb, List, [], ◌∷◌, if◌then◌else◌, arith, Bool-cases, inl, inr,
}
use library_os_exokernel_imp.Console.{Cons, cons_intr, put}
use library_os_exokernel_imp.Console.Keyboard.{
  Shift, normalmap, shiftmap, ctlmap, char_of, with_case, released, pressed, kbd_proc_data,
  kbd_chars, kbd_intr, toggled, is_shift, is_ctl, is_alt,
}

-- A key that types a letter.
abbrev pub IsLetterKey : ℕ → Type 0
IsLetterKey code = (code < 0x80) × (b'a' ≤ normalmap code) × (normalmap code ≤ b'z')

-- The three maps agree on such a key.
letter_row : ℕ → Bool
letter_row code =
    if leb b'a' (normalmap code) && leb (normalmap code) b'z'
    then (shiftmap code + 32 == normalmap code)
      && (ctlmap code + 96 == normalmap code)
      && leb 0x10 code
      && leb code 0x32
      && not (code == 0x1D)
      && not (code == 0x2A)
    else true

rows : ℕ → Bool
rows zero = true
rows (suc n) = if letter_row n then rows n else false

all_rows : rows 0x80 ≡ true
unfolding rows letter_row normalmap shiftmap ctlmap
all_rows = refl

rows-row : (n code : ℕ) → rows n ≡ true → code < n → letter_row code ≡ true
unfolding rows
rows-row zero code h lt = absurd (omega arith)
rows-row (suc n) code h lt = ground (arith, rows-row n code)

letter_maps :
    (code : ℕ)
    → IsLetterKey code
    → (shiftmap code + 32 ≡ normalmap code)
      × (ctlmap code + 96 ≡ normalmap code)
      × (0x10 ≤ code)
      × (code ≤ 0x32)
      × ((code == 0x1D) ≡ false)
      × ((code == 0x2A) ≡ false)
unfolding letter_row
letter_maps code h = ground (arith, rows-row 0x80 code all_rows h.0)

-- No key of a letter is one of the others.
no_modifier :
    (code : ℕ)
    → IsLetterKey code
    → (is_shift code ≡ false)
      × (is_ctl code ≡ false)
      × (is_alt code ≡ false)
      × ((code == 0x3A) ≡ false)
      × ((code == 0x45) ≡ false)
      × ((code == 0x46) ≡ false)
no_modifier code h = let m = letter_maps code h in ground (arith, m)

-- The letter in the case that SHIFT and CAPSLOCK ask for, or its control character.
abbrev pub letter_of : Shift → (c : ℕ) → ℕ
letter_of s c = if s.ctl then c - 96 else if toggled s.shift s.capslock then c - 32 else c

typed_letter :
    (code : ℕ) (s : Shift)
    → IsLetterKey code
    → with_case s.capslock (char_of code s) ≡ letter_of s (normalmap code)
unfolding with_case char_of
typed_letter code s h = let m = letter_maps code h in ground (arith, m, h)

or_false : (b : Bool) → (b || false) ≡ b
or_false true = refl
or_false false = refl

and_true : (b : Bool) → (b && true) ≡ b
and_true true = refl
and_true false = refl

pressed-letter :
    (code : ℕ) (s : Shift)
    → IsLetterKey code
    → s.e0esc ≡ false
    → pressed code s ≡ (letter_of s (normalmap code), s)
unfolding pressed
pressed-letter code s h e =
    ap (λ (t : Shift). (with_case t.capslock (char_of code t), t)) same
    ∙ ap (λ c. (c, s)) (typed_letter code s h)
  where
    n :
        (is_shift code ≡ false)
        × (is_ctl code ≡ false)
        × (is_alt code ≡ false)
        × ((code == 0x3A) ≡ false)
        × ((code == 0x45) ≡ false)
        × ((code == 0x46) ≡ false)
    n = no_modifier code h

    same :
        record s {
          shift = s.shift || is_shift code;
          ctl = s.ctl || is_ctl code;
          alt = s.alt || is_alt code;
          capslock = toggled s.capslock (code == 0x3A);
          numlock = toggled s.numlock (code == 0x45);
          scrolllock = toggled s.scrolllock (code == 0x46);
          e0esc = false;
        }
        ≡ s
    same = rw n.0 (
        rw n.1 (
          rw n.2 (
            rw n.3 (
              rw n.4 (
                rw n.5 (λ i. record s {
                  shift = or_false s.shift i;
                  ctl = or_false s.ctl i;
                  alt = or_false s.alt i;
                  e0esc = sym e i;
                }))))))

released-letter :
    (code : ℕ) (s : Shift) → IsLetterKey code → s.e0esc ≡ false → released code s ≡ (0, s)
unfolding released
released-letter code s h e =
    let n = no_modifier code h in
    rw n.0 (
      rw n.1 (
        rw n.2 (λ i. (
          0,
          record s {
            shift = and_true s.shift i;
            ctl = and_true s.ctl i;
            alt = and_true s.alt i;
            e0esc = sym e i;
          },
        ))))

-- A key is pressed and released.
abbrev pub strokes : List ℕ → List ℕ
strokes [] = []
strokes (code ∷ codes) = code ∷ (code + 0x80) ∷ strokes codes

abbrev pub AllLetters : List ℕ → Type 0
AllLetters [] = Unit
AllLetters (code ∷ codes) = IsLetterKey code × AllLetters codes

abbrev pub letters : Shift → List ℕ → List ℕ
letters s [] = []
letters s (code ∷ codes) = letter_of s (normalmap code) ∷ letters s codes

-- with the 0 of the release behind each
abbrev with_zeros : List ℕ → List ℕ
with_zeros [] = []
with_zeros (c ∷ cs) = c ∷ 0 ∷ with_zeros cs

-- The branches of kbd_proc_data by their tests
abbrev branch : (code : ℕ) → Shift → (prefix up e0esc : Bool) → ℕ × Shift
branch code s prefix up e0esc =
    if prefix
    then (0, record s { e0esc = true })
    else if up
    then released (if e0esc then code else code % 0x80) s
    else pressed (if e0esc then code + 0x80 else code) s

kbd_proc_data-branch :
    (code : ℕ) (s : Shift) {prefix up e0esc : Bool}
    → (code == 0xE0) ≡ prefix
    → leb 0x80 code ≡ up
    → s.e0esc ≡ e0esc
    → kbd_proc_data code s ≡ branch code s prefix up e0esc
unfolding kbd_proc_data
kbd_proc_data-branch code s a b c = λ i. branch code s (a i) (b i) (c i)

kbd_proc_data-press :
    (code : ℕ) (s : Shift)
    → IsLetterKey code
    → s.e0esc ≡ false
    → kbd_proc_data code s ≡ (letter_of s (normalmap code), s)
kbd_proc_data-press code s h e =
    kbd_proc_data-branch code s {prefix = false} {up = false} (ground (arith, h.0))
      (ground (arith, h.0)) e
    ∙ pressed-letter code s h e

kbd_proc_data-release :
    (code : ℕ) (s : Shift)
    → IsLetterKey code
    → s.e0esc ≡ false
    → kbd_proc_data (code + 0x80) s ≡ (0, s)
kbd_proc_data-release code s h e =
    let m = letter_maps code h in
    let key : (code + 0x80) % 0x80 ≡ code = omega (arith, h.0) in
    kbd_proc_data-branch (code + 0x80) s {prefix = false} {up = true} (ground (arith, m.3))
      (ground arith) e
    ∙ ap (λ c. released c s) key
    ∙ released-letter code s h e

kbd_chars-strokes :
    (codes : List ℕ) (s : Shift)
    → AllLetters codes
    → s.e0esc ≡ false
    → kbd_chars (strokes codes) s ≡ (with_zeros (letters s codes), s)
unfolding kbd_chars
kbd_chars-strokes [] s h e = refl
kbd_chars-strokes (code ∷ codes) s h e = rw (kbd_proc_data-press code s h.0 e) (
    rw (kbd_proc_data-release code s h.0 e) (
      ap (λ (r : List ℕ × Shift). (letter_of s (normalmap code) ∷ 0 ∷ r.0, r.1))
        (kbd_chars-strokes codes s h.1 e)))

cons_intr-zeros : (cs : List ℕ) (cons : Cons) → cons_intr (with_zeros cs) cons ≡ cons_intr cs cons
unfolding cons_intr
cons_intr-zeros [] cons = refl
cons_intr-zeros (c ∷ cs) cons = elim (Bool-cases (c == 0)) [
  | inl e ↦ rw e (cons_intr-zeros cs cons)
  | inr e ↦ rw e (cons_intr-zeros cs (put c cons))
]

-- Keys of letters that are pressed and released one after the other, with no E0 byte before them,
-- leave `shift` as it is, and cons_intr puts their letters into the buffer: capital, if just one of
-- SHIFT and CAPSLOCK is on, and the control characters, if CTL is.
pub kbd_intr-letters :
    (codes : List ℕ) (s : Shift) (cons : Cons)
    → AllLetters codes
    → s.e0esc ≡ false
    → kbd_intr (strokes codes) s cons ≡ (s, cons_intr (letters s codes) cons)
unfolding kbd_intr
kbd_intr-letters codes s cons h e =
    ap (λ (r : List ℕ × Shift). (r.1, cons_intr r.0 cons)) (kbd_chars-strokes codes s h e)
    ∙ ap (λ c. (s, c)) (cons_intr-zeros (letters s codes) cons)
