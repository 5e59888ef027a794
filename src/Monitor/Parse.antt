-- ===== src/Monitor/Parse.antt =====
-- The loop of runcmd that makes the arguments out of the words of a command line.
use mathlib.Core.Option.{map}
use library_os_exokernel_imp.Base.{
  ℕ, suc, ◌+◌, ◌<◌, ◌≤◌, ◌≡◌, ◌≢◌, refl, ap, ◌∙◌, ◌⊎◌, inl, inr, ◌==◌, true, false, Option, none,
  some, List, [], ◌∷◌, ◌++◌, arith, ==_false, Bool-cases,
}
use library_os_exokernel_imp.Monitor.{is_whitespace, parse, c_string}

abbrev pub AllBlank : List ℕ → Type 0
AllBlank [] = Unit
AllBlank (c ∷ s) = (is_whitespace c ≡ true) × AllBlank s

-- Bytes that are neither blanks nor '\0'
abbrev pub AllWord : List ℕ → Type 0
AllWord [] = Unit
AllWord (c ∷ s) = (is_whitespace c ≡ false) × ((c ≢ 0) × (c < 256)) × AllWord s

-- A word with its first character, and the blanks behind it.
pub record Word : Type 0 where
  pub first : ℕ
  pub rest : List ℕ
  pub gap : List ℕ

abbrev pub word_of : Word → List ℕ
word_of w = w.first ∷ w.rest

-- Words separated by blanks; only the last may have none behind it.
abbrev pub IsLine : List Word → Type 0
IsLine [] = Unit
IsLine (w ∷ ws) = AllWord (word_of w) × AllBlank w.gap × ((w.gap ≢ []) ⊎ (ws ≡ [])) × IsLine ws

abbrev pub text : List Word → List ℕ
text [] = []
text (w ∷ ws) = (word_of w) ++ (w.gap ++ text ws)

abbrev pub words : List Word → List (List ℕ)
words [] = []
words (w ∷ ws) = word_of w ∷ words ws

abbrev pub strings : List (List ℕ) → List (List ℕ)
strings [] = []
strings (s ∷ ss) = c_string s ∷ strings ss

abbrev pub count : List Word → ℕ
count [] = 0
count (w ∷ ws) = suc (count ws)

abbrev pub zeros : List ℕ → List ℕ
zeros [] = []
zeros (c ∷ s) = 0 ∷ zeros s

abbrev pub in_front : List ℕ → Option (List ℕ × List (List ℕ)) → Option (List ℕ × List (List ℕ))
in_front s = map (λ r. (s ++ r.0, r.1))

in_front-cons :
    (c : ℕ) (s : List ℕ) (o : Option (List ℕ × List (List ℕ)))
    → map (λ r. (c ∷ r.0, r.1)) (in_front s o) ≡ in_front (c ∷ s) o
in_front-cons c s none = refl
in_front-cons c s (some r) = refl

in_front-nil : (o : Option (List ℕ × List (List ℕ))) → o ≡ in_front [] o
in_front-nil none = refl
in_front-nil (some r) = refl

pub parse-blanks :
    (b s : List ℕ) (argc : ℕ)
    → AllBlank b
    → parse false (b ++ s) argc ≡ in_front (zeros b) (parse false s argc)
unfolding parse
parse-blanks [] s argc h = in_front-nil _
parse-blanks (c ∷ b) s argc h =
    rw h.0
      (ap (map (λ r. (0 ∷ r.0, r.1))) (parse-blanks b s argc h.1) ∙ in_front-cons 0 (zeros b) _)

parse-word :
    (w s : List ℕ) (argc : ℕ)
    → AllWord w
    → parse true (w ++ s) argc ≡ in_front w (parse true s argc)
unfolding parse
parse-word [] s argc h = in_front-nil _
parse-word (c ∷ w) s argc h =
    rw h.0 (ap (map (λ r. (c ∷ r.0, r.1))) (parse-word w s argc h.2) ∙ in_front-cons c w _)

-- At a blank, or at the end, it does not matter in which loop the code is.
parse-gap :
    (g s : List ℕ) (argc : ℕ)
    → AllBlank g
    → (g ≢ []) ⊎ (s ≡ [])
    → parse true (g ++ s) argc ≡ parse false (g ++ s) argc
unfolding parse
parse-gap [] s argc h e = elim e [ inl n ↦ absurd (n refl) | inr n ↦ rw n refl ]
parse-gap (c ∷ g) s argc h e = rw h.0 refl

c_string-word :
    (w r : List ℕ)
    → AllWord w
    → ((c : ℕ) × (s : List ℕ) × (r ≡ 0 ∷ s)) ⊎ (r ≡ [])
    → c_string (w ++ r) ≡ w
unfolding c_string
c_string-word [] r h e = elim e [ inl (c, s, z) ↦ rw z refl | inr z ↦ rw z refl ]
c_string-word (c ∷ w) r h e = rw (==_false c 0 h.1.0) (ap (λ s. c ∷ s) (c_string-word w r h.2 e))

-- What is behind a word begins with a '\0', or is the end.
stopped :
    (g b : List ℕ)
    → (g ≢ []) ⊎ (b ≡ [])
    → ((c : ℕ) × (s : List ℕ) × (zeros g ++ b ≡ 0 ∷ s)) ⊎ (zeros g ++ b ≡ [])
stopped [] b e = elim e [ inl n ↦ absurd (n refl) | inr n ↦ inr n ]
stopped (c ∷ g) b e = inl (c, zeros g ++ b, refl)

-- What the parser makes of the words: the buffer, and the arguments in it.
abbrev Parsed : List Word → ℕ → Type 0
Parsed ws argc =
    (buf : List ℕ) × (argv : List (List ℕ)) × (parse false (text ws) argc ≡ some (buf, argv))
    × (strings argv ≡ words ws)
    × (ws ≡ [] → buf ≡ [])

parse-first :
    (w : Word) (ws : List Word) (argc : ℕ)
    → IsLine (w ∷ ws)
    → (argc == 15) ≡ false
    → parse false (text (w ∷ ws)) argc
      ≡ map
          (λ r. (w.first ∷ r.0, (w.first ∷ r.0) ∷ r.1))
          (in_front w.rest (in_front (zeros w.gap) (parse false (text ws) (argc + 1))))
parse-first w ws argc h e =
    opened
    ∙ ap (map (λ r. (w.first ∷ r.0, (w.first ∷ r.0) ∷ r.1))) (
        parse-word w.rest (w.gap ++ text ws) (argc + 1) h.0.2
        ∙ ap (in_front w.rest) (
            parse-gap w.gap (text ws) (argc + 1) h.1 last
            ∙ parse-blanks w.gap (text ws) (argc + 1) h.1))
  where
    last : (w.gap ≢ []) ⊎ (text ws ≡ [])
    last = elim h.2 [ inl n ↦ inl n | inr n ↦ inr (ap text n) ]

    opened :
        parse false (text (w ∷ ws)) argc
        ≡ map
            (λ r. (w.first ∷ r.0, (w.first ∷ r.0) ∷ r.1))
            (parse true (w.rest ++ (w.gap ++ text ws)) (argc + 1))
    opened = unfold parse in rw h.0.0 (rw e refl)

pub parse-Parsed : (ws : List Word) (argc : ℕ) → IsLine ws → argc + count ws ≤ 15 → Parsed ws argc
parse-Parsed [] argc h le = ([], [], (unfold parse in refl), refl, λ _. refl)
parse-Parsed (w ∷ ws) argc h le =
    let (buf, argv, found, same, end) = parse-Parsed ws (argc + 1) h.3 (omega arith) in
    let behind = stopped w.gap buf (elim h.2 [ inl n ↦ inl n | inr n ↦ inr (end n) ]) in
    let arg = w.first ∷ (w.rest ++ (zeros w.gap ++ buf)) in
    (
      arg,
      arg ∷ argv,
      parse-first w ws argc h (ground arith)
          ∙ ap
              (λ o.
                map (λ r. (w.first ∷ r.0, (w.first ∷ r.0) ∷ r.1))
                  (in_front w.rest (in_front (zeros w.gap) o)))
              found,
      ap (λ a. a ∷ strings argv) (c_string-word (word_of w) (zeros w.gap ++ buf) h.0 behind)
          ∙ ap (λ t. word_of w ∷ t) same,
      λ e. absurd (cc),
    )

pub parse-none :
    (ws : List Word) (argc : ℕ)
    → IsLine ws
    → argc ≤ 15
    → 16 ≤ argc + count ws
    → parse false (text ws) argc ≡ none
parse-none [] argc h le many = absurd (omega arith)
parse-none (w ∷ ws) argc h le many = elim (Bool-cases (argc == 15)) [
  | inl e ↦ full e
  | inr e ↦
      parse-first w ws argc h e
      ∙ ap
          (λ o.
            map (λ r. (w.first ∷ r.0, (w.first ∷ r.0) ∷ r.1))
              (in_front w.rest (in_front (zeros w.gap) o)))
          (parse-none ws (argc + 1) h.3 (ground arith) (omega arith))
]
  where
    full : (argc == 15) ≡ true → parse false (text (w ∷ ws)) argc ≡ none
    full e = unfold parse in rw h.0.0 (rw e refl)
