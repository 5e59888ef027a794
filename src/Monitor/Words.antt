-- ===== src/Monitor/Words.antt =====
-- The arguments of a command line are its words.
use mathlib.Core.Path.{subst}
use library_os_exokernel_imp.Base.{
  ℕ, ◌+◌, ◌<◌, ◌≤◌, ◌≡◌, ◌≢◌, refl, ap, sym, ◌∙◌, ◌⊎◌, inl, inr, ◌==◌, Option, none, some, List, [],
  ◌∷◌, ◌++◌, arith, Bool-cases,
}
use library_os_exokernel_imp.Base.Text.{bytes}
use library_os_exokernel_imp.Str.Chars.{strcmp}
use library_os_exokernel_imp.Str.Chars.Compare.{IsString, ended, char, strcmp_iff}
use library_os_exokernel_imp.Monitor.{
  c_string, Run, nothing, too_many, unknown, command, commands, lookup, invoke, runcmd,
}
use library_os_exokernel_imp.Monitor.Parse.{
  AllBlank, AllWord, Word, word_of, IsLine, text, words, strings, count, zeros, in_front,
  parse-blanks, parse-Parsed, parse-none,
}

-- The commands by their names: the first word chooses one, which gets all the words in `argv`.
abbrev pub Called : List (List ℕ) → (argv : List (List ℕ)) → Run → Type 0
Called [] argv r = r ≡ nothing
Called (w ∷ ws) argv r =
    ((w ≡ bytes "help") × (r ≡ command 0 argv))
    ⊎ (((w ≡ bytes "kerninfo") × (r ≡ command 1 argv))
        ⊎ (((w ≡ bytes "backtrace") × (r ≡ command 2 argv))
            ⊎ ((w ≢ bytes "help")
                × (w ≢ bytes "kerninfo")
                × (w ≢ bytes "backtrace")
                × (r ≡ unknown w))))

AllWord-IsString : (w : List ℕ) → AllWord w → IsString w
AllWord-IsString [] h = ended
AllWord-IsString (c ∷ w) h = char (omega (arith, h.1.0)) h.1.1 (AllWord-IsString w h.2)

-- The characters of a name, one by one.
abbrev AllBytes : List ℕ → Type 0
AllBytes [] = Unit
AllBytes (c ∷ s) = ((0 < c) × (c < 256)) × AllBytes s

AllBytes-IsString : (s : List ℕ) → AllBytes s → IsString s
AllBytes-IsString [] h = ended
AllBytes-IsString (c ∷ s) h = char h.0.0 h.0.1 (AllBytes-IsString s h.1)

-- A round of the search for the command.
lookup_cases :
    (n : List ℕ) (names : List (List ℕ)) (i : ℕ) (argv : List (List ℕ)) (w : List ℕ)
    → IsString w
    → IsString n
    → ((w ≡ n) × (lookup (n ∷ names) i argv w ≡ command i argv))
      ⊎ ((w ≢ n) × (lookup (n ∷ names) i argv w ≡ lookup names (i + 1) argv w))
unfolding lookup
lookup_cases n names i argv w hw hn = elim (Bool-cases (strcmp w n == 0)) [
  | inl e ↦ inl ((strcmp_iff w n hw hn).0 (ground arith), rw e refl)
  | inr e ↦
      inr (λ same. let z = (strcmp_iff w n hw hn).1 same in absurd (ground (arith, z)), rw e refl)
]

lookup-Called :
    (w : List ℕ) (ws argv : List (List ℕ))
    → IsString w
    → Called (w ∷ ws) argv (lookup commands 0 argv w)
unfolding lookup
lookup-Called w ws argv h =
    elim (lookup_cases (bytes "help") (bytes "kerninfo" ∷ bytes "backtrace" ∷ []) 0 argv w h
      (AllBytes-IsString (bytes "help") (ground arith))) [
        | inl a ↦ inl a
        | inr (a, ra) ↦
            elim (lookup_cases (bytes "kerninfo") (bytes "backtrace" ∷ []) 1 argv w h
              (AllBytes-IsString (bytes "kerninfo") (ground arith))) [
                | inl (b, rb) ↦ inr (inl (b, ra ∙ rb))
                | inr (b, rb) ↦
                    elim (lookup_cases (bytes "backtrace") [] 2 argv w h
                      (AllBytes-IsString (bytes "backtrace") (ground arith))) [
                        | inl (c, rc) ↦ inr (inr (inl (c, ra ∙ rb ∙ rc)))
                        | inr (c, rc) ↦ inr (inr (inr (a, b, c, ra ∙ rb ∙ rc)))
                      ]
              ]
      ]

abbrev FirstIsString : List (List ℕ) → Type 0
FirstIsString [] = Unit
FirstIsString (w ∷ ws) = IsString w

invoke-Called :
    (argv : List (List ℕ)) → FirstIsString (strings argv) → Called (strings argv) argv (invoke argv)
unfolding invoke
invoke-Called [] h = refl
invoke-Called (a ∷ argv) h = lookup-Called (c_string a) (strings argv) (a ∷ argv) h

words-FirstIsString : (ws : List Word) → IsLine ws → FirstIsString (words ws)
words-FirstIsString [] h = tt
words-FirstIsString (w ∷ ws) h = AllWord-IsString (word_of w) h.0

-- For a line of words of bytes, with blanks between them and perhaps around them: where there are
-- 15 words at most, runcmd does nothing if there is no word, calls the first, second or third
-- command if the first word is `help`, `kerninfo` or `backtrace`, with exactly these words as its
-- arguments, and says that the command is unknown in all other cases. Where there are 16 or more,
-- it says that there are too many.
pub runcmd-words :
    (blanks : List ℕ) (ws : List Word)
    → AllBlank blanks
    → IsLine ws
    → (count ws ≤ 15
        → (argv : List (List ℕ)) × (strings argv ≡ words ws)
          × Called (words ws) argv (runcmd (blanks ++ text ws)))
      × (16 ≤ count ws → runcmd (blanks ++ text ws) ≡ too_many)
unfolding runcmd
runcmd-words blanks ws b h = (few, many)
  where
    run : Option (List ℕ × List (List ℕ)) → Run
    run o = elim o [ none ↦ too_many | some r ↦ invoke r.1 ]

    few :
        count ws ≤ 15
        → (argv : List (List ℕ)) × (strings argv ≡ words ws)
          × Called (words ws) argv (runcmd (blanks ++ text ws))
    few le =
        let (buf, argv, found, same, end) = parse-Parsed ws 0 h (omega arith) in
        let invoked : runcmd (blanks ++ text ws) ≡ invoke argv =
          ap run (parse-blanks blanks (text ws) 0 b ∙ ap (in_front (zeros blanks)) found) in
        let first = subst FirstIsString (sym same) (words-FirstIsString ws h) in
        (
          argv,
          same,
          subst (Called (words ws) argv) (sym invoked)
              (subst (λ names. Called names argv (invoke argv)) same (invoke-Called argv first)),
        )

    many : 16 ≤ count ws → runcmd (blanks ++ text ws) ≡ too_many
    many le = ap run (
        parse-blanks blanks (text ws) 0 b
        ∙ ap (in_front (zeros blanks)) (parse-none ws 0 h (omega arith) (omega arith)))
