-- ===== src/Readline/Edited.antt =====
-- readline as an editor of a list of characters.
use library_os_exokernel_imp.Base.{
  ℕ, zero, suc, ◌+◌, ◌-◌, ◌%◌, ◌≤◌, ◌≡◌, refl, ap, sym, ◌∙◌, Bool, true, false, ◌&&◌, ◌||◌, ◌==◌,
  ltb, leb, Option, none, some, List, [], ◌∷◌, if◌then◌else◌, update, arith, ==_false, ==_refl,
}
use library_os_exokernel_imp.Str.Chars.Copy.{length}
use library_os_exokernel_imp.Readline.{
  Line, Read, waiting, failed, entered, erases, ends, append_char, erase, terminated, readline,
}

-- What the user has typed, the latest character first, when readline returns.
pub data Typed : Type 0 where
  unfinished broken unterminated : Typed
  line : List ℕ → Typed

abbrev tail : List ℕ → List ℕ
tail [] = []
tail (_ ∷ s) = s

-- An editor without a buffer: at most 1023 characters.
unfoldable pub edit : List (Option ℕ) → List ℕ → Typed
edit [] s = unfinished
edit (none ∷ input) s = broken
edit (some c ∷ input) s =
    let erased = edit input (tail s) in
    let more = edit input (c % 256 ∷ s) in
    let ignored = edit input s in
    if (c == 8 || c == 127) && ltb 0 (length s)
    then erased
    else if leb 32 c && ltb (length s) 1023
    then more
    else if c == 10 || c == 13
    then line s
    else ignored

-- The characters before an index, the latest first.
abbrev pub contents : (ℕ → ℕ) → ℕ → List ℕ
contents buf zero = []
contents buf (suc n) = buf n ∷ contents buf n

-- The line that readline returns, up to its '\0', which is within the buffer.
abbrev pub typed_line : Read → Typed
typed_line waiting = unfinished
typed_line failed = broken
typed_line (entered l) =
    if (l.buf l.i == 0) && ltb l.i 1024 then line (contents l.buf l.i) else unterminated

length-contents : (buf : ℕ → ℕ) (n : ℕ) → length (contents buf n) ≡ n
length-contents buf zero = refl
length-contents buf (suc n) = omega (arith, length-contents buf n)

contents-update : (buf : ℕ → ℕ) (i c n : ℕ) → n ≤ i → contents (update buf i c) n ≡ contents buf n
contents-update buf i c zero h = refl
contents-update buf i c (suc n) h =
    ap (λ b. (if b then c else buf n) ∷ contents (update buf i c) n)
      (==_false i n (λ e. omega arith))
    ∙ ap (λ s. buf n ∷ s) (contents-update buf i c n (omega arith))

contents-put : (buf : ℕ → ℕ) (n c : ℕ) → contents (update buf n c) (n + 1) ≡ c ∷ contents buf n
contents-put buf n c =
    ap (contents (update buf n c)) (let e : n + 1 ≡ suc n = omega arith in e)
    ∙ ap (λ b. (if b then c else buf n) ∷ contents (update buf n c) n) (==_refl n)
    ∙ ap (λ s. c ∷ s) (contents-update buf n c n (omega arith))

contents-erase : (buf : ℕ → ℕ) (n : ℕ) → contents buf (n - 1) ≡ tail (contents buf n)
contents-erase buf zero = ap (contents buf) (let e : 0 - 1 ≡ zero = omega arith in e)
contents-erase buf (suc n) = ap (contents buf) (let e : suc n - 1 ≡ n = omega arith in e)

typed_line-terminated :
    (l : Line) → l.i ≤ 1023 → typed_line (entered (terminated l)) ≡ line (contents l.buf l.i)
typed_line-terminated l h =
    ap
      (λ b.
        if ((if b then 0 else l.buf l.i) == 0) && ltb l.i 1024
        then line (contents (update l.buf l.i 0) l.i)
        else unterminated)
      (==_refl l.i)
    ∙ ap (λ b. if b then line (contents (update l.buf l.i 0) l.i) else unterminated)
        (let e : ltb l.i 1024 ≡ true = ground arith in e)
    ∙ ap line (contents-update l.buf l.i 0 l.i (omega arith))

pick :
    (a b e : Bool) (x y z w : Read) (x' y' z' w' : Typed)
    → typed_line x ≡ x'
    → (b ≡ true → typed_line y ≡ y')
    → typed_line z ≡ z'
    → typed_line w ≡ w'
    → typed_line (if a then x else if b then y else if e then z else w)
      ≡ (if a then x' else if b then y' else if e then z' else w')
pick true b e x y z w x' y' z' w' p q r t = p
pick false true e x y z w x' y' z' w' p q r t = q refl
pick false false true x y z w x' y' z' w' p q r t = r
pick false false false x y z w x' y' z' w' p q r t = t

-- From a line that fits, readline returns what the editor makes of the input: each of '\b' and DEL
-- takes away the latest character, if there is one, characters from ' ' on are added up to 1023,
-- and a newline or a carriage return ends the line. The line stands at the start of the buffer and
-- its '\0' within it.
pub readline-edit :
    (input : List (Option ℕ)) (l : Line)
    → l.i ≤ 1023
    → typed_line (readline input l) ≡ edit input (contents l.buf l.i)
unfolding readline edit
readline-edit [] l h = refl
readline-edit (none ∷ input) l h = refl
readline-edit (some c ∷ input) l h =
    pick (erases c && ltb 0 l.i) (leb 32 c && ltb l.i 1023) (ends c) (readline input (erase l))
      (readline input (append_char c l)) (entered (terminated l)) (readline input l)
      (edit input (tail typed)) (edit input (c % 256 ∷ typed)) (line typed) (edit input typed)
      (readline-edit input (erase l) (omega arith) ∙ ap (edit input) (contents-erase l.buf l.i))
      (λ fits.
        readline-edit input (append_char c l) (ground arith)
        ∙ ap (edit input) (contents-put l.buf l.i (c % 256)))
      (typed_line-terminated l h) (readline-edit input l h)
    ∙ ap by_length (sym (length-contents l.buf l.i))
  where
    typed : List ℕ
    typed = contents l.buf l.i

    by_length : ℕ → Typed
    by_length n =
        if (c == 8 || c == 127) && ltb 0 n
        then edit input (tail typed)
        else if leb 32 c && ltb n 1023
        then edit input (c % 256 ∷ typed)
        else if c == 10 || c == 13
        then line typed
        else edit input typed
