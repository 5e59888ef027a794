-- ===== src/Tests/Terminal.antt =====
-- Runs of the code of the text screen and of the line input.
use library_os_exokernel_imp.Base.Text.{bytes}
use library_os_exokernel_imp.Base.{
  ℕ, true, false, ◌<◌, ◌≤◌, ◌≡◌, ◌++◌, refl, some, Option, List, [], ◌∷◌, arith,
}
use library_os_exokernel_imp.Console.Cga.{Cga, cga_putc, scroll}
use library_os_exokernel_imp.Console.Cga.Screen.{cga_puts, cga_puts-within}
use library_os_exokernel_imp.Console.{Cons, cons_intr}
use library_os_exokernel_imp.Console.Keyboard.{Shift, normalmap, kbd_chars, kbd_intr}
use library_os_exokernel_imp.Console.Keyboard.Letters.{
  AllLetters, strokes, letters, kbd_intr-letters,
}
use library_os_exokernel_imp.Readline.{Line, readline}
use library_os_exokernel_imp.Monitor.{is_whitespace, runcmd, too_many, command}
use library_os_exokernel_imp.Monitor.Parse.{Word, AllBlank, IsLine, count, text, words, strings}
use library_os_exokernel_imp.Monitor.Words.{Called, runcmd-words}
use library_os_exokernel_imp.Readline.Edited.{line, edit, contents, typed_line, readline-edit}

-- In the last column of the last row.
abbrev last_cell : Cga
last_cell = record { crt_buf = λ i. i; crt_pos = 1999 }

-- 'A' is scrolled up with its row.
in_row : (cga_putc 65 last_cell).crt_buf 1919 ≡ 0x0741
unfolding cga_putc scroll
in_row = refl

cga_puts-within_example :
    ((cga_puts (65 ∷ 10 ∷ 9 ∷ []) last_cell).crt_pos < 2000)
    × ((i : ℕ) → 2000 ≤ i → (cga_puts (65 ∷ 10 ∷ 9 ∷ []) last_cell).crt_buf i ≡ last_cell.crt_buf i)
cga_puts-within_example = cga_puts-within (65 ∷ 10 ∷ 9 ∷ []) last_cell (omega arith)

abbrev empty_line : Line
empty_line = record { buf = λ _. 0; i = 0 }

-- "ab", a backspace, "c" and a newline
abbrev keys : List (Option ℕ)
keys = some 97 ∷ some 98 ∷ some 8 ∷ some 99 ∷ some 10 ∷ []

readline-edit_example :
    typed_line (readline keys empty_line) ≡ edit keys (contents empty_line.buf 0)
readline-edit_example = readline-edit keys empty_line (omega arith)

keys_typed : typed_line (readline keys empty_line) ≡ line (99 ∷ 97 ∷ [])
unfolding readline
keys_typed = refl

-- DEL as the first character is taken into the line.
abbrev del_first : List (Option ℕ)
del_first = some 127 ∷ some 10 ∷ []

del_typed : typed_line (readline del_first empty_line) ≡ line (127 ∷ [])
unfolding readline
del_typed = refl

-- "  backtrace now "
abbrev command_line : List Word
command_line =
    record { first = 98; rest = bytes "acktrace"; gap = 32 ∷ [] }
    ∷ record { first = 110; rest = bytes "ow"; gap = 32 ∷ [] }
    ∷ []

two_blanks : AllBlank (bytes "  ")
unfolding is_whitespace
two_blanks = ground arith

command_line-IsLine : IsLine command_line
unfolding is_whitespace
command_line-IsLine = ground arith

runcmd-words_example :
    (count command_line ≤ 15
      → (argv : List (List ℕ)) × (strings argv ≡ words command_line)
        × Called (words command_line) argv (runcmd (bytes "  " ++ text command_line)))
    × (16 ≤ count command_line → runcmd (bytes "  " ++ text command_line) ≡ too_many)
runcmd-words_example = runcmd-words (bytes "  ") command_line two_blanks command_line-IsLine

backtraces :
    runcmd (bytes "  backtrace now ")
    ≡ command 2
        ((bytes "backtrace" ++ (0 ∷ (bytes "now" ++ (0 ∷ [])))) ∷ (bytes "now" ++ (0 ∷ [])) ∷ [])
unfolding runcmd
backtraces = refl

abbrev capitals : Shift
capitals = record {
  shift = false;
  ctl = false;
  alt = false;
  capslock = true;
  numlock = false;
  scrolllock = false;
  e0esc = false;
}

abbrev empty_buffer : Cons
empty_buffer = record { buf = λ i. 0; rpos = 0; wpos = 0 }

hi_keys : AllLetters (0x23 ∷ 0x17 ∷ [])
unfolding normalmap
hi_keys = omega arith

kbd_intr-letters_example :
    kbd_intr (strokes (0x23 ∷ 0x17 ∷ [])) capitals empty_buffer
    ≡ (capitals, cons_intr (letters capitals (0x23 ∷ 0x17 ∷ [])) empty_buffer)
kbd_intr-letters_example = kbd_intr-letters (0x23 ∷ 0x17 ∷ []) capitals empty_buffer hi_keys refl

-- SHIFT held for the first letter, with CAPSLOCK on; then the right CTL key and `c`.
keyboard :
    (kbd_chars (0x2A ∷ 0x23 ∷ 0xA3 ∷ 0xAA ∷ 0x17 ∷ 0xE0 ∷ 0x1D ∷ 0x2E ∷ []) capitals).0
    ≡ 0 ∷ b'h' ∷ 0 ∷ 0 ∷ b'I' ∷ 0 ∷ 0 ∷ 3 ∷ []
unfolding kbd_chars
keyboard = refl
