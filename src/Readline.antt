-- ===== src/Readline.antt =====
-- readline of lib/readline.c. What getchar returns is a list, a negative number `none`; a list that
-- ends leaves readline waiting. (The echo goes to the console.)
pub mod Edited
use library_os_exokernel_imp.Base.{
  ℕ, ◌+◌, ◌-◌, ◌%◌, Bool, ◌&&◌, ◌||◌, ◌==◌, ltb, leb, Option, none, some, List, [], ◌∷◌,
  if◌then◌else◌, update,
}

abbrev pub buflen : ℕ
buflen = 1024

-- `buf` and `i`
pub record Line : Type 0 where
  pub buf : ℕ → ℕ
  pub i : ℕ

pub data Read : Type 0 where
  waiting failed : Read
  entered : Line → Read

-- '\b' or '\x7f'
abbrev pub erases : ℕ → Bool
erases c = (c == 8) || (c == 127)

abbrev pub ends : ℕ → Bool
ends c = (c == 10) || (c == 13)

-- `buf[i++] = c`
abbrev pub append_char : ℕ → Line → Line
append_char c l = record { buf = update l.buf l.i (c % 256); i = l.i + 1 }

abbrev pub erase : Line → Line
erase l = record l { i = l.i - 1 }

-- `buf[i] = 0`
abbrev pub terminated : Line → Line
terminated l = record l { buf = update l.buf l.i 0 }

unfoldable pub readline : List (Option ℕ) → Line → Read
readline [] l = waiting
readline (none ∷ input) l = failed
readline (some c ∷ input) l =
    let erased = readline input (erase l) in
    let more = readline input (append_char c l) in
    let ignored = readline input l in
    if erases c && ltb 0 l.i
    then erased
    else if leb 32 c && ltb l.i (buflen - 1)
    then more
    else if ends c
    then entered (terminated l)
    else ignored
