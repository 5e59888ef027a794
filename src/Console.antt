-- ===== src/Console.antt =====
-- The console's input buffer in kern/console.c: cons_intr and cons_getc. The characters that a
-- device has ready are a list; `proc` gives them one by one and then -1.
pub mod Fifo
pub mod Cga
pub mod Keyboard
use library_os_exokernel_imp.Base.{
  ℕ, zero, suc, ◌+◌, ◌%◌, Bool, true, false, ◌==◌, List, [], ◌∷◌, if◌then◌else◌, update,
}

abbrev pub consbufsize : ℕ
consbufsize = 512

pub record Cons : Type 0 where
  pub buf : ℕ → ℕ
  pub rpos : ℕ
  pub wpos : ℕ

-- A position moved on, back to 0 at the end of the buffer.
abbrev pub step : ℕ → ℕ
step pos = if pos + 1 == consbufsize then 0 else pos + 1

-- `cons.buf` holds bytes.
abbrev pub put : ℕ → Cons → Cons
put c cons = record cons { buf = update cons.buf cons.wpos (c % 256); wpos = step cons.wpos }

unfoldable pub cons_intr : List ℕ → Cons → Cons
cons_intr [] cons = cons
cons_intr (c ∷ ready) cons = if c == 0 then cons_intr ready cons else cons_intr ready (put c cons)

-- The next character, or 0 with none waiting.
unfoldable pub take_next : Cons → ℕ × Cons
take_next cons =
    if cons.rpos == cons.wpos
    then (0, cons)
    else (cons.buf cons.rpos, record cons { rpos = step cons.rpos })

-- `serial` and `kbd` are what the two devices have ready.
unfoldable pub cons_getc : (serial kbd : List ℕ) → Cons → ℕ × Cons
unfolding cons_intr take_next
cons_getc serial kbd cons = take_next (cons_intr kbd (cons_intr serial cons))
