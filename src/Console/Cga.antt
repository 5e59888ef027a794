-- ===== src/Console/Cga.antt =====
-- cga_putc of kern/console.c: the text screen, of 80 columns and 25 rows. A character is an `int`,
-- its attribute in the bits above the low 8. (The cursor that it moves last is the device's.)
pub mod Screen
use library_os_exokernel_imp.Base.{
  ℕ, ◌+◌, ◌-◌, ◌*◌, ◌/◌, ◌%◌, ◌^◌, ◌==◌, ltb, leb, if◌then◌else◌, update,
}

abbrev pub crt_cols : ℕ
crt_cols = 80

abbrev pub crt_size : ℕ
crt_size = 25 * 80

pub record Cga : Type 0 where
  pub crt_buf : ℕ → ℕ
  pub crt_pos : ℕ

-- With no attribute, black on white.
abbrev pub attributed : ℕ → ℕ
attributed c = if c / 256 == 0 then c + 0x0700 else c

-- crt_buf[i] = c
abbrev pub write_cell : (i c : ℕ) → Cga → Cga
write_cell i c g = record g { crt_buf = update g.crt_buf i (c % 2 ^ 16) }

abbrev pub backspace : (c : ℕ) → Cga → Cga
backspace c g =
    if g.crt_pos == 0
    then g
    else write_cell (g.crt_pos - 1) (c - c % 256 + 32) (record g { crt_pos = g.crt_pos - 1 })

abbrev pub newline : Cga → Cga
newline g = record g { crt_pos = (g.crt_pos + crt_cols) % 2 ^ 16 }

abbrev pub carriage_return : Cga → Cga
carriage_return g = record g { crt_pos = g.crt_pos - g.crt_pos % crt_cols }

abbrev pub write_next : (c : ℕ) → Cga → Cga
write_next c g = record (write_cell g.crt_pos c g) { crt_pos = (g.crt_pos + 1) % 2 ^ 16 }

-- The rows move up by one, and the last is blank.
abbrev pub scrolled : (ℕ → ℕ) → ℕ → ℕ
scrolled buf i =
    if ltb i (crt_size - crt_cols)
    then buf (i + crt_cols)
    else if ltb i crt_size
    then 0x0720
    else buf i

unfoldable pub scroll : Cga → Cga
scroll g =
    if leb crt_size g.crt_pos
    then record { crt_buf = scrolled g.crt_buf; crt_pos = g.crt_pos - crt_cols }
    else g

-- cons_putc(' '), of which only this part has a state
unfoldable pub put_space : Cga → Cga
unfolding scroll
put_space g = scroll (write_next (attributed 32) g)

unfoldable pub cga_putc : ℕ → Cga → Cga
unfolding scroll put_space
cga_putc c g =
    if c % 256 == 8
    then scroll (backspace (attributed c) g)
    else if c % 256 == 10
    then scroll (carriage_return (newline g))
    else if c % 256 == 13
    then scroll (carriage_return g)
    else if c % 256 == 9
    then scroll (put_space (put_space (put_space (put_space (put_space g)))))
    else scroll (write_next (attributed c) g)
