-- ===== src/Console/Cga/Screen.antt =====
-- cga_putc stays on the screen.
use library_os_exokernel_imp.Base.{
  ℕ, ◌%◌, ◌<◌, ◌≤◌, ◌≡◌, refl, ◌==◌, List, [], ◌∷◌, if◌then◌else◌, Bool, true, false, arith,
}
use library_os_exokernel_imp.Console.Cga.{
  Cga, attributed, backspace, newline, carriage_return, write_next, scroll, put_space, cga_putc,
}

-- Nothing behind the screen has changed, and the position is at most `end`.
record IsWithin (buf : ℕ → ℕ) (end : ℕ) (g : Cga) : Type 0 where
  position : g.crt_pos ≤ end
  kept : (i : ℕ) → 2000 ≤ i → g.crt_buf i ≡ buf i

IsWithin-scroll : (buf : ℕ → ℕ) (g : Cga) → IsWithin buf 2078 g → IsWithin buf 1999 (scroll g)
unfolding scroll
IsWithin-scroll buf g w = record {
  position = ground (arith, w.position);
  kept = λ i h. ground (arith, w.kept i h);
}

IsWithin-write_next :
    (buf : ℕ → ℕ) (c : ℕ) (g : Cga) → IsWithin buf 1999 g → IsWithin buf 2078 (write_next c g)
IsWithin-write_next buf c g w = record {
  position = ground (arith, w.position);
  kept = λ i h. ground (arith, w.position, w.kept i h);
}

IsWithin-put_space : (buf : ℕ → ℕ) (g : Cga) → IsWithin buf 1999 g → IsWithin buf 1999 (put_space g)
unfolding put_space
IsWithin-put_space buf g w = IsWithin-scroll buf _ (IsWithin-write_next buf (attributed 32) g w)

IsWithin-carriage_return :
    (buf : ℕ → ℕ) (g : Cga) (end : ℕ) → IsWithin buf end g → IsWithin buf end (carriage_return g)
IsWithin-carriage_return buf g end w = record {
  position = omega (arith, w.position);
  kept = w.kept;
}

IsWithin-newline : (buf : ℕ → ℕ) (g : Cga) → IsWithin buf 1999 g → IsWithin buf 2079 (newline g)
IsWithin-newline buf g w = record { position = omega (arith, w.position); kept = w.kept }

IsWithin-backspace :
    (buf : ℕ → ℕ) (c : ℕ) (g : Cga) → IsWithin buf 1999 g → IsWithin buf 2078 (backspace c g)
IsWithin-backspace buf c g w = record {
  position = ground (arith, w.position);
  kept = λ i h. ground (arith, w.position, w.kept i h);
}

IsWithin-line :
    (buf : ℕ → ℕ) (g : Cga) → IsWithin buf 1999 g → IsWithin buf 2078 (carriage_return (newline g))
IsWithin-line buf g w = record { position = omega (arith, w.position); kept = w.kept }

IsWithin-return :
    (buf : ℕ → ℕ) (g : Cga) → IsWithin buf 1999 g → IsWithin buf 2078 (carriage_return g)
IsWithin-return buf g w = record { position = omega (arith, w.position); kept = w.kept }

branch :
    (buf : ℕ → ℕ) (b : Bool) (g h : Cga)
    → IsWithin buf 1999 g
    → IsWithin buf 1999 h
    → IsWithin buf 1999 (if b then g else h)
branch buf true g h x y = x
branch buf false g h x y = y

IsWithin-wider : (buf : ℕ → ℕ) (g : Cga) → IsWithin buf 1999 g → IsWithin buf 2078 g
IsWithin-wider buf g w = record { position = omega (arith, w.position); kept = w.kept }

IsWithin-cga_putc :
    (buf : ℕ → ℕ) (c : ℕ) (g : Cga) → IsWithin buf 1999 g → IsWithin buf 1999 (cga_putc c g)
unfolding cga_putc
IsWithin-cga_putc buf c g w =
    branch buf (c % 256 == 8) (scroll (backspace (attributed c) g)) _
      (IsWithin-scroll buf _ (IsWithin-backspace buf (attributed c) g w))
      (branch buf (c % 256 == 10) (scroll (carriage_return (newline g))) _
        (IsWithin-scroll buf _ (IsWithin-line buf g w))
        (branch buf (c % 256 == 13) (scroll (carriage_return g)) _
          (IsWithin-scroll buf _ (IsWithin-return buf g w))
          (branch buf (c % 256 == 9)
            (scroll (put_space (put_space (put_space (put_space (put_space g))))))
            (scroll (write_next (attributed c) g)) tabbed
            (IsWithin-scroll buf _ (IsWithin-write_next buf (attributed c) g w)))))
  where
    space : (h : Cga) → IsWithin buf 1999 h → IsWithin buf 1999 (put_space h)
    space h x = IsWithin-put_space buf h x

    tabbed :
        IsWithin buf 1999 (scroll (put_space (put_space (put_space (put_space (put_space g))))))
    tabbed =
        IsWithin-scroll buf _
          (IsWithin-wider buf _ (space _ (space _ (space _ (space _ (space g w))))))

-- Characters on the screen, one after the other
unfoldable pub cga_puts : List ℕ → Cga → Cga
cga_puts [] g = g
cga_puts (c ∷ s) g = cga_puts s (cga_putc c g)

IsWithin-cga_puts :
    (buf : ℕ → ℕ) (s : List ℕ) (g : Cga) → IsWithin buf 1999 g → IsWithin buf 1999 (cga_puts s g)
unfolding cga_puts
IsWithin-cga_puts buf [] g w = w
IsWithin-cga_puts buf (c ∷ s) g w =
    IsWithin-cga_puts buf s (cga_putc c g) (IsWithin-cga_putc buf c g w)

-- From a position on the screen, whatever characters cga_putc is given, control characters and tabs
-- included, the position stays on the screen and no cell behind it is written.
pub cga_puts-within :
    (s : List ℕ) (g : Cga)
    → g.crt_pos < 2000
    → ((cga_puts s g).crt_pos < 2000)
      × ((i : ℕ) → 2000 ≤ i → (cga_puts s g).crt_buf i ≡ g.crt_buf i)
cga_puts-within s g on =
    let end =
      IsWithin-cga_puts g.crt_buf s g (record { position = omega arith; kept = λ i h. refl }) in
    (omega (arith, end.position), end.kept)
