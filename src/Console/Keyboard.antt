-- ===== src/Console/Keyboard.antt =====
-- The keyboard of kern/console.c. What the controller has ready is a list of bytes; the bits of
-- `shift` are a record. The write to port 0x92 that reboots the machine on Ctrl-Alt-Del is left
-- out.
pub mod Letters
use library_os_exokernel_imp.Base.{
  ℕ, zero, suc, ◌+◌, ◌-◌, ◌%◌, Bool, true, false, not, ◌&&◌, ◌||◌, ◌==◌, leb, List, [], ◌∷◌, ◌++◌,
  if◌then◌else◌,
}
use library_os_exokernel_imp.Base.Text.{bytes}
use library_os_exokernel_imp.Console.{Cons, cons_intr}

pub record Shift : Type 0 where
  pub shift : Bool
  pub ctl : Bool
  pub alt : Bool
  pub capslock : Bool
  pub numlock : Bool
  pub scrolllock : Bool
  pub e0esc : Bool

-- An array by its first elements, and by its designated ones; the others are 0.
abbrev pub element : List ℕ → ℕ → ℕ
element [] i = 0
element (c ∷ cs) zero = c
element (c ∷ cs) (suc i) = element cs i

abbrev pub designated : List (ℕ × ℕ) → ℕ → ℕ
designated [] i = 0
designated ((j, c) ∷ ds) i = if i == j then c else designated ds i

abbrev array : List ℕ → List (ℕ × ℕ) → ℕ → ℕ
array cs ds i = if leb 0x80 i then designated ds i else element cs i

-- KEY_UP to KEY_DEL
abbrev arrows : List (ℕ × ℕ)
arrows =
    (0xC8, 0xE2)
    ∷ (0xC9, 0xE6)
    ∷ (0xCB, 0xE4)
    ∷ (0xCD, 0xE5)
    ∷ (0xCF, 0xE1)
    ∷ (0xD0, 0xE3)
    ∷ (0xD1, 0xE7)
    ∷ (0xD2, 0xE8)
    ∷ (0xD3, 0xE9)
    ∷ []

abbrev keypad : List ℕ
keypad = 0 ∷ 42 ∷ 0 ∷ 32 ∷ 0 ∷ 0 ∷ 0 ∷ 0 ∷ 0 ∷ 0 ∷ 0 ∷ 0 ∷ 0 ∷ 0 ∷ 0 ∷ 0 ∷ 0 ∷ bytes "789-456+1230."

unfoldable pub normalmap : ℕ → ℕ
normalmap =
    array
      (0
        ∷ 0x1B
        ∷ (bytes "1234567890-="
            ++ (8
                ∷ 9
                ∷ (bytes "qwertyuiop[]"
                    ++ (10
                        ∷ 0
                        ∷ (bytes "asdfghjkl;'`" ++ (0 ∷ 92 ∷ (bytes "zxcvbnm,./" ++ keypad))))))))
      ((0xC7, 0xE0) ∷ (0x9C, 10) ∷ (0xB5, 47) ∷ arrows)

unfoldable pub shiftmap : ℕ → ℕ
shiftmap =
    array
      (0
        ∷ 0x1B
        ∷ (bytes "!@#$%^&*()_+"
            ++ (8
                ∷ 9
                ∷ (bytes "QWERTYUIOP{}"
                    ++ (10
                        ∷ 0
                        ∷ (bytes "ASDFGHJKL:"
                            ++ (34 ∷ 126 ∷ 0 ∷ 124 ∷ (bytes "ZXCVBNM<>?" ++ keypad))))))))
      ((0xC7, 0xE0) ∷ (0x9C, 10) ∷ (0xB5, 47) ∷ arrows)

-- `C(x)`, as a byte
abbrev controls : List ℕ → List ℕ
controls [] = []
controls (c ∷ s) = (c + 256 - 64) % 256 ∷ controls s

unfoldable pub ctlmap : ℕ → ℕ
ctlmap =
    array
      (0
        ∷ 0
        ∷ 0
        ∷ 0
        ∷ 0
        ∷ 0
        ∷ 0
        ∷ 0
        ∷ 0
        ∷ 0
        ∷ 0
        ∷ 0
        ∷ 0
        ∷ 0
        ∷ 0
        ∷ 0
        ∷ (controls (bytes "QWERTYUIOP")
            ++ (0
                ∷ 0
                ∷ 13
                ∷ 0
                ∷ (controls (bytes "ASDFGHJKL")
                    ++ (0
                        ∷ 0
                        ∷ 0
                        ∷ 0
                        ∷ (controls (92 ∷ bytes "ZXCVBNM")
                            ++ (0 ∷ 0 ∷ (controls (bytes "/") ++ (0 ∷ 0 ∷ [])))))))))
      ((0x97, 0xE0) ∷ (0xB5, 239) ∷ arrows)

-- The codes of shiftcode with each bit
abbrev pub is_shift : ℕ → Bool
is_shift code = code == 0x2A || code == 0x36

abbrev pub is_ctl : ℕ → Bool
is_ctl code = code == 0x1D || code == 0x9D

abbrev pub is_alt : ℕ → Bool
is_alt code = code == 0x38 || code == 0xB8

abbrev pub toggled : Bool → Bool → Bool
toggled bit false = bit
toggled bit true = not bit

-- `charcode[shift & (CTL | SHIFT)][data]`
unfoldable pub char_of : (code : ℕ) → Shift → ℕ
unfolding normalmap shiftmap ctlmap
char_of code s = if s.ctl then ctlmap code else if s.shift then shiftmap code else normalmap code

-- The effect of CAPSLOCK
unfoldable pub with_case : Bool → ℕ → ℕ
with_case false c = c
with_case true c =
    if leb b'a' c && leb c b'z' then c - 32 else if leb b'A' c && leb c b'Z' then c + 32 else c

unfoldable pub released : (code : ℕ) → Shift → ℕ × Shift
released code s = (
  0,
  record s {
    shift = s.shift && not (is_shift code);
    ctl = s.ctl && not (is_ctl code);
    alt = s.alt && not (is_alt code);
    e0esc = false;
  },
)

unfoldable pub pressed : (code : ℕ) → Shift → ℕ × Shift
unfolding char_of with_case
pressed code s =
    let s' : Shift = record s {
      shift = s.shift || is_shift code;
      ctl = s.ctl || is_ctl code;
      alt = s.alt || is_alt code;
      capslock = toggled s.capslock (code == 0x3A);
      numlock = toggled s.numlock (code == 0x45);
      scrolllock = toggled s.scrolllock (code == 0x46);
      e0esc = false;
    } in
    (with_case s'.capslock (char_of code s'), s')

-- kbd_proc_data for a byte that is there: the character, or 0, and `shift`.
unfoldable pub kbd_proc_data : (code : ℕ) → Shift → ℕ × Shift
unfolding released pressed
kbd_proc_data code s =
    if code == 0xE0
    then (0, record s { e0esc = true })
    else if leb 0x80 code
    then released (if s.e0esc then code else code % 0x80) s
    else pressed (if s.e0esc then code + 0x80 else code) s

-- What kbd_proc_data returns, call by call, until no byte is left.
unfoldable pub kbd_chars : List ℕ → Shift → List ℕ × Shift
unfolding kbd_proc_data
kbd_chars [] s = ([], s)
kbd_chars (code ∷ ready) s =
    let (c, s') = kbd_proc_data code s in let rest = kbd_chars ready s' in (c ∷ rest.0, rest.1)

unfoldable pub kbd_intr : List ℕ → Shift → Cons → Shift × Cons
unfolding kbd_chars cons_intr
kbd_intr ready s cons = let r = kbd_chars ready s in (r.1, cons_intr r.0 cons)
