-- ===== src/Printf/Format.antt =====
-- vprintfmt of lib/printfmt.c: the format is the list of its characters before the '\0', read one
-- by one. `putch` gets each character as the pattern of an `int`.
--
-- The rewind of an unknown escape to its '%' prints again what has been read of it, which holds no
-- '%'; here that is kept in `seen`. A `width` or `precision` that is negative is `none`. The field
-- `defined` is false from where C leaves the behaviour undefined: an argument that is missing or of
-- another size, or an error number of - 2 ^ 31. A number written in the format is taken to fit an
-- `int`.
mod Steps
pub mod Output
use library_os_exokernel_imp.Base.{
  ℕ, zero, suc, ◌+◌, ◌-◌, ◌*◌, ◌/◌, ◌%◌, ◌^◌, Bool, true, false, not, ◌&&◌, ◌||◌, ◌==◌, ltb, leb,
  Option, none, some, List, [], ◌∷◌, ◌++◌, if◌then◌else◌, is_null,
}
use library_os_exokernel_imp.Base.Text.{bytes}
use library_os_exokernel_imp.Str.Chars.{strnlen, strlen}
use library_os_exokernel_imp.Printf.Number.{pads, printnum}

-- An argument of the `va_list`: an `int`, `long` or pointer, a `long long`, or a string or NULL.
pub data Arg : Type 0 where
  word wide : ℕ → Arg
  string : Option (List ℕ) → Arg

pub record Spec : Type 0 where
  pub padc : ℕ
  pub width : Option ℕ
  pub precision : Option ℕ
  pub lflag : ℕ
  pub altflag : Bool

abbrev pub no_flags : Spec
no_flags = record { padc = 32; width = none; precision = none; lflag = 0; altflag = false }

-- Between the escapes, within one, and within its number.
pub data Mode : Type 0 where
  text flags number : Mode

pub record Printer (S : Type 0) : Type 0 where
  pub mode : Mode
  pub spec : Spec
  pub seen : List ℕ
  pub args : List Arg
  pub out : S
  pub defined : Bool

-- A negative `int` is `none`.
abbrev pub non_negative : ℕ → Option ℕ
non_negative n = if leb (2 ^ 31) n then none else some n

-- A width as a number of places.
abbrev pub places : Option ℕ → ℕ
places none = 0
places (some n) = n

-- `process_precision:`
abbrev pub process_precision : Spec → Spec
process_precision s =
    if is_null s.width then record s { width = s.precision; precision = none } else s

-- A `char` as an `int`.
abbrev pub sign_extended : ℕ → ℕ
sign_extended c = if leb 128 c then c + (2 ^ 32 - 256) else c

-- The 64-bit pattern of an `int`.
abbrev pub widened : ℕ → ℕ
widened n = if leb (2 ^ 31) n then n + (2 ^ 64 - 2 ^ 32) else n

-- error_string[err], below MAXERROR
abbrev pub error_string : ℕ → Option (List ℕ)
error_string err =
    if err == 1
    then some (bytes "unspecified error")
    else if err == 2
    then some (bytes "bad environment")
    else if err == 3
    then some (bytes "invalid parameter")
    else if err == 4
    then some (bytes "out of memory")
    else if err == 5
    then some (bytes "out of environments")
    else if err == 6
    then some (bytes "segmentation fault")
    else if err == 7
    then some (bytes "env is not recving")
    else if err == 8
    then some (bytes "unexpected end of file")
    else none

-- A character of a string in the alternate form.
abbrev pub shown : Bool → ℕ → ℕ
shown altflag c = if altflag && (ltb c 32 || ltb 126 c) then 63 else sign_extended c

-- `strnlen(p, precision)`
abbrev pub shown_length : List ℕ → Option ℕ → ℕ
shown_length s none = strlen s
shown_length s (some n) = strnlen s n

module _ {S : Type 0} (putch : ℕ → S → S) where
  unfoldable pub put_all : List ℕ → S → S
  put_all [] out = out
  put_all (c ∷ s) out = put_all s (putch c out)

  -- The characters of a string, and the blanks that fill the width.
  unfoldable pub put_string : (altflag : Bool) → Option ℕ → List ℕ → (width : ℕ) → S → S
  unfolding pads
  put_string altflag precision [] width out = pads putch width 32 out
  put_string altflag none (c ∷ s) width out =
      put_string altflag none s (width - 1) (putch (shown altflag c) out)
  put_string altflag (some zero) (c ∷ s) width out = pads putch width 32 out
  put_string altflag (some (suc n)) (c ∷ s) width out =
      put_string altflag (some n) s (width - 1) (putch (shown altflag c) out)

  unfoldable pub string_field : Spec → List ℕ → S → S
  unfolding put_string
  string_field f s out =
      if ltb 0 (places f.width) && not (f.padc == 45)
      then put_string f.altflag f.precision s 0
          (pads putch (places f.width - shown_length s f.precision) f.padc out)
      else put_string f.altflag f.precision s (places f.width) out

  unfoldable pub number_field : Spec → (base num : ℕ) → S → S
  unfolding printnum
  number_field f base num out = printnum putch num base (places f.width) f.padc out

  -- `%d` of a 64-bit pattern
  unfoldable pub signed_field : Spec → ℕ → S → S
  unfolding number_field
  signed_field f num out =
      if leb (2 ^ 63) num
      then number_field f 10 (2 ^ 64 - num) (putch 45 out)
      else number_field f 10 num out

  -- `%e`: "%s" of the error's string, or "error %d"
  unfoldable pub error_field : ℕ → S → S
  unfolding put_all string_field number_field
  error_field err out = elim (if ltb err 9 then error_string err else none) [
    | none ↦ number_field no_flags 10 err (put_all (bytes "error ") out)
    | some s ↦ string_field no_flags s out
  ]

  abbrev pub undefined : Printer S → Printer S
  undefined p = record p { defined = false }

  -- The end of an escape that has printed.
  abbrev pub printed : (S → S) → Printer S → Printer S
  printed f p = record p { mode = text; out = f p.out }

  -- A character that changes what is to be printed.
  unfoldable pub take_flag : ℕ → Mode → Spec → Printer S → Printer S
  take_flag c m f p = record p { mode = m; spec = f; seen = p.seen ++ c ∷ [] }

  -- `va_arg(ap, int)`
  unfoldable pub with_int : List Arg → (ℕ → Printer S → Printer S) → Printer S → Printer S
  with_int (word n ∷ rest) f p = f n (record p { args = rest })
  with_int _ f p = undefined p

  unfoldable pub with_wide : List Arg → (ℕ → Printer S → Printer S) → Printer S → Printer S
  with_wide (wide n ∷ rest) f p = f n (record p { args = rest })
  with_wide _ f p = undefined p

  unfoldable pub with_string :
      List Arg → (Option (List ℕ) → Printer S → Printer S) → Printer S → Printer S
  with_string (string s ∷ rest) f p = f s (record p { args = rest })
  with_string _ f p = undefined p

  unfoldable pub getuint : (ℕ → Printer S → Printer S) → Printer S → Printer S
  unfolding with_int with_wide
  getuint f p = if leb 2 p.spec.lflag then with_wide p.args f p else with_int p.args f p

  unfoldable pub getint : (ℕ → Printer S → Printer S) → Printer S → Printer S
  unfolding with_int with_wide
  getint f p =
      if leb 2 p.spec.lflag then with_wide p.args f p else with_int p.args (λ n. f (widened n)) p

  -- The string, "(null)" for NULL
  abbrev pub or_null : Option (List ℕ) → List ℕ
  or_null none = bytes "(null)"
  or_null (some s) = s

  -- The conversions: what follows the flags.
  unfoldable pub convert : ℕ → Printer S → Printer S
  unfolding put_all string_field number_field signed_field error_field with_int with_string getuint
      getint
  convert c p =
      if c == 99
      then with_int p.args (λ n. printed (putch n)) p
      else if c == 101
      then with_int p.args
          (λ n q.
            if n == 2 ^ 31
            then undefined q
            else printed (error_field (if leb (2 ^ 31) n then 2 ^ 32 - n else n)) q)
          p
      else if c == 115
      then with_string p.args (λ s. printed (string_field p.spec (or_null s))) p
      else if c == 100
      then getint (λ n. printed (signed_field p.spec n)) p
      else if c == 117
      then getuint (λ n. printed (number_field p.spec 10 n)) p
      else if c == 111
      then getuint (λ n. printed (number_field p.spec 8 n)) p
      else if c == 112
      then with_int p.args
          (λ n. printed (λ out. number_field p.spec 16 n (putch 120 (putch 48 out)))) p
      else if c == 120
      then getuint (λ n. printed (number_field p.spec 16 n)) p
      else if c == 37
      then printed (putch c) p
      else printed (λ out. putch c (put_all p.seen (putch 37 out))) p

  -- The flags, and the start of a number.
  unfoldable pub escape : ℕ → Printer S → Printer S
  unfolding convert take_flag with_int
  escape c p =
      if c == 45
      then take_flag c flags (record (p.spec) { padc = 45 }) p
      else if c == 48
      then take_flag c flags (record (p.spec) { padc = 48 }) p
      else if leb 49 c && leb c 57
      then take_flag c number (record (p.spec) { precision = some (c - 48) }) p
      else if c == 42
      then with_int p.args
          (λ n.
            take_flag c flags (process_precision (record (p.spec) { precision = non_negative n })))
          p
      else if c == 46
      then take_flag c flags
          (record (p.spec) { width = if is_null p.spec.width then some 0 else p.spec.width }) p
      else if c == 35
      then take_flag c flags (record (p.spec) { altflag = true }) p
      else if c == 108
      then take_flag c flags (record (p.spec) { lflag = p.spec.lflag + 1 }) p
      else convert c p

  -- One character of the format.
  unfoldable pub read_char : ℕ → Mode → Printer S → Printer S
  unfolding escape take_flag
  read_char c text p =
      if c == 37
      then record p { mode = flags; spec = no_flags; seen = [] }
      else record p { out = putch c p.out }
  read_char c flags p = escape c p
  read_char c number p =
      if leb 48 c && leb c 57
      then take_flag c number
          (record (p.spec) { precision = some (places p.spec.precision * 10 + (c - 48)) }) p
      else escape c (record p { spec = process_precision p.spec })

  unfoldable pub read_all : List ℕ → Printer S → Printer S
  unfolding read_char
  read_all [] p = p
  read_all (c ∷ fmt) p = read_all fmt (read_char c p.mode p)

  -- The '\0': an escape that it cuts off is printed as it is.
  unfoldable pub end_of_format : Mode → Printer S → Printer S
  unfolding put_all
  end_of_format text p = p
  end_of_format _ p = printed (λ out. put_all p.seen (putch 37 out)) p

  -- The state of the caller, where the behaviour is defined.
  unfoldable pub vprintfmt : List ℕ → List Arg → S → Option S
  unfolding read_all end_of_format
  vprintfmt fmt args out =
      let start : Printer S = record {
        mode = text;
        spec = no_flags;
        seen = [];
        args = args;
        out = out;
        defined = true;
      } in
      let read = read_all fmt start in
      let end = end_of_format read.mode read in if end.defined then some end.out else none
