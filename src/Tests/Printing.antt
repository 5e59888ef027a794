-- ===== src/Tests/Printing.antt =====
-- Runs of the code of lib/printfmt.c.
use mathlib.Core.Option.{map}
use library_os_exokernel_imp.Base.{ℕ, ◌^◌, ◌-◌, ◌≡◌, refl, some, List, [], ◌∷◌, arith, update}
use library_os_exokernel_imp.Base.Text.{bytes}
use library_os_exokernel_imp.Error.{ok}
use library_os_exokernel_imp.Mmu.{u32}
use library_os_exokernel_imp.Str.Memory.{Memory}
use library_os_exokernel_imp.Str.Number.{strtol}
use library_os_exokernel_imp.Str.Chars.{strlen}
use library_os_exokernel_imp.Str.Chars.Compare.{cut}
use library_os_exokernel_imp.Str.Chars.Copy.{length}
use library_os_exokernel_imp.Printf.Number.{printnum, print_digits, pads}
use library_os_exokernel_imp.Printf.Number.Decimal.{collect, printnum-strtol}
use library_os_exokernel_imp.Printf.Format.{
  Arg, word, string, vprintfmt, read_all, read_char, escape, take_flag, convert, getint, getuint,
  with_int, with_wide, with_string, number_field, signed_field, string_field, error_field,
  put_string, put_all, end_of_format,
}
use library_os_exokernel_imp.Printf.Console.{vcprintf}
use library_os_exokernel_imp.Printf.Console.Lines.{chars, joined, AllShort, vcprintf-joined}
use library_os_exokernel_imp.Printf.Buffer.{SprintBuf, vsnprintf, sprintputch, null_terminated}
use library_os_exokernel_imp.Printf.Buffer.Cut.{written, vsnprintf-cut}

formatted :
    vprintfmt collect
      (bytes "%06d|%x|%5s|%e")
      (word (2 ^ 32 - 42) ∷ word 48879 ∷ string (some (bytes "hi")) ∷ word 77 ∷ [])
      []
    ≡ some (bytes "-000042|beef|   hi|error 77")
unfolding vprintfmt read_all read_char escape take_flag convert getint getuint with_int with_wide
    with_string number_field signed_field string_field error_field put_string put_all end_of_format
    printnum print_digits pads strlen
formatted = refl

-- The flag '-' fills the field with '-' before the number.
left_adjusted : vprintfmt collect (bytes "%-4d") (word 7 ∷ []) [] ≡ some (bytes "---7")
unfolding vprintfmt read_all read_char escape take_flag convert getint with_int number_field
    signed_field end_of_format printnum print_digits pads
left_adjusted = refl

printnum-strtol_example : strtol (printnum collect 2012 10 6 32 []) 10 ≡ (u32 2012, [])
printnum-strtol_example = printnum-strtol 2012 6 (omega arith)

abbrev blank : Memory
blank _ = 7

abbrev answer : List Arg
answer = word 1234 ∷ []

vsnprintf-cut_example :
    vsnprintf (some 100) 4 (bytes "x=%d") answer blank
    ≡ map
        (λ s. (ok (u32 (length s)), written 100 (cut (4 - 1) s) blank))
        (vprintfmt collect (bytes "x=%d") answer [])
vsnprintf-cut_example =
    vsnprintf-cut 100 4 (bytes "x=%d") answer blank (omega arith) (omega arith) (omega arith)

-- "x=%d" of 1234 in 4 bytes: "x=1", and 6 for the length of the whole.
abbrev cut_short : Memory
cut_short = update (update (update (update blank 100 120) 101 61) 102 49) 103 0

overlong : vsnprintf (some 100) 4 (bytes "x=%d") answer blank ≡ some (ok 6, cut_short)
unfolding vsnprintf sprintputch null_terminated vprintfmt read_all read_char escape take_flag
    convert getint with_int number_field signed_field end_of_format printnum print_digits pads
overlong = refl

abbrev room : SprintBuf
room = record { buf = 100; ebuf = 103; cnt = 0; memory = blank }

-- A user program prints it with one system call.
vcprintf-joined_example :
    (calls : List (List ℕ)) × (vcprintf
        (bytes "%06d|%x|%5s|%e")
        (word (2 ^ 32 - 42) ∷ word 48879 ∷ string (some (bytes "hi")) ∷ word 77 ∷ [])
      ≡ some (calls, u32 (length (bytes "-000042|beef|   hi|error 77"))))
    × (joined calls ≡ chars (bytes "-000042|beef|   hi|error 77"))
    × AllShort calls
vcprintf-joined_example =
    vcprintf-joined (bytes "%06d|%x|%5s|%e")
      (word (2 ^ 32 - 42) ∷ word 48879 ∷ string (some (bytes "hi")) ∷ word 77 ∷ [])
      (bytes "-000042|beef|   hi|error 77") formatted
