-- ===== src/Monitor.antt =====
-- runcmd of kern/monitor.c. The buffer is the list of its characters before the '\0'; a pointer
-- into it is the rest from there, as the buffer is when the arguments have been parsed.
pub mod Parse
pub mod Words
use mathlib.Core.Option.{map}
use library_os_exokernel_imp.Base.{
  ℕ, ◌+◌, ◌==◌, Bool, true, false, Option, none, some, is_null, not, List, [], ◌∷◌, if◌then◌else◌,
}
use library_os_exokernel_imp.Base.Text.{bytes}
use library_os_exokernel_imp.Str.Chars.{strchr, strcmp}

abbrev pub maxargs : ℕ
maxargs = 16

-- "\t\r\n "
abbrev pub whitespace : List ℕ
whitespace = 9 ∷ 13 ∷ 10 ∷ 32 ∷ []

unfoldable pub is_whitespace : ℕ → Bool
unfolding strchr
is_whitespace c = not (is_null (strchr whitespace c))

-- The buffer and `argv`, from where the loops stand: in front of an argument, or past its first
-- character. `none` is "Too many arguments".
unfoldable pub parse : (scanning : Bool) → List ℕ → (argc : ℕ) → Option (List ℕ × List (List ℕ))
unfolding is_whitespace
parse scanning [] argc = some ([], [])
parse scanning (c ∷ buf) argc =
    let gobbled = map (λ r. (0 ∷ r.0, r.1)) (parse false buf argc) in
    let scanned = map (λ r. (c ∷ r.0, r.1)) (parse true buf argc) in
    let begun = map (λ r. (c ∷ r.0, (c ∷ r.0) ∷ r.1)) (parse true buf (argc + 1)) in
    if is_whitespace c
    then gobbled
    else if scanning
    then scanned
    else if argc == 15
    then none
    else begun

-- The characters of a string up to its '\0'.
unfoldable pub c_string : List ℕ → List ℕ
c_string [] = []
c_string (c ∷ s) = if c == 0 then [] else c ∷ c_string s

-- What runcmd does: nothing, one of its two messages, or a call of a command with `argv`.
pub data Run : Type 0 where
  nothing : Run
  too_many : Run
  unknown : (name : List ℕ) → Run
  command : (i : ℕ) (argv : List (List ℕ)) → Run

abbrev pub commands : List (List ℕ)
commands = bytes "help" ∷ bytes "kerninfo" ∷ bytes "backtrace" ∷ []

-- The loop on `commands`, from the `i`th on.
unfoldable pub lookup :
    (names : List (List ℕ)) (i : ℕ) → (argv : List (List ℕ)) → (name : List ℕ) → Run
unfolding strcmp
lookup [] i argv name = unknown name
lookup (n ∷ names) i argv name =
    if strcmp name n == 0 then command i argv else lookup names (i + 1) argv name

unfoldable pub invoke : List (List ℕ) → Run
unfolding lookup c_string
invoke [] = nothing
invoke (name ∷ argv) = lookup commands 0 (name ∷ argv) (c_string name)

unfoldable pub runcmd : (buf : List ℕ) → Run
unfolding parse invoke
runcmd buf = elim (parse false buf 0) [ none ↦ too_many | some r ↦ invoke r.1 ]
