-- ===== src/Printf/Buffer.antt =====
-- sprintputch and vsnprintf of lib/printfmt.c, on the byte at each address of memory.
pub mod Cut
use library_os_exokernel_imp.Base.{
  ℕ, ◌+◌, ◌-◌, ◌%◌, ◌^◌, ◌==◌, ◌||◌, leb, ltb, Option, none, some, List, if◌then◌else◌, update,
}
use mathlib.Core.Option.{map}
use mathlib.Core.Bool.{Bool}
use library_os_exokernel_imp.Error.{Result, ok, err, inval}
use library_os_exokernel_imp.Mmu.{u32}
use library_os_exokernel_imp.Str.Memory.{Memory}
use library_os_exokernel_imp.Printf.Format.{Arg, vprintfmt}

-- `struct sprintbuf`, and the memory that its pointers are into.
pub record SprintBuf : Type 0 where
  pub buf : ℕ
  pub ebuf : ℕ
  pub cnt : ℕ
  pub memory : Memory

unfoldable pub sprintputch : ℕ → SprintBuf → SprintBuf
sprintputch ch b =
    let counted : SprintBuf = record b { cnt = u32 (b.cnt + 1) } in
    if ltb b.buf b.ebuf
    then record counted { buf = u32 (b.buf + 1); memory = update b.memory b.buf (ch % 256) }
    else counted

-- `n < 1` for an `int`
abbrev pub less_than_one : ℕ → Bool
less_than_one n = (n == 0) || leb (2 ^ 31) n

-- `*b.buf = '\0'`, and `b.cnt`
unfoldable pub null_terminated : SprintBuf → Result × Memory
null_terminated b = (ok b.cnt, update b.memory b.buf 0)

unfoldable pub vsnprintf :
    (buf : Option ℕ) (n : ℕ) → List ℕ → List Arg → Memory → Option (Result × Memory)
unfolding sprintputch null_terminated
vsnprintf none n fmt args memory = some (err inval, memory)
vsnprintf (some buf) n fmt args memory =
    if less_than_one n
    then some (err inval, memory)
    else map null_terminated (
        vprintfmt sprintputch fmt args
          (record { buf = buf; ebuf = u32 (buf + n + (2 ^ 32 - 1)); cnt = 0; memory = memory }))
