-- ===== src/Printf/Console.antt =====
-- cprintf and vcprintf: of user programs in lib/printf.c, whose sys_cputs prints a buffer in one
-- system call, and of the kernel in kern/printf.c, on the characters that cputchar has printed.
pub mod Lines
use mathlib.Core.Option.{map}
use library_os_exokernel_imp.Base.{ℕ, ◌+◌, ◌%◌, ◌==◌, Option, List, [], ◌∷◌, ◌++◌, if◌then◌else◌}
use library_os_exokernel_imp.Mmu.{u32}
use library_os_exokernel_imp.Printf.Format.{Arg, vprintfmt}

-- `struct printbuf`, whose `cnt` is an int of 32 bits: the `idx` characters of `buf` that are in
-- use are `buffered`. `calls` are the strings that sys_cputs has been given.
pub record Printbuf : Type 0 where
  pub idx : ℕ
  pub cnt : ℕ
  pub buffered : List ℕ
  pub calls : List (List ℕ)

-- sys_cputs (b->buf, b->idx)
abbrev pub flush : Printbuf → Printbuf
flush b = record b { calls = b.calls ++ (b.buffered ∷ []) }

unfoldable pub putch : (ch : ℕ) → Printbuf → Printbuf
putch ch b =
    let stored : Printbuf = record b {
      buffered = b.buffered ++ (ch % 256 ∷ []);
      idx = b.idx + 1;
    } in
    let flushed : Printbuf = record (flush stored) { idx = 0; buffered = [] } in
    let counted : Printbuf → Printbuf = λ b. record b { cnt = u32 (b.cnt + 1) } in
    counted (if stored.idx == 255 then flushed else stored)

abbrev pub empty : Printbuf
empty = record { idx = 0; cnt = 0; buffered = []; calls = [] }

-- The strings given to sys_cputs, and the count that is returned.
unfoldable pub vcprintf : (fmt : List ℕ) → List Arg → Option (List (List ℕ) × ℕ)
unfolding putch
vcprintf fmt args = map (λ b. ((flush b).calls, b.cnt)) (vprintfmt putch fmt args empty)

-- What the kernel's console shows, and `*cnt`; `*cnt++` moves the pointer, and not the number.
pub record Kernelbuf : Type 0 where
  pub console : List ℕ
  pub cnt : ℕ

unfoldable pub kernel_putch : (ch : ℕ) → Kernelbuf → Kernelbuf
kernel_putch ch b = record b { console = b.console ++ (ch ∷ []) }

unfoldable pub kernel_vcprintf : (fmt : List ℕ) → List Arg → Option (List ℕ × ℕ)
unfolding kernel_putch
kernel_vcprintf fmt args =
    map (λ b. (b.console, b.cnt))
      (vprintfmt kernel_putch fmt args (record { console = []; cnt = 0 }))
