-- ===== src/Printf/Console/Lines.antt =====
-- What cprintf prints, and in which system calls.
use mathlib.Core.Option.{map}
use mathlib.Core.List.{append_assoc, append-nil}
use library_os_exokernel_imp.Base.{
  ℕ, ◌+◌, ◌%◌, ◌≡◌, ◌<◌, ◌^◌, refl, sym, ap, ◌∙◌, ◌==◌, Bool-cases, inl, inr, some, List, [], ◌∷◌,
  ◌++◌, arith,
}
use library_os_exokernel_imp.Mmu.{u32}
use library_os_exokernel_imp.Str.Chars.Copy.{length}
use library_os_exokernel_imp.Printf.Number.Decimal.{collect}
use library_os_exokernel_imp.Printf.Format.{Arg, vprintfmt, put_all}
use library_os_exokernel_imp.Printf.Format.Output.{vprintfmt-collect}
use library_os_exokernel_imp.Printf.Console.{
  Printbuf, flush, putch, empty, vcprintf, Kernelbuf, kernel_putch, kernel_vcprintf,
}

-- The bytes of the characters
abbrev pub chars : List ℕ → List ℕ
chars [] = []
chars (c ∷ s) = c % 256 ∷ chars s

abbrev pub joined : List (List ℕ) → List ℕ
joined [] = []
joined (s ∷ ss) = s ++ joined ss

abbrev pub AllShort : List (List ℕ) → Type 0
AllShort [] = Unit
AllShort (s ∷ ss) = (length s < 256) × AllShort ss

length-append : (s t : List ℕ) → length (s ++ t) ≡ length s + length t
length-append [] t = omega arith
length-append (c ∷ s) t = omega (arith, length-append s t)

joined-append : (ss : List (List ℕ)) (s : List ℕ) → joined (ss ++ (s ∷ [])) ≡ joined ss ++ s
joined-append [] s = append-nil s
joined-append (t ∷ ss) s = simp (joined-append ss s, append_assoc)

AllShort-append :
    (ss : List (List ℕ)) (s : List ℕ) → AllShort ss → length s < 256 → AllShort (ss ++ (s ∷ []))
AllShort-append [] s h w = (w, tt)
AllShort-append (t ∷ ss) s h w = (h.0, AllShort-append ss s h.1 w)

-- The characters printed and buffered.
abbrev output_of : Printbuf → List ℕ
output_of b = joined b.calls ++ b.buffered

record Holds (b : Printbuf) : Type 0 where
  filled : b.idx ≡ length b.buffered
  room : length b.buffered < 255
  short : AllShort b.calls

module _ (c : ℕ) (b : Printbuf) (h : Holds b) where
  stored-length : length (b.buffered ++ (c % 256 ∷ [])) ≡ length b.buffered + 1
  stored-length = omega (arith, length-append b.buffered (c % 256 ∷ []))

  putch-Holds : Holds (putch c b)
  unfolding putch
  putch-Holds = elim (Bool-cases (b.idx + 1 == 255)) [
    | inl e ↦ rw e (record {
      filled = refl;
      room = omega arith;
      short = AllShort-append b.calls _ h.short (omega (arith, stored-length, h.room));
    })
    | inr e ↦ rw e (record {
      filled = omega (arith, stored-length, h.filled);
      room = ground (arith, stored-length, h.room, h.filled);
      short = h.short;
    })
  ]

  putch-output_of : output_of (putch c b) ≡ output_of b ++ (c % 256 ∷ [])
  unfolding putch
  putch-output_of = elim (Bool-cases (b.idx + 1 == 255)) [
    | inl e ↦ rw e (
        append-nil _
        ∙ joined-append b.calls (b.buffered ++ (c % 256 ∷ []))
        ∙ sym (append_assoc (joined b.calls) b.buffered (c % 256 ∷ [])))
    | inr e ↦ rw e (sym (append_assoc (joined b.calls) b.buffered (c % 256 ∷ [])))
  ]

putch-cnt : (c : ℕ) (b : Printbuf) → (putch c b).cnt ≡ u32 (b.cnt + 1)
unfolding putch
putch-cnt c b = ground arith

put_all-output_of :
    (s : List ℕ) (b : Printbuf)
    → Holds b
    → Holds (put_all putch s b)
      × (output_of (put_all putch s b) ≡ output_of b ++ chars s)
      × (u32 (put_all putch s b).cnt ≡ u32 (b.cnt + length s))
      × (b.cnt < 2 ^ 32 → (put_all putch s b).cnt < 2 ^ 32)
unfolding put_all
put_all-output_of [] b h = (h, sym (append-nil _), omega arith, λ lt. lt)
put_all-output_of (c ∷ s) b h =
    let rest = put_all-output_of s (putch c b) (putch-Holds c b h) in
    (
      rest.0,
      rest.1
          ∙ ap (λ t. t ++ chars s) (putch-output_of c b h)
          ∙ append_assoc (output_of b) (c % 256 ∷ []) (chars s),
      omega (arith, rest.2, putch-cnt c b),
      λ lt. rest.3 (omega (arith, putch-cnt c b)),
    )

-- Where vprintfmt prints the characters `s`, cprintf of a user program gives them to sys_cputs in
-- order, in strings of at most 255 characters, and returns their number, which wraps around at
-- 2 ^ 32.
pub vcprintf-joined :
    (fmt : List ℕ) (args : List Arg) (s : List ℕ)
    → vprintfmt collect fmt args [] ≡ some s
    → (calls : List (List ℕ)) × (vcprintf fmt args ≡ some (calls, u32 (length s)))
      × (joined calls ≡ chars s)
      × AllShort calls
unfolding vcprintf
vcprintf-joined fmt args s h =
    let b = put_all putch s empty in
    let all =
      put_all-output_of s empty (record { filled = refl; room = omega arith; short = tt }) in
    (
      (flush b).calls,
      ap (map (λ b. ((flush b).calls, b.cnt)))
            (vprintfmt-collect putch fmt args empty ∙ ap (map (λ s. put_all putch s empty)) h)
          ∙ ap (λ n. some ((flush b).calls, n)) (omega (arith, all.2, all.3 (omega arith))),
      joined-append b.calls b.buffered ∙ all.1,
      AllShort-append b.calls b.buffered all.0.short (omega (arith, all.0.room)),
    )

kernel_put_all :
    (s : List ℕ) (b : Kernelbuf) → put_all kernel_putch s b ≡ record b { console = b.console ++ s }
unfolding put_all kernel_putch
kernel_put_all [] b = ap (λ t. record b { console = t }) (sym (append-nil b.console))
kernel_put_all (c ∷ s) b =
    kernel_put_all s _ ∙ ap (λ t. record b { console = t }) (append_assoc b.console (c ∷ []) s)

-- Where vprintfmt prints the characters `s`, cprintf of the kernel shows them on the console, and
-- returns 0 whatever their number.
pub kernel_vcprintf-zero :
    (fmt : List ℕ) (args : List Arg) (s : List ℕ)
    → vprintfmt collect fmt args [] ≡ some s
    → kernel_vcprintf fmt args ≡ some (s, 0)
unfolding kernel_vcprintf
kernel_vcprintf-zero fmt args s h =
    ap (map (λ b. (b.console, b.cnt))) (
      vprintfmt-collect kernel_putch fmt args _
      ∙ ap (map (λ s. put_all kernel_putch s (record { console = []; cnt = 0 }))) h)
    ∙ ap (λ b. some (b.console, b.cnt)) (kernel_put_all s (record { console = []; cnt = 0 }))
