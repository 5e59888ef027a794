-- ===== src/Printf/Format/Output.antt =====
-- vprintfmt gives `putch` the same characters whatever `putch` does with them.
use mathlib.Core.Path.{subst}
use mathlib.Core.Option.{map}
use library_os_exokernel_imp.Base.{
  ℕ, ◌≡◌, refl, ap, sym, ◌∙◌, Bool, true, false, Option, none, some, List, [], ◌∷◌, if◌then◌else◌,
}
use library_os_exokernel_imp.Printf.Number.Decimal.{collect}
use library_os_exokernel_imp.Printf.Format.{
  Arg, no_flags, text, Printer, put_all, read_all, end_of_format, vprintfmt,
}
use library_os_exokernel_imp.Printf.Format.Steps.{
  Related, related, read_all-Both, end_of_format-Both,
}

put_all-collect :
    {S : Type 0} (putch : ℕ → S → S) (c : ℕ) (s : List ℕ) (out : S)
    → put_all putch (collect c s) out ≡ putch c (put_all putch s out)
unfolding put_all
put_all-collect putch c [] out = refl
put_all-collect putch c (d ∷ s) out = put_all-collect putch c s (putch d out)

-- What vprintfmt makes of its caller's state is what `putch` makes of it on the characters that
-- vprintfmt prints, one after the other; where its behaviour is undefined is the same too.
pub vprintfmt-collect :
    {S : Type 0} (putch : ℕ → S → S) (fmt : List ℕ) (args : List Arg) (out : S)
    → vprintfmt putch fmt args out ≡ map (λ s. put_all putch s out) (vprintfmt collect fmt args [])
unfolding vprintfmt put_all
vprintfmt-collect {S} putch fmt args out = ends (end_of_format collect printer.mode printer) _ (
    end_with (read_all putch fmt (start out))
      (read_all-Both collect putch Reaches kept fmt _ _ (related out refl refl)))
  where
    Reaches : List ℕ → S → Type 0
    Reaches s t = put_all putch s out ≡ t

    kept :
        (c : ℕ) (s : List ℕ) (t : S)
        → put_all putch s out ≡ t
        → put_all putch (collect c s) out ≡ putch c t
    kept c s t h = put_all-collect putch c s out ∙ ap (putch c) h

    start : {T : Type 0} → T → Printer T
    start t = record {
      mode = text;
      spec = no_flags;
      seen = [];
      args = args;
      out = t;
      defined = true;
    }

    printer : Printer (List ℕ)
    printer = read_all collect fmt (start [])

    end_with :
        (q : Printer S)
        → Related Reaches printer q
        → Related Reaches
            (end_of_format collect printer.mode printer)
            (end_of_format putch q.mode q)
    end_with q (related t h e) =
        subst
          (λ (q : Printer S).
            Related Reaches (end_of_format collect printer.mode printer)
              (end_of_format putch q.mode q))
          e
          (end_of_format-Both collect putch Reaches kept printer.mode printer _ (related t h refl))

    result : {T : Type 0} → Printer T → Option T
    result p = if p.defined then some p.out else none

    same :
        (b : Bool) (s : List ℕ) (t : S)
        → put_all putch s out ≡ t
        → (if b then some t else none) ≡ map (λ s. put_all putch s out) (if b then some s else none)
    same true s t h = ap some (sym h)
    same false s t h = refl

    ends :
        (p : Printer (List ℕ)) (q : Printer S)
        → Related Reaches p q
        → result q ≡ map (λ s. put_all putch s out) (result p)
    ends p q (related t h e) = ap result (sym e) ∙ same p.defined _ _ h
