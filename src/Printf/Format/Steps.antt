-- ===== src/Printf/Format/Steps.antt =====
-- vprintfmt reaches the state of its caller through `putch` alone, and prints plain text as it is.
use mathlib.Core.Path.{subst}
use library_os_exokernel_imp.Base.{
  ℕ, zero, suc, ◌-◌, ◌/◌, ◌^◌, ◌≡◌, refl, ap, Bool, true, false, not, ◌&&◌, ◌==◌, ltb, leb, Option,
  none, some, List, [], ◌∷◌, if◌then◌else◌,
}
use library_os_exokernel_imp.Base.Text.{bytes}
use library_os_exokernel_imp.Printf.Number.{pads, print_digits, printnum}
use library_os_exokernel_imp.Printf.Format.{
  Arg, word, wide, string, Spec, no_flags, Mode, text, flags, number, Printer, places,
  process_precision, widened, error_string, shown_length, put_all, put_string, string_field,
  number_field, signed_field, error_field, undefined, printed, take_flag, with_int, with_wide,
  with_string, getuint, getint, or_null, convert, escape, read_char, read_all, end_of_format,
}

-- Two states of callers, of one printer.
abbrev pub with_out : {S T : Type 0} → Printer S → T → Printer T
with_out p t = record {
  mode = p.mode;
  spec = p.spec;
  seen = p.seen;
  args = p.args;
  out = t;
  defined = p.defined;
}

pub data Related {S T : Type 0} (R : S → T → Type 0) (p : Printer S) (q : Printer T) : Type 0 where
  related : (t : T) → R p.out t → with_out p t ≡ q → Related R p q

if_Both {ℓ} :
    {A B : Type ℓ} (R : A → B → Type 0) (b : Bool) {x y : A} {x' y' : B}
    → R x x'
    → R y y'
    → R (if b then x else y) (if b then x' else y')
if_Both R true x y = x
if_Both R false x y = y

module _ {S T : Type 0} (putch : ℕ → S → S) (putch' : ℕ → T → T) (R : S → T → Type 0)
    (kept : (c : ℕ) (s : S) (t : T) → R s t → R (putch c s) (putch' c t)) where
  -- Two functions that take related states to related states.
  abbrev Both : (S → S) → (T → T) → Type 0
  Both f g = (s : S) (t : T) → R s t → R (f s) (g t)

  pads-Both : (n c : ℕ) → Both (pads putch n c) (pads putch' n c)
  unfolding pads
  pads-Both zero c s t h = h
  pads-Both (suc n) c s t h = pads-Both n c _ _ (kept c _ _ h)

  put_all-Both : (str : List ℕ) → Both (put_all putch str) (put_all putch' str)
  unfolding put_all
  put_all-Both [] s t h = h
  put_all-Both (c ∷ str) s t h = put_all-Both str _ _ (kept c _ _ h)

  put_string-Both :
      (alt : Bool) (precision : Option ℕ) (str : List ℕ) (width : ℕ)
      → Both (put_string putch alt precision str width) (put_string putch' alt precision str width)
  unfolding put_string
  put_string-Both alt precision [] width s t h = pads-Both width 32 _ _ h
  put_string-Both alt none (c ∷ str) width s t h =
      put_string-Both alt none str (width - 1) _ _ (kept _ _ _ h)
  put_string-Both alt (some zero) (c ∷ str) width s t h = pads-Both width 32 _ _ h
  put_string-Both alt (some (suc n)) (c ∷ str) width s t h =
      put_string-Both alt (some n) str (width - 1) _ _ (kept _ _ _ h)

  print_digits-Both :
      (fuel num base width padc : ℕ)
      → Both
          (print_digits putch fuel num base width padc)
          (print_digits putch' fuel num base width padc)
  unfolding print_digits
  print_digits-Both zero num base width padc s t h = kept _ _ _ (pads-Both (width - 1) padc _ _ h)
  print_digits-Both (suc fuel) num base width padc s t h = kept _ _ _ (
      if_Both R (leb base num) (print_digits-Both fuel (num / base) base (width - 1) padc _ _ h)
        (pads-Both (width - 1) padc _ _ h))

  printnum-Both :
      (num base width padc : ℕ)
      → Both (printnum putch num base width padc) (printnum putch' num base width padc)
  unfolding printnum
  printnum-Both num base width padc s t h = print_digits-Both 64 num base width padc s t h

  string_field-Both :
      (f : Spec) (str : List ℕ) → Both (string_field putch f str) (string_field putch' f str)
  unfolding string_field
  string_field-Both f str s t h =
      if_Both R (ltb 0 (places f.width) && not (f.padc == 45))
        (put_string-Both f.altflag f.precision str 0 _ _
          (pads-Both (places f.width - shown_length str f.precision) f.padc _ _ h))
        (put_string-Both f.altflag f.precision str (places f.width) _ _ h)

  number_field-Both :
      (f : Spec) (base num : ℕ)
      → Both (number_field putch f base num) (number_field putch' f base num)
  unfolding number_field
  number_field-Both f base num s t h = printnum-Both num base (places f.width) f.padc _ _ h

  signed_field-Both :
      (f : Spec) (num : ℕ) → Both (signed_field putch f num) (signed_field putch' f num)
  unfolding signed_field
  signed_field-Both f num s t h =
      if_Both R (leb (2 ^ 63) num) (number_field-Both f 10 (2 ^ 64 - num) _ _ (kept 45 _ _ h))
        (number_field-Both f 10 num _ _ h)

  error_field-Both : (err : ℕ) → Both (error_field putch err) (error_field putch' err)
  unfolding error_field
  error_field-Both err s t h = go (if ltb err 9 then error_string err else none)
    where
      go :
          (o : Option (List ℕ))
          → R
              (elim o as (λ _. S) [
                | none ↦ number_field putch no_flags 10 err (put_all putch (bytes "error ") s)
                | some str ↦ string_field putch no_flags str s
              ])
              (elim o as (λ _. T) [
                | none ↦ number_field putch' no_flags 10 err (put_all putch' (bytes "error ") t)
                | some str ↦ string_field putch' no_flags str t
              ])
      go none = number_field-Both no_flags 10 err _ _ (put_all-Both (bytes "error ") _ _ h)
      go (some str) = string_field-Both no_flags str _ _ h

  -- The same for the states of the printers.
  abbrev Continues :
      {A : Type 0} → (A → Printer S → Printer S) → (A → Printer T → Printer T) → Type 0
  Continues {A} f g =
      (a : A) (p : Printer S) (q : Printer T) → Related R p q → Related R (f a p) (g a q)

  printed-Both :
      (f : S → S) (g : T → T) (p : Printer S) (q : Printer T)
      → Both f g
      → Related R p q
      → Related R (printed putch f p) (printed putch' g q)
  printed-Both f g p q b (related t h e) = related (g t) (b p.out t h) (ap (printed putch' g) e)

  undefined-Both :
      (p : Printer S) (q : Printer T)
      → Related R p q
      → Related R (undefined putch p) (undefined putch' q)
  undefined-Both p q (related t h e) = related t h (ap (undefined putch') e)

  rest-Both :
      (rest : List Arg) (p : Printer S) (q : Printer T)
      → Related R p q
      → Related R (record p { args = rest }) (record q { args = rest })
  rest-Both rest p q (related t h e) =
      related t h (ap (λ (q : Printer T). record q { args = rest }) e)

  take_flag-Both :
      (c : ℕ) (m : Mode) (f : Spec) (p : Printer S) (q : Printer T)
      → Related R p q
      → Related R (take_flag putch c m f p) (take_flag putch' c m f q)
  unfolding take_flag
  take_flag-Both c m f p q (related t h e) = related t h (ap (take_flag putch' c m f) e)

  with_int-Both :
      (args : List Arg) (f : ℕ → Printer S → Printer S) (g : ℕ → Printer T → Printer T)
      (p : Printer S) (q : Printer T)
      → Continues f g
      → Related R p q
      → Related R (with_int putch args f p) (with_int putch' args g q)
  unfolding with_int
  with_int-Both [] f g p q c h = undefined-Both p q h
  with_int-Both (word n ∷ rest) f g p q c h = c n _ _ (rest-Both rest p q h)
  with_int-Both (wide n ∷ rest) f g p q c h = undefined-Both p q h
  with_int-Both (string s ∷ rest) f g p q c h = undefined-Both p q h

  with_wide-Both :
      (args : List Arg) (f : ℕ → Printer S → Printer S) (g : ℕ → Printer T → Printer T)
      (p : Printer S) (q : Printer T)
      → Continues f g
      → Related R p q
      → Related R (with_wide putch args f p) (with_wide putch' args g q)
  unfolding with_wide
  with_wide-Both [] f g p q c h = undefined-Both p q h
  with_wide-Both (word n ∷ rest) f g p q c h = undefined-Both p q h
  with_wide-Both (wide n ∷ rest) f g p q c h = c n _ _ (rest-Both rest p q h)
  with_wide-Both (string s ∷ rest) f g p q c h = undefined-Both p q h

  with_string-Both :
      (args : List Arg) (f : Option (List ℕ) → Printer S → Printer S)
      (g : Option (List ℕ) → Printer T → Printer T) (p : Printer S) (q : Printer T)
      → Continues f g
      → Related R p q
      → Related R (with_string putch args f p) (with_string putch' args g q)
  unfolding with_string
  with_string-Both [] f g p q c h = undefined-Both p q h
  with_string-Both (word n ∷ rest) f g p q c h = undefined-Both p q h
  with_string-Both (wide n ∷ rest) f g p q c h = undefined-Both p q h
  with_string-Both (string s ∷ rest) f g p q c h = c s _ _ (rest-Both rest p q h)

  getuint-Both :
      (f : ℕ → Printer S → Printer S) (g : ℕ → Printer T → Printer T) (p : Printer S) (t : T)
      → Continues f g
      → R p.out t
      → Related R (getuint putch f p) (getuint putch' g (with_out p t))
  unfolding getuint
  getuint-Both f g p t c h =
      if_Both (Related R) (leb 2 p.spec.lflag) (with_wide-Both p.args f g p _ c (related t h refl))
        (with_int-Both p.args f g p _ c (related t h refl))

  getint-Both :
      (f : ℕ → Printer S → Printer S) (g : ℕ → Printer T → Printer T) (p : Printer S) (t : T)
      → Continues f g
      → R p.out t
      → Related R (getint putch f p) (getint putch' g (with_out p t))
  unfolding getint
  getint-Both f g p t c h =
      if_Both (Related R) (leb 2 p.spec.lflag) (with_wide-Both p.args f g p _ c (related t h refl))
        (with_int-Both p.args (λ n. f (widened n)) (λ n. g (widened n)) p _ (λ n. c (widened n))
          (related t h refl))

  error-Both :
      Continues
        (λ n q.
          if n == 2 ^ 31
          then undefined putch q
          else printed putch (error_field putch (if leb (2 ^ 31) n then 2 ^ 32 - n else n)) q)
        (λ n q.
          if n == 2 ^ 31
          then undefined putch' q
          else printed putch' (error_field putch' (if leb (2 ^ 31) n then 2 ^ 32 - n else n)) q)
  error-Both n p q h =
      if_Both (Related R) (n == 2 ^ 31) (undefined-Both p q h)
        (printed-Both _ _ p q (error_field-Both _) h)

  convert-Both :
      (c : ℕ) (p : Printer S) (t : T)
      → R p.out t
      → Related R (convert putch c p) (convert putch' c (with_out p t))
  unfolding convert
  convert-Both c p t h =
      if_Both (Related R) (c == 99)
        (with_int-Both p.args _ _ p _ (λ n q q'. printed-Both _ _ q q' (kept n)) start)
        (if_Both (Related R) (c == 101) (with_int-Both p.args _ _ p _ error-Both start) (
          if_Both (Related R) (c == 115)
            (with_string-Both p.args _ _ p _
              (λ str q q'. printed-Both _ _ q q' (string_field-Both p.spec (or_null putch str)))
              start)
            (if_Both (Related R) (c == 100)
              (getint-Both _ _ p t (λ n q q'. printed-Both _ _ q q' (signed_field-Both p.spec n)) h)
              (if_Both (Related R) (c == 117)
                (getuint-Both _ _ p t
                  (λ n q q'. printed-Both _ _ q q' (number_field-Both p.spec 10 n)) h)
                (if_Both (Related R) (c == 111)
                  (getuint-Both _ _ p t
                    (λ n q q'. printed-Both _ _ q q' (number_field-Both p.spec 8 n)) h)
                  (if_Both (Related R) (c == 112)
                    (with_int-Both p.args _ _ p _
                      (λ n q q'.
                        printed-Both _ _ q q' (λ s t g.
                          number_field-Both p.spec 16 n _ _ (kept 120 _ _ (kept 48 _ _ g))))
                      start)
                    (if_Both (Related R) (c == 120)
                      (getuint-Both _ _ p t
                        (λ n q q'. printed-Both _ _ q q' (number_field-Both p.spec 16 n)) h)
                      (if_Both (Related R) (c == 37) (printed-Both _ _ p _ (kept c) start) (
                        printed-Both _ _ p _
                          (λ s t g. kept c _ _ (put_all-Both p.seen _ _ (kept 37 _ _ g)))
                          start)))))))))
    where
      start : Related R p (with_out p t)
      start = related t h refl

  escape-Both :
      (c : ℕ) (p : Printer S) (t : T)
      → R p.out t
      → Related R (escape putch c p) (escape putch' c (with_out p t))
  unfolding escape
  escape-Both c p t h = if_Both (Related R) (c == 45) (take_flag-Both _ _ _ p _ start) (
      if_Both (Related R) (c == 48) (take_flag-Both _ _ _ p _ start) (
        if_Both (Related R) (leb 49 c && leb c 57) (take_flag-Both _ _ _ p _ start) (
          if_Both (Related R) (c == 42)
            (with_int-Both p.args _ _ p _ (λ n q q'. take_flag-Both _ _ _ q q') start)
            (if_Both (Related R) (c == 46) (take_flag-Both _ _ _ p _ start) (
              if_Both (Related R) (c == 35) (take_flag-Both _ _ _ p _ start) (
                if_Both (Related R) (c == 108) (take_flag-Both _ _ _ p _ start)
                  (convert-Both c p t h)))))))
    where
      start : Related R p (with_out p t)
      start = related t h refl

  read_char-Both :
      (c : ℕ) (m : Mode) (p : Printer S) (t : T)
      → R p.out t
      → Related R (read_char putch c m p) (read_char putch' c m (with_out p t))
  unfolding read_char
  read_char-Both c text p t h =
      if_Both (Related R) (c == 37) (related t h refl) (related _ (kept c _ _ h) refl)
  read_char-Both c flags p t h = escape-Both c p t h
  read_char-Both c number p t h =
      if_Both (Related R) (leb 48 c && leb c 57) (take_flag-Both _ _ _ p _ (related t h refl))
        (escape-Both c (record p { spec = process_precision p.spec }) t h)

  pub read_all-Both :
      (fmt : List ℕ) (p : Printer S) (q : Printer T)
      → Related R p q
      → Related R (read_all putch fmt p) (read_all putch' fmt q)
  unfolding read_all
  read_all-Both [] p q h = h
  read_all-Both (c ∷ fmt) p q (related t h e) =
      subst
        (λ (q : Printer T). Related R (read_all putch (c ∷ fmt) p) (read_all putch' (c ∷ fmt) q)) e
        (read_all-Both fmt _ _ (read_char-Both c p.mode p t h))

  pub end_of_format-Both :
      (m : Mode) (p : Printer S) (q : Printer T)
      → Related R p q
      → Related R (end_of_format putch m p) (end_of_format putch' m q)
  unfolding end_of_format
  end_of_format-Both text p q h = h
  end_of_format-Both flags p q (related t h e) =
      subst
        (λ (q : Printer T). Related R (end_of_format putch flags p) (end_of_format putch' flags q))
        e
        (printed-Both _ _ p (with_out p t) (λ s t g. put_all-Both p.seen _ _ (kept 37 _ _ g))
          (related t h refl))
  end_of_format-Both number p q (related t h e) =
      subst
        (λ (q : Printer T).
          Related R (end_of_format putch number p) (end_of_format putch' number q))
        e
        (printed-Both _ _ p (with_out p t) (λ s t g. put_all-Both p.seen _ _ (kept 37 _ _ g))
          (related t h refl))
