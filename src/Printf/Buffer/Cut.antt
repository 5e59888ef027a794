-- ===== src/Printf/Buffer/Cut.antt =====
-- What vsnprintf leaves in memory.
use mathlib.Core.Option.{map}
use library_os_exokernel_imp.Base.{
  ℕ, zero, suc, ◌+◌, ◌-◌, ◌%◌, ◌^◌, ◌≤◌, ◌<◌, ◌≡◌, refl, ap, sym, ◌∙◌, ◌⊎◌, true, false, ltb,
  Option, none, some, List, [], ◌∷◌, if◌then◌else◌, arith, update,
}
use library_os_exokernel_imp.Error.{Result, ok, err, inval}
use library_os_exokernel_imp.Mmu.{u32}
use library_os_exokernel_imp.Str.Memory.{Memory}
use library_os_exokernel_imp.Str.Chars.Compare.{cut}
use library_os_exokernel_imp.Str.Chars.Copy.{length, length-cut}
use library_os_exokernel_imp.Printf.Number.Decimal.{collect}
use library_os_exokernel_imp.Printf.Format.{Arg, vprintfmt, put_all}
use library_os_exokernel_imp.Printf.Format.Output.{vprintfmt-collect}
use library_os_exokernel_imp.Printf.Buffer.{
  SprintBuf, sprintputch, vsnprintf, null_terminated, less_than_one,
}

-- Memory with the bytes of a string from `a` on, and a '\0' after them.
unfoldable pub written : (a : ℕ) → List ℕ → Memory → Memory
written a [] m = update m a 0
written a (c ∷ s) m = written (a + 1) s (update m a (c % 256))

abbrev sprintbuf : (a room cnt : ℕ) → Memory → SprintBuf
sprintbuf a room cnt m = record { buf = a; ebuf = a + room; cnt = cnt; memory = m }

counted : (cnt : ℕ) → u32 (u32 cnt + 1) ≡ u32 (cnt + 1)
counted cnt = omega arith

-- A character that does not fit is counted alone.
sprintputch-full :
    (c a cnt : ℕ) (m : Memory)
    → sprintputch c (sprintbuf a 0 (u32 cnt) m) ≡ sprintbuf a 0 (u32 (cnt + 1)) m
unfolding sprintputch
sprintputch-full c a cnt m =
    ap
      (λ b.
        if b then sprintbuf' else record (sprintbuf a 0 (u32 cnt) m) { cnt = u32 (u32 cnt + 1) })
      full
    ∙ ap (λ n. sprintbuf a 0 n m) (counted cnt)
  where
    full : ltb a (a + 0) ≡ false
    full = ground arith

    sprintbuf' : SprintBuf
    sprintbuf' = record {
      buf = u32 (a + 1);
      ebuf = a + 0;
      cnt = u32 (u32 cnt + 1);
      memory = update m a (c % 256);
    }

sprintputch-room :
    (c a room cnt : ℕ) (m : Memory)
    → a + suc room < 2 ^ 32
    → sprintputch c (sprintbuf a (suc room) (u32 cnt) m)
      ≡ sprintbuf (a + 1) room (u32 (cnt + 1)) (update m a (c % 256))
unfolding sprintputch
sprintputch-room c a room cnt m h =
    ap
      (λ b.
        if b
        then stored (u32 (a + 1)) (a + suc room) (u32 (u32 cnt + 1))
        else record (sprintbuf a (suc room) (u32 cnt) m) { cnt = u32 (u32 cnt + 1) })
      fits
    ∙ ap (λ n. stored n (a + suc room) (u32 (u32 cnt + 1))) next
    ∙ ap (λ n. stored (a + 1) n (u32 (u32 cnt + 1))) end
    ∙ ap (stored (a + 1) (a + 1 + room)) (counted cnt)
  where
    stored : ℕ → ℕ → ℕ → SprintBuf
    stored buf ebuf cnt = record {
      buf = buf;
      ebuf = ebuf;
      cnt = cnt;
      memory = update m a (c % 256);
    }

    fits : ltb a (a + suc room) ≡ true
    fits = ground arith

    next : u32 (a + 1) ≡ a + 1
    next = omega arith

    end : a + suc room ≡ a + 1 + room
    end = omega arith

cut_none : (s : List ℕ) → cut 0 s ≡ []
unfolding cut
cut_none s = refl

put_all-written :
    (s : List ℕ) (a room cnt : ℕ) (m : Memory)
    → a + room < 2 ^ 32
    → null_terminated (put_all sprintputch s (sprintbuf a room (u32 cnt) m))
      ≡ (ok (u32 (cnt + length s)), written a (cut room s) m)
unfolding null_terminated put_all written cut
put_all-written [] a zero cnt m h =
    ap (λ n. (ok (u32 n), update m a 0)) (let e : cnt ≡ cnt + 0 = omega arith in e)
put_all-written [] a (suc room) cnt m h =
    ap (λ n. (ok (u32 n), update m a 0)) (let e : cnt ≡ cnt + 0 = omega arith in e)
put_all-written (c ∷ s) a zero cnt m h =
    ap (λ b. null_terminated (put_all sprintputch s b)) (sprintputch-full c a cnt m)
    ∙ put_all-written s a 0 (cnt + 1) m h
    ∙ ap (λ n. (ok (u32 n), written a (cut 0 s) m))
        (let e : cnt + 1 + length s ≡ cnt + (length s + 1) = omega arith in e)
    ∙ ap (λ t. (ok (u32 (cnt + (length s + 1))), written a t m)) (cut_none s)
put_all-written (c ∷ s) a (suc room) cnt m h =
    ap (λ b. null_terminated (put_all sprintputch s b)) (sprintputch-room c a room cnt m h)
    ∙ put_all-written s (a + 1) room (cnt + 1) (update m a (c % 256)) (omega arith)
    ∙ ap (λ n. (ok (u32 n), written (a + 1) (cut room s) (update m a (c % 256))))
        (let e : cnt + 1 + length s ≡ cnt + (length s + 1) = omega arith in e)

-- For a buffer of `n` bytes that ends within the address space, vsnprintf writes as much of what
-- vprintfmt prints as leaves room for the '\0', then the '\0', and returns how many characters
-- vprintfmt prints (mod 2 ^ 32), whether or not they fit.
pub vsnprintf-cut :
    (buf n : ℕ) (fmt : List ℕ) (args : List Arg) (m : Memory)
    → 1 ≤ n
    → n < 2 ^ 31
    → buf + n ≤ 2 ^ 32
    → vsnprintf (some buf) n fmt args m
      ≡ map
          (λ s. (ok (u32 (length s)), written buf (cut (n - 1) s) m))
          (vprintfmt collect fmt args [])
unfolding vsnprintf
vsnprintf-cut buf n fmt args m pos small fits =
    ap (λ b. if b then some (err inval, m) else print (u32 (buf + n + (2 ^ 32 - 1)))) has_room
    ∙ ap print end
    ∙ ap (map null_terminated) (vprintfmt-collect sprintputch fmt args (sprintbuf buf (n - 1) 0 m))
    ∙ each (vprintfmt collect fmt args [])
  where
    print : ℕ → Option (Result × Memory)
    print ebuf =
        map null_terminated
          (vprintfmt sprintputch fmt args (record { buf = buf; ebuf = ebuf; cnt = 0; memory = m }))

    has_room : less_than_one n ≡ false
    has_room = ground arith

    end : u32 (buf + n + (2 ^ 32 - 1)) ≡ buf + (n - 1)
    end = omega arith

    each :
        (o : Option (List ℕ))
        → map null_terminated (map (λ s. put_all sprintputch s (sprintbuf buf (n - 1) 0 m)) o)
          ≡ map (λ s. (ok (u32 (length s)), written buf (cut (n - 1) s) m)) o
    each none = refl
    each (some s) = ap some (
        put_all-written s buf (n - 1) 0 m (omega arith)
        ∙ ap (λ k. (ok (u32 k), written buf (cut (n - 1) s) m))
            (let e : 0 + length s ≡ length s = omega arith in e))

-- The bytes before the buffer and after the '\0' stay as they are.
written-outside :
    (a : ℕ) (s : List ℕ) (m : Memory) (x : ℕ) → (x < a) ⊎ (a + length s < x) → written a s m x ≡ m x
unfolding written
written-outside a [] m x h = ground arith
written-outside a (c ∷ s) m x h =
    written-outside (a + 1) s (update m a (c % 256)) x (ground arith) ∙ ground arith

-- vsnprintf changes no byte outside the `n` bytes of its buffer, whatever the format and arguments.
pub vsnprintf-outside :
    (buf n : ℕ) (fmt : List ℕ) (args : List Arg) (m m' : Memory) (r : Result) (x : ℕ)
    → 1 ≤ n
    → n < 2 ^ 31
    → buf + n ≤ 2 ^ 32
    → (x < buf) ⊎ (buf + n ≤ x)
    → vsnprintf (some buf) n fmt args m ≡ some (r, m')
    → m' x ≡ m x
vsnprintf-outside buf n fmt args m m' r x pos small fits out e =
    each (vprintfmt collect fmt args []) (sym (vsnprintf-cut buf n fmt args m pos small fits) ∙ e)
  where
    each :
        (o : Option (List ℕ))
        → map {B = Result × Memory} (λ s. (ok (u32 (length s)), written buf (cut (n - 1) s) m)) o
          ≡ some (r, m')
        → m' x ≡ m x
    each none h = absurd (cc)
    each (some s) h =
        ap (λ o. memory_at o) (sym h)
        ∙ written-outside buf (cut (n - 1) s) m x (ground (arith, length-cut s (n - 1)))
      where
        memory_at : Option (Result × Memory) → ℕ
        memory_at none = 0
        memory_at (some t) = t.1 x
