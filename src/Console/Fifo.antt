-- ===== src/Console/Fifo.antt =====
-- The input buffer is a queue.
use library_os_exokernel_imp.Base.{
  Bool-cases, inl, inr, ℕ, ◌+◌, ◌%◌, ◌<◌, ◌≡◌, refl, ap, sym, ◌∙◌, true, false, ◌==◌, List, [], ◌∷◌,
  ◌++◌, if◌then◌else◌, update, arith,
}
use mathlib.Core.Path.{subst}
use library_os_exokernel_imp.Console.{Cons, step, put, take_next, cons_intr, cons_getc}

abbrev pub length : List ℕ → ℕ
length [] = 0
length (_ ∷ s) = length s + 1

-- The characters stand in the buffer from `pos` on.
unfoldable pub Holds : (ℕ → ℕ) → ℕ → List ℕ → Type 0
Holds buf pos [] = Unit
Holds buf pos (c ∷ s) = (buf pos ≡ c) × Holds buf (step pos) s

-- The characters that wait, the oldest first.
pub record IsQueue (cons : Cons) (s : List ℕ) : Type 0 where
  pub reads : cons.rpos < 512
  pub writes : cons.wpos ≡ (cons.rpos + length s) % 512
  pub room : length s < 512
  pub holds : Holds cons.buf cons.rpos s

Holds-put :
    (buf : ℕ → ℕ) (pos w b : ℕ) (s : List ℕ)
    → pos < 512
    → w ≡ (pos + length s) % 512
    → length s < 512
    → Holds buf pos s
    → Holds (update buf w b) pos (s ++ b ∷ [])
unfolding Holds
Holds-put buf pos w b [] lt at room h = (ground arith, tt)
Holds-put buf pos w b (c ∷ s) lt at room (here, rest) =
    (ground arith, Holds-put buf (step pos) w b s (ground arith) (ground arith) (omega arith) rest)

length-append : (s : List ℕ) (b : ℕ) → length (s ++ b ∷ []) ≡ length s + 1
length-append [] b = refl
length-append (c ∷ s) b = ap (λ n. n + 1) (length-append s b)

IsQueue-put :
    (cons : Cons) (s : List ℕ) (c : ℕ)
    → length s < 511
    → IsQueue cons s
    → IsQueue (put c cons) (s ++ c % 256 ∷ [])
IsQueue-put cons s c free q = record {
  reads = q.reads;
  writes = ground (arith, length-append s (c % 256), q.writes, q.reads);
  room = omega (arith, length-append s (c % 256));
  holds = Holds-put cons.buf cons.rpos cons.wpos (c % 256) s q.reads q.writes q.room q.holds;
}

-- What cons_intr keeps of the characters that a device gives.
unfoldable pub received : List ℕ → List ℕ
received [] = []
received (c ∷ ready) = if c == 0 then received ready else c % 256 ∷ received ready

append-one : (s : List ℕ) (b : ℕ) (t : List ℕ) → (s ++ b ∷ []) ++ t ≡ s ++ b ∷ t
append-one [] b t = refl
append-one (c ∷ s) b t = ap (λ u. c ∷ u) (append-one s b t)

append-none : (s : List ℕ) → s ++ [] ≡ s
append-none [] = refl
append-none (c ∷ s) = ap (λ u. c ∷ u) (append-none s)

IsQueue-same :
    {cons cons' : Cons} {s t : List ℕ} → cons ≡ cons' → s ≡ t → IsQueue cons s → IsQueue cons' t
IsQueue-same {cons} {cons'} {s} {t} e f q =
    subst (λ t'. IsQueue cons' t') f (subst (λ c. IsQueue c s) e q)

cons_intr-zero :
    (c : ℕ) (ready : List ℕ) (cons : Cons)
    → (c == 0) ≡ true
    → (cons_intr (c ∷ ready) cons ≡ cons_intr ready cons) × (received (c ∷ ready) ≡ received ready)
unfolding cons_intr received
cons_intr-zero c ready cons h = (
  ap (λ b. if b then cons_intr ready cons else cons_intr ready (put c cons)) h,
  ap (λ b. if b then received ready else c % 256 ∷ received ready) h,
)

cons_intr-char :
    (c : ℕ) (ready : List ℕ) (cons : Cons)
    → (c == 0) ≡ false
    → (cons_intr (c ∷ ready) cons ≡ cons_intr ready (put c cons))
      × (received (c ∷ ready) ≡ c % 256 ∷ received ready)
unfolding cons_intr received
cons_intr-char c ready cons h = (
  ap (λ b. if b then cons_intr ready cons else cons_intr ready (put c cons)) h,
  ap (λ b. if b then received ready else c % 256 ∷ received ready) h,
)

-- While the buffer has room cons_intr appends the characters that the device gives, but for the
-- zeros, to those that wait, in their order.
pub IsQueue-cons_intr :
    (ready : List ℕ) (cons : Cons) (s : List ℕ)
    → length s + length (received ready) < 512
    → IsQueue cons s
    → IsQueue (cons_intr ready cons) (s ++ received ready)
unfolding cons_intr received
IsQueue-cons_intr [] cons s room q = IsQueue-same refl (sym (append-none s)) q
IsQueue-cons_intr (c ∷ ready) cons s room q = elim (Bool-cases (c == 0)) [
  | inl nul ↦
      let e = cons_intr-zero c ready cons nul in
      let n = ap length e.1 in
      IsQueue-same (sym e.0) (ap (λ r. s ++ r) (sym e.1))
        (IsQueue-cons_intr ready cons s (omega (arith, n)) q)
  | inr char ↦
      let e = cons_intr-char c ready cons char in
      let n : length (received (c ∷ ready)) ≡ length (received ready) + 1 = ap length e.1 in
      IsQueue-same (sym e.0) (append-one s (c % 256) (received ready) ∙ ap (λ r. s ++ r) (sym e.1))
        (IsQueue-cons_intr ready (put c cons) (s ++ c % 256 ∷ [])
          (omega (arith, n, length-append s (c % 256))) (IsQueue-put cons s c (omega (arith, n)) q))
]

take_next-oldest :
    (cons : Cons) (c : ℕ) (s : List ℕ)
    → IsQueue cons (c ∷ s)
    → (cons' : Cons) × (take_next cons ≡ (c, cons')) × IsQueue cons' s
unfolding take_next Holds
take_next-oldest cons c s q =
    let differ : (cons.rpos == cons.wpos) ≡ false = ground (arith, q.writes, q.reads, q.room) in
    (
      record cons { rpos = step cons.rpos },
      ap (λ b. if b then (0, cons) else (cons.buf cons.rpos, record cons { rpos = step cons.rpos }))
            differ
          ∙ ap (λ x. (x, record cons { rpos = step cons.rpos })) q.holds.0,
      record {
        reads = ground (arith, q.reads);
        writes = ground (arith, q.writes, q.reads, q.room);
        room = omega (arith, q.room);
        holds = q.holds.1;
      },
    )

-- Where a character waits once the devices have been polled, cons_getc returns the oldest and
-- leaves the others.
pub cons_getc-oldest :
    (serial kbd : List ℕ) (cons : Cons) (c : ℕ) (s : List ℕ)
    → IsQueue (cons_intr kbd (cons_intr serial cons)) (c ∷ s)
    → (cons' : Cons) × (cons_getc serial kbd cons ≡ (c, cons')) × IsQueue cons' s
unfolding cons_getc
cons_getc-oldest serial kbd cons c s q =
    take_next-oldest (cons_intr kbd (cons_intr serial cons)) c s q
