-- ===== src/Spinlock/Exclusion.antt =====
-- Mutual exclusion by the spin lock, and that a free lock is taken.
use mathlib.Core.Path.{subst}
use library_os_exokernel_imp.Base.{
  ℕ, ◌≡◌, refl, ap, sym, ◌∙◌, ◌≢◌, inl, inr, Bool, true, false, Option, none, some, ◌==◌,
  if◌then◌else◌, same_ptr, update, arith, Bool-cases, ==_refl, ==_false,
}
use library_os_exokernel_imp.Spinlock.{
  Place, outside, locking, locking_cpu, spinning, acquired, inside, unlocking, unlocking_cpu,
  releasing, clearing, stopped, Spinlock, goes, move, turn, by_cpu, Reach, started, after,
}

-- The CPU has not got the lock.
abbrev pub waits : Place → Bool
waits outside = true
waits locking = true
waits locking_cpu = true
waits spinning = true
waits _ = false

-- The CPU has the lock.
abbrev pub holds : Place → Bool
holds acquired = true
holds inside = true
holds unlocking = true
holds unlocking_cpu = true
holds releasing = true
holds clearing = true
holds _ = false

-- What the owner has written to `cpu`.
abbrev cpu_of : Place → ℕ → Option ℕ
cpu_of acquired o = none
cpu_of clearing o = none
cpu_of _ o = some o

data IsExclusive (l : Spinlock) : Type 0 where
  free : l.locked ≡ false → l.cpu ≡ none → ((i : ℕ) → waits (l.place i) ≡ true) → IsExclusive l
  owned :
      (o : ℕ)
      → l.locked ≡ true
      → holds (l.place o) ≡ true
      → l.cpu ≡ cpu_of (l.place o) o
      → ((i : ℕ) → i ≢ o → waits (l.place i) ≡ true)
      → IsExclusive l

waits_holds : (p : Place) → waits p ≡ true → holds p ≡ true → ⊥
waits_holds outside w h = ground arith
waits_holds locking w h = ground arith
waits_holds locking_cpu w h = ground arith
waits_holds spinning w h = ground arith
waits_holds acquired w h = ground arith
waits_holds inside w h = ground arith
waits_holds unlocking w h = ground arith
waits_holds unlocking_cpu w h = ground arith
waits_holds releasing w h = ground arith
waits_holds clearing w h = ground arith
waits_holds stopped w h = ground arith

update-other : (f : ℕ → Place) (i j : ℕ) (p : Place) → j ≢ i → update f i p j ≡ f j
update-other f i j p n = ap (λ b. if b then p else f j) (==_false i j (λ e. n (sym e)))

update-same : (f : ℕ → Place) (i : ℕ) (p : Place) → update f i p i ≡ p
update-same f i p = ap (λ b. if b then p else f i) (==_refl i)

waits-goes :
    (i : ℕ) (p : Place) (f : ℕ → Place)
    → waits p ≡ true
    → ((j : ℕ) → j ≢ i → waits (f j) ≡ true)
    → (j : ℕ) → waits (update f i p j) ≡ true
waits-goes i p f wp rest j = elim (Bool-cases (i == j)) [
  | inl same ↦ ap (λ b. waits (if b then p else f j)) same ∙ wp
  | inr other ↦ ap (λ b. waits (if b then p else f j)) other ∙ rest j (λ e. ground arith)
]

-- CPU `i` is the owner.
abbrev Owns : ℕ → Spinlock → Type 0
Owns i l =
    (l.locked ≡ true)
    × (l.cpu ≡ cpu_of (l.place i) i)
    × ((j : ℕ) → j ≢ i → waits (l.place j) ≡ true)

owner : (i : ℕ) (l : Spinlock) → holds (l.place i) ≡ true → IsExclusive l → Owns i l
owner i l h (free un cl all) = absurd (waits_holds (l.place i) (all i) h)
owner i l h (owned o is ho c rest) = elim (Bool-cases (i == o)) [
  | inl same ↦ (is, ground arith, λ j n. rest j (λ e. ground arith))
  | inr other ↦ absurd (waits_holds (l.place i) (rest i (λ e. ground arith)) h)
]

-- The owner goes on with the lock.
owner-goes :
    (i : ℕ) (p : Place) (c : Option ℕ) (l : Spinlock)
    → holds p ≡ true
    → c ≡ cpu_of p i
    → l.locked ≡ true
    → ((j : ℕ) → j ≢ i → waits (l.place j) ≡ true)
    → IsExclusive (goes i p (record l { cpu = c }))
owner-goes i p c l hp e is rest =
    owned i is (ap holds (update-same l.place i p) ∙ hp)
      (e ∙ ap (λ q. cpu_of q i) (sym (update-same l.place i p)))
      (λ j n. ap waits (update-other l.place i j p n) ∙ rest j n)

-- A CPU that waits goes on waiting.
waiter-goes :
    (i : ℕ) (p : Place) (l : Spinlock)
    → waits (l.place i) ≡ true
    → waits p ≡ true
    → IsExclusive l
    → IsExclusive (goes i p l)
waiter-goes i p l w wp (free un cl all) = free un cl (waits-goes i p l.place wp (λ j n. all j))
waiter-goes i p l w wp (owned o is h c rest) =
    owned o is (ap holds same ∙ h) (c ∙ ap (λ q. cpu_of q o) (sym same)) (λ j n.
      elim (Bool-cases (i == j)) [
        | inl own ↦ ap (λ b. waits (if b then p else l.place j)) own ∙ wp
        | inr differ ↦ ap (λ b. waits (if b then p else l.place j)) differ ∙ rest j n
      ])
  where
    other : o ≢ i
    other e = waits_holds (l.place o) (ap (λ q. waits (l.place q)) e ∙ w) h

    same : update l.place i p o ≡ l.place o
    same = update-other l.place i o p other

-- A CPU without the lock does not find itself in `cpu`.
cpu-other :
    (i : ℕ) (l : Spinlock)
    → waits (l.place i) ≡ true
    → IsExclusive l
    → same_ptr l.cpu (some i) ≡ false
cpu-other i l w (free un cl all) = ap (λ c. same_ptr c (some i)) cl
cpu-other i l w (owned o is h c rest) = ap (λ q. same_ptr q (some i)) c ∙ named (l.place o) h
  where
    other : o ≢ i
    other e = waits_holds (l.place o) (ap (λ q. waits (l.place q)) e ∙ w) h

    named : (p : Place) → holds p ≡ true → same_ptr (cpu_of p o) (some i) ≡ false
    named outside hp = ground arith
    named locking hp = ground arith
    named locking_cpu hp = ground arith
    named spinning hp = ground arith
    named acquired hp = refl
    named inside hp = ==_false o i other
    named unlocking hp = ==_false o i other
    named unlocking_cpu hp = ==_false o i other
    named releasing hp = ==_false o i other
    named clearing hp = refl
    named stopped hp = ground arith

either :
    (b : Bool) {l m : Spinlock} → IsExclusive l → IsExclusive m → IsExclusive (if b then l else m)
either true l m = l
either false l m = m

acquires :
    (i : ℕ) (l : Spinlock)
    → l.place i ≡ spinning
    → IsExclusive l
    → IsExclusive (if l.locked then l else goes i acquired (record l { locked = true }))
acquires i l e (free un cl all) =
    subst IsExclusive
      (ap (λ b. if b then l else goes i acquired (record l { locked = true })) (sym un))
      (owned i refl (ap holds (update-same l.place i acquired))
        (cl ∙ ap (λ q. cpu_of q i) (sym (update-same l.place i acquired)))
        (λ j n. ap waits (update-other l.place i j acquired n) ∙ all j))
acquires i l e (owned o is h c rest) =
    subst IsExclusive
      (ap (λ b. if b then l else goes i acquired (record l { locked = true })) (sym is))
      (owned o is h c rest)

move-IsExclusive :
    (p : Place) (i : ℕ) (l : Spinlock) → l.place i ≡ p → IsExclusive l → IsExclusive (move p i l)
unfolding move
move-IsExclusive outside i l e x = waiter-goes i locking l (ap waits e) refl x
move-IsExclusive locking i l e x =
    either l.locked (waiter-goes i locking_cpu l (ap waits e) refl x)
      (waiter-goes i spinning l (ap waits e) refl x)
move-IsExclusive locking_cpu i l e x =
    subst IsExclusive
      (ap (λ b. if b then goes i stopped l else goes i spinning l)
        (sym (cpu-other i l (ap waits e) x)))
      (waiter-goes i spinning l (ap waits e) refl x)
move-IsExclusive spinning i l e x = acquires i l e x
move-IsExclusive acquired i l e x =
    let own : Owns i l = owner i l (ap holds e) x in
    owner-goes i inside (some i) l refl refl own.0 own.2
move-IsExclusive inside i l e x =
    let own : Owns i l = owner i l (ap holds e) x in
    owner-goes i unlocking l.cpu l refl (own.1 ∙ ap (λ q. cpu_of q i) e) own.0 own.2
move-IsExclusive unlocking i l e x =
    let own : Owns i l = owner i l (ap holds e) x in
    subst IsExclusive (ap (λ b. if b then goes i unlocking_cpu l else goes i stopped l) (sym own.0))
      (owner-goes i unlocking_cpu l.cpu l refl (own.1 ∙ ap (λ q. cpu_of q i) e) own.0 own.2)
move-IsExclusive unlocking_cpu i l e x =
    let own : Owns i l = owner i l (ap holds e) x in
    let mine : l.cpu ≡ some i = own.1 ∙ ap (λ q. cpu_of q i) e in
    subst IsExclusive
      (ap (λ b. if b then goes i releasing l else goes i stopped l)
        (sym (ap (λ c. same_ptr c (some i)) mine ∙ ==_refl i)))
      (owner-goes i releasing l.cpu l refl mine own.0 own.2)
move-IsExclusive releasing i l e x =
    let own : Owns i l = owner i l (ap holds e) x in
    owner-goes i clearing none l refl refl own.0 own.2
move-IsExclusive clearing i l e x =
    let own : Owns i l = owner i l (ap holds e) x in
    free refl (own.1 ∙ ap (λ q. cpu_of q i) e) (waits-goes i outside l.place refl own.2)
move-IsExclusive stopped i l e x = x

Reach-IsExclusive : {l : Spinlock} → Reach l → IsExclusive l
unfolding turn
Reach-IsExclusive started = free refl refl (λ i. refl)
Reach-IsExclusive (after {l} r (by_cpu i)) =
    move-IsExclusive (l.place i) i l refl (Reach-IsExclusive r)

exclusive :
    (i j : ℕ) (l : Spinlock)
    → holds (l.place i) ≡ true
    → holds (l.place j) ≡ true
    → IsExclusive l
    → i ≡ j
exclusive i j l hi hj (free un cl all) = absurd (waits_holds (l.place i) (all i) hi)
exclusive i j l hi hj (owned o is h c rest) = at_owner i hi ∙ sym (at_owner j hj)
  where
    at_owner : (q : ℕ) → holds (l.place q) ≡ true → q ≡ o
    at_owner q hq = elim (Bool-cases (q == o)) [
      | inl same ↦ ground arith
      | inr other ↦ absurd (waits_holds (l.place q) (rest q (λ e. ground arith)) hq)
    ]

never_stopped : (i : ℕ) (l : Spinlock) → IsExclusive l → l.place i ≢ stopped
never_stopped i l (free un cl all) e = ground (arith, sym (all i) ∙ ap waits e)
never_stopped i l (owned o is h c rest) e = elim (Bool-cases (i == o)) [
  | inl same ↦
      ground (
        arith,
        sym h ∙ ap (λ q. holds (l.place q)) (let t : o ≡ i = ground arith in t) ∙ ap holds e,
      )
  | inr other ↦ ground (arith, sym (rest i (λ t. ground arith)) ∙ ap waits e)
]

-- However the steps of the CPUs are interleaved, two of them are never in possession of the lock,
-- from the exchange that takes it to the one that gives it back, and no CPU panics in spin_lock or
-- spin_unlock, where each CPU calls spin_unlock after spin_lock.
pub exclusion :
    (l : Spinlock)
    → Reach l
    → ((i j : ℕ) → holds (l.place i) ≡ true → holds (l.place j) ≡ true → i ≡ j)
      × ((i : ℕ) → l.place i ≢ stopped)
exclusion l r = (
  λ i j hi hj. exclusive i j l hi hj (Reach-IsExclusive r),
  λ i. never_stopped i l (Reach-IsExclusive r),
)

unlocked : (l : Spinlock) → ((j : ℕ) → waits (l.place j) ≡ true) → IsExclusive l → l.locked ≡ false
unlocked l all (free un cl w) = un
unlocked l all (owned o is h c rest) = absurd (waits_holds (l.place o) (all o) h)

-- While no CPU has the lock, the next exchange of any CPU that waits in the loop takes it.
pub turn-acquired :
    (l : Spinlock) (i : ℕ)
    → Reach l
    → ((j : ℕ) → waits (l.place j) ≡ true)
    → l.place i ≡ spinning
    → (turn i l).place i ≡ acquired
unfolding turn move
turn-acquired l i r all e =
    ap (λ p. (move p i l).place i) e
    ∙ ap (λ b. (if b then l else goes i acquired (record l { locked = true })).place i)
        (unlocked l all (Reach-IsExclusive r))
    ∙ update-same l.place i acquired
