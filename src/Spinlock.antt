-- ===== src/Spinlock.antt =====
-- spin_lock and spin_unlock of kern/spinlock.c on several CPUs, with DEBUG_SPINLOCK. A step is one
-- access to the lock by one CPU, and the CPUs take turns in any order. (The call stack in `pcs` is
-- left out: only a panic reads it.)
pub mod Exclusion
use library_os_exokernel_imp.Base.{
  ℕ, Bool, true, false, Option, none, some, if◌then◌else◌, same_ptr, update,
}

-- Where a CPU is: out of the lock; before it reads `locked` and `cpu` in holding; in the loop on
-- xchg; before it records itself; between spin_lock and spin_unlock; in holding once more; before
-- `cpu = 0` and before the last xchg; or in a panic.
pub data Place : Type 0 where
  outside locking locking_cpu spinning acquired inside unlocking unlocking_cpu releasing clearing
        stopped :
      Place

-- `struct spinlock`, and the place of each CPU.
pub record Spinlock : Type 0 where
  pub locked : Bool
  pub cpu : Option ℕ
  pub place : ℕ → Place

abbrev pub goes : ℕ → Place → Spinlock → Spinlock
goes i p l = record l { place = update l.place i p }

-- The next step of CPU `i`.
unfoldable pub move : Place → (i : ℕ) → Spinlock → Spinlock
move outside i l = goes i locking l
move locking i l = if l.locked then goes i locking_cpu l else goes i spinning l
move locking_cpu i l = if same_ptr l.cpu (some i) then goes i stopped l else goes i spinning l
move spinning i l = if l.locked then l else goes i acquired (record l { locked = true })
move acquired i l = goes i inside (record l { cpu = some i })
move inside i l = goes i unlocking l
move unlocking i l = if l.locked then goes i unlocking_cpu l else goes i stopped l
move unlocking_cpu i l = if same_ptr l.cpu (some i) then goes i releasing l else goes i stopped l
move releasing i l = goes i clearing (record l { cpu = none })
move clearing i l = goes i outside (record l { locked = false })
move stopped i l = l

unfoldable pub turn : (i : ℕ) → Spinlock → Spinlock
unfolding move
turn i l = move (l.place i) i l

-- __spin_initlock
abbrev pub initlock : Spinlock
initlock = record { locked = false; cpu = none; place = λ _. outside }

pub data Step (l : Spinlock) : Spinlock → Type 0 where
  by_cpu : (i : ℕ) → Step l (turn i l)

pub data Reach : Spinlock → Type 0 where
  started : Reach initlock
  after : {l m : Spinlock} → Reach l → Step l m → Reach m
