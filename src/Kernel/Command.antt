-- ===== src/Kernel/Command.antt =====
-- How a kernel function ends. Some do not return: `panic` and a fault in the kernel stop the
-- machine, `env_run` leaves for user mode, and with nothing to run `sched_yield` stays in the
-- monitor.
use library_os_exokernel_imp.Base.{
  arith, Bool, true, false, ◌≡◌, refl, Option, none, some, if◌then◌else◌,
}
use library_os_exokernel_imp.Kernel.{Kernel}

pub data Outcome (A : Type 0) : Type 0 where
  -- the function returns
  returned : A → Kernel → Outcome A
  -- the CPU has entered user mode in `curenv`
  running : Kernel → Outcome A
  -- the loop `while (1) monitor(NULL)`
  monitoring : Kernel → Outcome A
  panicked : Outcome A
  out_of_fuel : Outcome A

-- The function does not return to its caller.
abbrev pub leaves : {A : Type 0} → Outcome A → Bool
leaves (returned _ _) = false
leaves (running _) = true
leaves (monitoring _) = true
leaves panicked = true
leaves out_of_fuel = false

abbrev pub Command : Type 0 → Type 0
Command A = Kernel → Outcome A

abbrev pub pure : {A : Type 0} → A → Command A
pure = returned

module _ {A B : Type 0} where
  abbrev pub and_then : Outcome A → (A → Command B) → Outcome B
  and_then (returned a k) f = f a k
  and_then (running k) f = running k
  and_then (monitoring k) f = monitoring k
  and_then panicked f = panicked
  and_then out_of_fuel f = out_of_fuel

  -- What follows a function that does not return is of no account.
  pub and_then-leaves :
      (o : Outcome A) (f g : A → Command B) → leaves o ≡ true → and_then o f ≡ and_then o g
  and_then-leaves (returned a k) f g h = ground arith
  and_then-leaves (running k) f g h = refl
  and_then-leaves (monitoring k) f g h = refl
  and_then-leaves panicked f g h = refl
  and_then-leaves out_of_fuel f g h = ground arith

  infixl 5 ◌>>=◌ ◌>>◌
  abbrev pub ◌>>=◌ : Command A → (A → Command B) → Command B
  m >>= f = λ k. and_then (m k) f

  abbrev pub ◌>>◌ : Command A → Command B → Command B
  m >> n = m >>= λ _. n

abbrev pub panic : {A : Type 0} → Command A
panic = λ _. panicked

abbrev pub reads : {A : Type 0} → (Kernel → A) → Command A
reads f = λ k. returned (f k) k

abbrev pub modify : (Kernel → Kernel) → Command (Unit {0})
modify f = λ k. returned tt (f k)

abbrev pub done : Command (Unit {0})
done = pure tt

abbrev pub when : Bool → Command (Unit {0}) → Command (Unit {0})
when b m = if b then m else done

-- A read through a pointer that is NULL is a page fault in the kernel, which panics.
abbrev pub non_null : {A : Type 0} → Option A → Command A
non_null none = panic
non_null (some a) = pure a
