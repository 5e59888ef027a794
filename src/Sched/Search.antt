-- ===== src/Sched/Search.antt =====
-- sched_yield: the environment that it runs.
use library_os_exokernel_imp.Base.{
  ℕ, zero, suc, ◌+◌, ◌%◌, ◌≤◌, ◌<◌, ◌≡◌, refl, ap, ◌∙◌, inl, inr, true, false, ◌||◌, some, ◌==◌,
  if◌then◌else◌, Bool-cases, arith,
}
use library_os_exokernel_imp.Kernel.{Kernel, Env, env_runnable, env_running}
use library_os_exokernel_imp.Kernel.Command.{panic, monitoring, leaves}
use library_os_exokernel_imp.Env.Run.{env_run, demote}
use library_os_exokernel_imp.Env.Run.Enter.{leaves-env_run}
use library_os_exokernel_imp.Sched.{
  eligible, is_idle, active, any_active, run_idle, none_runnable, wrap, search_from, start,
  sched_yield,
}
use library_os_exokernel_imp.Sched.Order.{
  search_from-here, search_from-skip, search_from-none, search_from-eligible,
  search_from-ineligible, sched_yield-search, start-le, IsEligible, IsActive, eligible-IsEligible,
  eligible-other, active-IsActive, active-other, Begins, start-Begins, CanRun, Rested,
  Rested-demote, CanRun-Rested,
}

-- sched_yield is round robin. With `curenv` an element of `envs`, or NULL, it runs the first
-- environment in the circular order of `envs` that is a user environment and ENV_RUNNABLE, or
-- `curenv` and ENV_RUNNING. The order begins after `curenv`, if that was running, at `curenv`
-- itself, if it was not (though the comment in the code has the search begin after it), and at 0
-- where `curenv` is NULL. Until then a `curenv` that was running has become ENV_RUNNABLE, and
-- nothing else has changed.
pub sched_yield-env_run :
    (k : Kernel) (i d : ℕ)
    → Begins k i
    → ((c : ℕ) → k.curenv ≡ some c → c < 1024)
    → d < 1024
    → CanRun k ((i + d) % 1024)
    → ((j : ℕ) → j < d → ¬ CanRun k ((i + j) % 1024))
    → (k' : Kernel) × (sched_yield k ≡ env_run ((i + d) % 1024) k') × Rested k k'
sched_yield-env_run k i d begins h lt fits skip =
    let s = start-Begins k i begins in
    let k' = demote k.curenv k in
    let r = Rested-demote k in
    (
      k',
      sched_yield-search k
          ∙ ap (λ n. search_from 1024 n k') s
          ∙ search_from-eligible d 1024 i k' lt (omega (arith, s, start-le k.curenv k h))
              (eligible-IsEligible (k'.envs ((i + d) % 1024))
                ((CanRun-Rested ((i + d) % 1024) r).1 fits))
              (λ j below.
                eligible-other (k'.envs ((i + j) % 1024))
                  (λ el. skip j below ((CanRun-Rested ((i + j) % 1024) r).0 el))),
      r,
    )

any_active-active :
    (n i j : ℕ) (envs : ℕ → Env)
    → i ≤ j
    → j < i + n
    → active (envs j) ≡ true
    → any_active n i envs ≡ true
unfolding any_active
any_active-active zero i j envs lo hi h = absurd (omega arith)
any_active-active (suc n) i j envs lo hi h = elim (Bool-cases (i == j)) [
  | inl e ↦ ground arith
  | inr e ↦ ground (arith, any_active-active n (i + 1) j envs (ground arith) (omega arith) h)
]

any_active-inactive :
    (n i : ℕ) (envs : ℕ → Env)
    → ((j : ℕ) → j < i + n → active (envs j) ≡ false)
    → any_active n i envs ≡ false
unfolding any_active
any_active-inactive zero i envs h = refl
any_active-inactive (suc n) i envs h =
    ground (arith, h i, any_active-inactive n (i + 1) envs (λ j lt. h j (omega arith)))

active-eligible : (v : Env) → active v ≡ false → eligible v ≡ false
active-eligible v h = elim (Bool-cases (is_idle v.env_type)) [
  | inl e ↦ ground arith
  | inr e ↦ ground arith
]

sched_yield-none :
    (k : Kernel)
    → ((c : ℕ) → k.curenv ≡ some c → c < 1024)
    → ((i : ℕ) → i < 1024 → eligible ((demote k.curenv k).envs i) ≡ false)
    → sched_yield k ≡ none_runnable (demote k.curenv k)
sched_yield-none k h idle_all =
    sched_yield-search k
    ∙ search_from-ineligible 1024 (start k.curenv k) (demote k.curenv k) (start-le k.curenv k h)
        (λ j lt. idle_all ((start k.curenv k + j) % 1024) (omega arith))

none_runnable-inactive :
    (k : Kernel) → any_active 1024 0 k.envs ≡ false → none_runnable k ≡ monitoring k
unfolding none_runnable
none_runnable-inactive k h = ap (λ b. (if b then run_idle else monitoring) k) h

none_runnable-active : (k : Kernel) → any_active 1024 0 k.envs ≡ true → none_runnable k ≡ run_idle k
unfolding none_runnable
none_runnable-active k h = ap (λ b. (if b then run_idle else monitoring) k) h

run_idle-runnable :
    (k : Kernel) → (k.envs k.cpunum).env_status ≡ env_runnable → run_idle k ≡ env_run k.cpunum k
unfolding run_idle
run_idle-runnable k h =
    ap (λ s. (if (s == env_runnable) || (s == env_running) then env_run k.cpunum else panic) k) h

-- With `curenv` an element of `envs`, or NULL, and no user environment runnable, nor running once
-- `curenv` is no longer so, sched_yield stays in the monitor.
pub sched_yield-monitoring :
    (k : Kernel)
    → ((c : ℕ) → k.curenv ≡ some c → c < 1024)
    → ((i : ℕ) → i < 1024 → ¬ IsActive ((demote k.curenv k).envs i))
    → sched_yield k ≡ monitoring (demote k.curenv k)
sched_yield-monitoring k h quiet =
    let k' = demote k.curenv k in
    let inactive = λ (i : ℕ) (lt : i < 1024). active-other (k'.envs i) (quiet i lt) in
    sched_yield-none k h (λ i lt. active-eligible (k'.envs i) (inactive i lt))
    ∙ none_runnable-inactive k' (any_active-inactive 1024 0 k'.envs inactive)

-- With `curenv` an element of `envs`, or NULL, and no user environment runnable, but one, `j`,
-- that runs on another CPU, sched_yield runs the idle environment of this CPU, where that is
-- runnable.
pub sched_yield-idle :
    (k : Kernel) (j : ℕ)
    → ((c : ℕ) → k.curenv ≡ some c → c < 1024)
    → ((i : ℕ) → i < 1024 → ¬ IsEligible ((demote k.curenv k).envs i))
    → j < 1024
    → IsActive ((demote k.curenv k).envs j)
    → ((demote k.curenv k).envs (demote k.curenv k).cpunum).env_status ≡ env_runnable
    → sched_yield k ≡ env_run (demote k.curenv k).cpunum (demote k.curenv k)
sched_yield-idle k j h none_eligible lt act own =
    let k' = demote k.curenv k in
    sched_yield-none k h (λ i below. eligible-other (k'.envs i) (none_eligible i below))
    ∙ none_runnable-active k'
        (any_active-active 1024 0 j k'.envs (omega arith) lt (active-IsActive (k'.envs j) act))
    ∙ run_idle-runnable k' own

leaves-run_idle : (k : Kernel) → leaves (run_idle k) ≡ true
unfolding run_idle
leaves-run_idle k =
    elim (Bool-cases (
      ((k.envs k.cpunum).env_status == env_runnable)
      || ((k.envs k.cpunum).env_status == env_running))) [
        | inl ready ↦
            ap (λ b. leaves ((if b then env_run k.cpunum else panic) k)) ready
            ∙ leaves-env_run k k.cpunum
        | inr stopped ↦ ap (λ b. leaves ((if b then env_run k.cpunum else panic) k)) stopped
      ]

leaves-none_runnable : (k : Kernel) → leaves (none_runnable k) ≡ true
leaves-none_runnable k = elim (Bool-cases (any_active 1024 0 k.envs)) [
  | inl some_active ↦ ap leaves (none_runnable-active k some_active) ∙ leaves-run_idle k
  | inr quiet ↦ ap leaves (none_runnable-inactive k quiet)
]

leaves-search_from : (n i : ℕ) (k : Kernel) → leaves (search_from n i k) ≡ true
leaves-search_from zero i k = ap leaves (search_from-none i k) ∙ leaves-none_runnable k
leaves-search_from (suc n) i k = elim (Bool-cases (eligible (k.envs (wrap i)))) [
  | inl fits ↦ ap leaves (search_from-here n i k fits) ∙ leaves-env_run k (wrap i)
  | inr skipped ↦ ap leaves (search_from-skip n i k skipped) ∙ leaves-search_from n (wrap i + 1) k
]

-- sched_yield ends, and never by a return to its caller.
pub leaves-sched_yield : (k : Kernel) → leaves (sched_yield k) ≡ true
leaves-sched_yield k =
    ap leaves (sched_yield-search k)
    ∙ leaves-search_from 1024 (start k.curenv k) (demote k.curenv k)
