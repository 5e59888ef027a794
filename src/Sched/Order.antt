-- ===== src/Sched/Order.antt =====
-- sched_yield: where its search of the environments begins and which of them it takes.
use library_os_exokernel_imp.Base.{
  ◌≢◌, ◌⊎◌, ℕ, zero, suc, ◌+◌, ◌%◌, ◌≤◌, ◌<◌, ◌≡◌, refl, ap, ◌∙◌, inl, inr, true, false, Option,
  none, some, ◌==◌, if◌then◌else◌, Bool-cases, Option-cases, arith,
}
use library_os_exokernel_imp.Kernel.{Kernel, Env, EnvType, user, idle, env_runnable, env_running}
use library_os_exokernel_imp.Env.Run.{env_run, demote}
use library_os_exokernel_imp.Env.Run.Enter.{
  demote-running, demote-stopped, demote-others, same_ptr_some,
}
use library_os_exokernel_imp.Sched.{
  eligible, active, none_runnable, wrap, search_from, start, sched_yield,
}

-- The environments after demote are those before it but that `curenv` is runnable if it ran.
demote-curenv : (cur : Option ℕ) (k : Kernel) → (demote cur k).curenv ≡ k.curenv
demote-curenv cur k = elim (Option-cases cur) [ inl e ↦ ground arith | inr e ↦ ground arith ]

pub search_from-here :
    (n i : ℕ) (k : Kernel)
    → eligible (k.envs (wrap i)) ≡ true
    → search_from (suc n) i k ≡ env_run (wrap i) k
unfolding search_from
search_from-here n i k h =
    ap (λ b. (if b then env_run (wrap i) else search_from n (wrap i + 1)) k) h

pub search_from-skip :
    (n i : ℕ) (k : Kernel)
    → eligible (k.envs (wrap i)) ≡ false
    → search_from (suc n) i k ≡ search_from n (wrap i + 1) k
unfolding search_from
search_from-skip n i k h =
    ap (λ b. (if b then env_run (wrap i) else search_from n (wrap i + 1)) k) h

pub search_from-none : (i : ℕ) (k : Kernel) → search_from 0 i k ≡ none_runnable k
unfolding search_from
search_from-none i k = refl

wrap-mod : (i : ℕ) → i ≤ 1024 → wrap i ≡ i % 1024
wrap-mod i le = ground arith

next_mod : (i j : ℕ) → i ≤ 1024 → (wrap i + 1 + j) % 1024 ≡ (i + suc j) % 1024
next_mod i j le = ground arith

wrap-lt : (i : ℕ) → wrap i + 1 ≤ 1024
wrap-lt i = ground arith

pub search_from-eligible :
    (d n i : ℕ) (k : Kernel)
    → d < n
    → i ≤ 1024
    → eligible (k.envs ((i + d) % 1024)) ≡ true
    → ((j : ℕ) → j < d → eligible (k.envs ((i + j) % 1024)) ≡ false)
    → search_from n i k ≡ env_run ((i + d) % 1024) k
search_from-eligible d zero i k lt le el skip = absurd (omega arith)
search_from-eligible zero (suc n) i k lt le el skip =
    let e : wrap i ≡ (i + 0) % 1024 = ground (arith, wrap-mod i le) in
    search_from-here n i k (ap (λ x. eligible (k.envs x)) e ∙ el) ∙ ap (λ x. env_run x k) e
search_from-eligible (suc d) (suc n) i k lt le el skip =
    search_from-skip n i k
      (ap (λ x. eligible (k.envs x)) (ground (arith, wrap-mod i le)) ∙ skip 0 (omega arith))
    ∙ search_from-eligible d n (wrap i + 1) k (omega arith) (wrap-lt i)
        (ap (λ x. eligible (k.envs x)) (next_mod i d le) ∙ el)
        (λ j h. ap (λ x. eligible (k.envs x)) (next_mod i j le) ∙ skip (suc j) (omega arith))
    ∙ ap (λ x. env_run x k) (next_mod i d le)

pub search_from-ineligible :
    (n i : ℕ) (k : Kernel)
    → i ≤ 1024
    → ((j : ℕ) → j < n → eligible (k.envs ((i + j) % 1024)) ≡ false)
    → search_from n i k ≡ none_runnable k
search_from-ineligible zero i k le skip = search_from-none i k
search_from-ineligible (suc n) i k le skip =
    search_from-skip n i k
      (ap (λ x. eligible (k.envs x)) (ground (arith, wrap-mod i le)) ∙ skip 0 (omega arith))
    ∙ search_from-ineligible n (wrap i + 1) k (wrap-lt i)
        (λ j h. ap (λ x. eligible (k.envs x)) (next_mod i j le) ∙ skip (suc j) (omega arith))

pub sched_yield-search :
    (k : Kernel) → sched_yield k ≡ search_from 1024 (start k.curenv k) (demote k.curenv k)
unfolding sched_yield
sched_yield-search k = refl

pub start-le :
    (cur : Option ℕ) (k : Kernel) → ((c : ℕ) → cur ≡ some c → c < 1024) → start cur k ≤ 1024
start-le none k h = omega arith
start-le (some c) k h = elim (Bool-cases ((k.envs c).env_status == env_running)) [
  | inl e ↦ ground (arith, h c refl)
  | inr e ↦ ground (arith, h c refl)
]

-- An environment that sched_yield may choose: a user environment with status ENV_RUNNABLE.
abbrev pub IsEligible : Env → Type 0
IsEligible v = (v.env_type ≡ user) × (v.env_status ≡ env_runnable)

-- A user environment that runs or can run.
abbrev pub IsActive : Env → Type 0
IsActive v = (v.env_type ≡ user) × ((v.env_status ≡ env_runnable) ⊎ (v.env_status ≡ env_running))

EnvType-cases : (t : EnvType) → (t ≡ user) ⊎ (t ≡ idle)
EnvType-cases user = inl refl
EnvType-cases idle = inr refl

pub eligible-IsEligible : (v : Env) → IsEligible v → eligible v ≡ true
eligible-IsEligible v h = ground (arith, h)

pub eligible-other : (v : Env) → ¬ IsEligible v → eligible v ≡ false
eligible-other v h = elim (EnvType-cases v.env_type) [
  | inl t ↦ ground (arith, h)
  | inr t ↦ ground (arith, h)
]

pub active-IsActive : (v : Env) → IsActive v → active v ≡ true
active-IsActive v h = ground (arith, h)

pub active-other : (v : Env) → ¬ IsActive v → active v ≡ false
active-other v h = elim (EnvType-cases v.env_type) [
  | inl t ↦ ground (arith, h)
  | inr t ↦ ground (arith, h)
]

-- An environment that can run once `curenv` is no longer running: a user environment that is
-- ENV_RUNNABLE, or that is `curenv` and ENV_RUNNING.
abbrev pub CanRun : Kernel → ℕ → Type 0
CanRun k j =
    ((k.envs j).env_type ≡ user)
    × (((k.envs j).env_status ≡ env_runnable)
        ⊎ ((k.curenv ≡ some j) × ((k.envs j).env_status ≡ env_running)))

-- `curenv` is ENV_RUNNABLE, if it was running. Nothing else has changed.
pub record Rested (k k' : Kernel) : Type 0 where
  pub ran :
      (c : ℕ)
      → k.curenv ≡ some c
      → (k.envs c).env_status ≡ env_running
      → k'.envs c ≡ record (k.envs c) { env_status = env_runnable }
  pub stopped :
      (c : ℕ) → k.curenv ≡ some c → (k.envs c).env_status ≢ env_running → k'.envs c ≡ k.envs c
  pub others : (j : ℕ) → k.curenv ≢ some j → k'.envs j ≡ k.envs j
  pub rest : k' ≡ record k { envs = k'.envs }

demote-rest : (cur : Option ℕ) (k : Kernel) → demote cur k ≡ record k { envs = (demote cur k).envs }
demote-rest none k = refl
demote-rest (some c) k = elim (Bool-cases ((k.envs c).env_status == env_running)) [
  | inl e ↦ rw e refl
  | inr e ↦ rw e refl
]

pub Rested-demote : (k : Kernel) → Rested k (demote k.curenv k)
Rested-demote k = record {
  ran = λ c cur h. ap (λ o. (demote o k).envs c) cur ∙ demote-running c k h;
  stopped = λ c cur h. ap (λ o. (demote o k).envs c) cur ∙ demote-stopped c k h;
  others = λ j n. demote-others k.curenv k j n;
  rest = demote-rest k.curenv k;
}

running_cases : (s : ℕ) → (s ≡ env_running) ⊎ (s ≢ env_running)
running_cases s = elim (Bool-cases (s == env_running)) [
  | inl e ↦ inl (ground arith)
  | inr e ↦ inr (λ h. ground arith)
]

-- What has rested can run just where it could.
pub CanRun-Rested :
    {k k' : Kernel} (j : ℕ)
    → Rested k k'
    → (IsEligible (k'.envs j) → CanRun k j) × (CanRun k j → IsEligible (k'.envs j))
CanRun-Rested {k} {k'} j r = elim (same_ptr_some k.curenv j) [
  | inr n ↦ let e = r.others j n in (λ h. ground (arith, e, h), λ h. ground (arith, e, h))
  | inl cur ↦ elim (running_cases (k.envs j).env_status) [
    | inl run ↦ let e = r.ran j cur run in (λ h. ground (arith, e, h), λ h. ground (arith, e, h))
    | inr stop ↦
        let e = r.stopped j cur stop in (λ h. ground (arith, e, h), λ h. ground (arith, e, h))
  ]
]

-- Where the search begins: at 0 with no `curenv`, after it if it was running, and else at it.
pub data Begins (k : Kernel) : ℕ → Type 0 where
  at_zero : k.curenv ≡ none → Begins k 0
  after : {c : ℕ} → k.curenv ≡ some c → (k.envs c).env_status ≡ env_running → Begins k (c + 1)
  at_stopped : {c : ℕ} → k.curenv ≡ some c → (k.envs c).env_status ≢ env_running → Begins k c

pub start-Begins : (k : Kernel) (i : ℕ) → Begins k i → start k.curenv k ≡ i
start-Begins k i (at_zero e) = ap (λ o. start o k) e
start-Begins k i (after {c} e h) = ap (λ o. start o k) e ∙ ground (arith, h)
start-Begins k i (at_stopped {c} e h) = ap (λ o. start o k) e ∙ ground (arith, h)
