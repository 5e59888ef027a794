-- ===== src/Env/Run/Enter.antt =====
-- env_run: the switch to user mode.
use library_os_exokernel_imp.Base.{
  ℕ, ◌+◌, ◌≡◌, refl, ap, ◌≢◌, ◌⊎◌, inl, inr, true, Option, none, some, ◌==◌, Bool-cases,
  Option-cases, arith,
}
use library_os_exokernel_imp.Mmu.{u32}
use library_os_exokernel_imp.Kernel.{Kernel, with_env, env_runnable, env_running}
use library_os_exokernel_imp.Kernel.Command.{running, panicked, leaves}
use library_os_exokernel_imp.Env.Run.{env_run, demote}

-- The CPU is in user mode in `e`, with the page directory `d`: `k` is the state before.
pub record Entered (e d : ℕ) (k k' : Kernel) : Type 0 where
  pub current : k'.curenv ≡ some e
  pub status : (k'.envs e).env_status ≡ env_running
  pub runs : (k'.envs e).env_runs ≡ u32 ((k.envs e).env_runs + 1)
  pub on : (k'.envs e).env_cpunum ≡ k.cpunum
  pub saved : (k'.envs e).env_tf ≡ (k.envs e).env_tf
  pub space : k'.cr3 ≡ d
  pub unlocked : k'.kernel_lock ≡ none
  pub pages : k'.pages ≡ k.pages
  pub memory : k'.frame ≡ k.frame
  -- the environment that was running here is runnable, and a `curenv` that was not is left alone
  pub before :
      (c : ℕ)
      → c ≢ e
      → k.curenv ≡ some c
      → (k.envs c).env_status ≡ env_running
      → k'.envs c ≡ record (k.envs c) { env_status = env_runnable }
  pub stopped :
      (c : ℕ)
      → c ≢ e
      → k.curenv ≡ some c
      → (k.envs c).env_status ≢ env_running
      → k'.envs c ≡ k.envs c
  pub others : (j : ℕ) → j ≢ e → k.curenv ≢ some j → k'.envs j ≡ k.envs j

-- The state in which env_run ends.
unfoldable entered : (e d : ℕ) → Kernel → Kernel
entered e d k =
    let m = record (demote k.curenv k) { curenv = some e } in
    let r =
      with_env e (λ v. record v { env_status = env_running; env_runs = u32 (v.env_runs + 1) }) m in
    with_env e (λ v. record v { env_cpunum = k.cpunum }) (record r { kernel_lock = none; cr3 = d })

demote-kernel_lock : (cur : Option ℕ) (k : Kernel) → (demote cur k).kernel_lock ≡ k.kernel_lock
demote-kernel_lock none k = refl
demote-kernel_lock (some c) k = ground arith

demote-cpunum : (cur : Option ℕ) (k : Kernel) → (demote cur k).cpunum ≡ k.cpunum
demote-cpunum none k = refl
demote-cpunum (some c) k = ground arith

demote-memory :
    (cur : Option ℕ) (k : Kernel)
    → ((demote cur k).pages ≡ k.pages) × ((demote cur k).frame ≡ k.frame)
demote-memory none k = (refl, refl)
demote-memory (some c) k = (ground arith, ground arith)

demote-env_pgdir :
    (cur : Option ℕ) (k : Kernel) (e : ℕ) → ((demote cur k).envs e).env_pgdir ≡ (k.envs e).env_pgdir
demote-env_pgdir none k e = refl
demote-env_pgdir (some c) k e = ground arith

demote-env_runs :
    (cur : Option ℕ) (k : Kernel) (e : ℕ) → ((demote cur k).envs e).env_runs ≡ (k.envs e).env_runs
demote-env_runs none k e = refl
demote-env_runs (some c) k e = ground arith

demote-env_tf :
    (cur : Option ℕ) (k : Kernel) (e : ℕ) → ((demote cur k).envs e).env_tf ≡ (k.envs e).env_tf
demote-env_tf none k e = refl
demote-env_tf (some c) k e = ground arith

pub demote-others :
    (cur : Option ℕ) (k : Kernel) (e : ℕ) → cur ≢ some e → (demote cur k).envs e ≡ k.envs e
demote-others none k e n = refl
demote-others (some c) k e n = ground arith

pub demote-running :
    (c : ℕ) (k : Kernel)
    → (k.envs c).env_status ≡ env_running
    → (demote (some c) k).envs c ≡ record (k.envs c) { env_status = env_runnable }
demote-running c k h = ground arith

pub demote-stopped :
    (c : ℕ) (k : Kernel)
    → (k.envs c).env_status ≢ env_running
    → (demote (some c) k).envs c ≡ k.envs c
demote-stopped c k h = ground arith

env_run-eq :
    (k : Kernel) (e d : ℕ)
    → k.kernel_lock ≡ some k.cpunum
    → (k.envs e).env_pgdir ≡ some d
    → env_run e k ≡ running (entered e d k)
unfolding env_run entered
env_run-eq k e d lock dir =
    ground (
      arith,
      demote-kernel_lock k.curenv k,
      demote-cpunum k.curenv k,
      demote-env_pgdir k.curenv k e,
    )

Entered-entered : (k : Kernel) (e d : ℕ) → Entered e d k (entered e d k)
unfolding entered
Entered-entered k e d = record {
  current = refl;
  status = ground arith;
  runs = ground (arith, demote-env_runs k.curenv k e);
  on = ground arith;
  saved = ground (arith, demote-env_tf k.curenv k e);
  space = refl;
  unlocked = refl;
  pages = (demote-memory k.curenv k).0;
  memory = (demote-memory k.curenv k).1;
  before = λ c n cur h. ground (arith, demote-running c k h);
  stopped = λ c n cur h. ground (arith, demote-stopped c k h);
  others = λ j n cur. ground (arith, demote-others k.curenv k j cur);
}

-- env_run of an environment with an address space, by the CPU that holds the kernel lock, enters
-- user mode: `e` is `curenv`, ENV_RUNNING on this CPU with one more run (in 32 bits), with the trap
-- frame that it had, its page
-- directory is in cr3 and the lock is free. Another environment that was running here is
-- ENV_RUNNABLE and otherwise as it was; a `curenv` that was not running, the rest of `envs` and all
-- memory are as they were.
pub env_run-Entered :
    (k : Kernel) (e d : ℕ)
    → k.kernel_lock ≡ some k.cpunum
    → (k.envs e).env_pgdir ≡ some d
    → (k' : Kernel) × (env_run e k ≡ running k') × Entered e d k k'
env_run-Entered k e d lock dir = (entered e d k, env_run-eq k e d lock dir, Entered-entered k e d)

-- A CPU that does not hold the kernel lock panics in env_run.
pub env_run-unlocked : (k : Kernel) (e : ℕ) → k.kernel_lock ≢ some k.cpunum → env_run e k ≡ panicked
unfolding env_run
env_run-unlocked k e h = ground (arith, demote-kernel_lock k.curenv k, demote-cpunum k.curenv k)

env_run-no_pgdir :
    (k : Kernel) (e : ℕ)
    → k.kernel_lock ≡ some k.cpunum
    → (k.envs e).env_pgdir ≡ none
    → env_run e k ≡ panicked
unfolding env_run
env_run-no_pgdir k e lock dir =
    ground (
      arith,
      demote-kernel_lock k.curenv k,
      demote-cpunum k.curenv k,
      demote-env_pgdir k.curenv k e,
    )

pub same_ptr_some : (o : Option ℕ) (n : ℕ) → (o ≡ some n) ⊎ (o ≢ some n)
same_ptr_some none n = inr (λ h. ground arith)
same_ptr_some (some m) n = elim (Bool-cases (m == n)) [
  | inl e ↦ inl (ground arith)
  | inr e ↦ inr (λ h. ground arith)
]

-- env_run does not return.
pub leaves-env_run : (k : Kernel) (e : ℕ) → leaves (env_run e k) ≡ true
leaves-env_run k e = elim (same_ptr_some k.kernel_lock k.cpunum) [
  | inr other ↦ ap leaves (env_run-unlocked k e other)
  | inl own ↦ elim (Option-cases (k.envs e).env_pgdir) [
    | inl null ↦ ap leaves (env_run-no_pgdir k e own null)
    | inr (d, dir) ↦ ap leaves (env_run-eq k e d own dir)
  ]
]
