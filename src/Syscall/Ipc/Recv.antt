-- ===== src/Syscall/Ipc/Recv.antt =====
-- sys_ipc_recv: the receiver blocks.
use library_os_exokernel_imp.Base.{
  Bool-cases, inl, inr, ℕ, ◌%◌, ◌≤◌, ◌<◌, ◌≡◌, refl, ap, ◌∙◌, ◌≢◌, ◌⊎◌, Bool, true, false, not,
  ◌&&◌, ◌||◌, some, arith, ◌==◌, leb, if◌then◌else◌,
}
use library_os_exokernel_imp.Mmu.{pgsize, utop, ipc_no_page}
use library_os_exokernel_imp.Kernel.{Kernel, with_env, env_not_runnable}
use library_os_exokernel_imp.Kernel.Command.{
  returned, Outcome, running, monitoring, panicked, and_then, out_of_fuel, reads, non_null, ◌>>◌,
  pure, ◌>>=◌, done, leaves,
}
use library_os_exokernel_imp.Error.{Result, ok, err, inval}
use library_os_exokernel_imp.Sched.{sched_yield}
use library_os_exokernel_imp.Sched.Search.{leaves-sched_yield}
use library_os_exokernel_imp.Syscall.Caller.{caller}
use library_os_exokernel_imp.Syscall.Ipc.{wait_as, block, yield_while, sys_ipc_recv}

-- The state in which the receiver `c` gives up the CPU.
abbrev pub receiving : (c dstva : ℕ) → Kernel → Kernel
receiving c dstva k =
    with_env c
      (λ v. record v {
        env_ipc_recving = true;
        env_ipc_dstva = dstva;
        env_status = env_not_runnable;
      })
      k

caller-eq : (k : Kernel) (c : ℕ) → k.curenv ≡ some c → caller k ≡ returned c k
unfolding caller
caller-eq k c cur = ap (λ o. non_null o k) cur

yield_while-waits :
    (c : ℕ) (k : Kernel)
    → k.curenv ≡ some c
    → (k.envs c).env_ipc_recving ≡ true
    → yield_while 1 k ≡ and_then (sched_yield k) (λ _ _. out_of_fuel)
unfolding yield_while
yield_while-waits c k cur waits =
    ap
      (λ o. and_then o (λ c'. reads (λ j. (j.envs c').env_ipc_recving) >>= λ recving.
        if recving then sched_yield >> (λ _. out_of_fuel) else done))
      (caller-eq k c cur)
    ∙ ap (λ recving. (if recving then sched_yield >> (λ _. out_of_fuel) else done) k) waits

block-eq : (k : Kernel) (c dstva : ℕ) → k.curenv ≡ some c → block dstva k ≡ wait_as dstva c k
unfolding block
block-eq k c dstva cur = ap (λ o. and_then o (wait_as dstva)) (caller-eq k c cur)

wait_as-eq :
    (k : Kernel) (c dstva : ℕ)
    → wait_as dstva c k ≡ and_then (yield_while 1 (receiving c dstva k)) (λ _. returned (ok 0))
unfolding wait_as
wait_as-eq k c dstva = refl

-- Whatever would follow a sched_yield, and what would follow that, does not happen.
fused :
    (o : Outcome (Unit {0}))
    → leaves o ≡ true
    → (and_then (and_then {B = Unit {0}} o (λ _ _. out_of_fuel)) (λ _. returned (ok 0))
        ≡ and_then {B = Result} o (λ _. returned (ok 0)))
      × (leaves (and_then {B = Result} o (λ _. returned (ok 0))) ≡ true)
fused (returned a k) h = ground arith
fused (running k) h = (refl, refl)
fused (monitoring k) h = (refl, refl)
fused panicked h = (refl, refl)
fused out_of_fuel h = ground arith

sys_ipc_recv-block :
    (k : Kernel) (dstva : ℕ) (b : Bool)
    → (not (ipc_no_page == dstva) && (leb utop dstva || not (dstva % pgsize == 0))) ≡ b
    → sys_ipc_recv dstva k ≡ (if b then pure (err inval) else block dstva) k
unfolding sys_ipc_recv
sys_ipc_recv-block k dstva b h = ap (λ b'. (if b' then pure (err inval) else block dstva) k) h

-- A dstva that is neither IPC_NOPAGE nor an aligned address below UTOP is refused, with no change.
sys_ipc_recv-inval :
    (k : Kernel) (dstva : ℕ)
    → dstva ≢ ipc_no_page
    → (utop ≤ dstva) ⊎ (dstva % 4096 ≢ 0)
    → sys_ipc_recv dstva k ≡ returned (err inval) k
sys_ipc_recv-inval k dstva ne h = sys_ipc_recv-block k dstva true (ground (arith, h))

-- For the others sys_ipc_recv marks `curenv` as receiving at `dstva` and not runnable and gives up
-- the CPU in sched_yield, from which it does not return.
sys_ipc_recv-sched_yield :
    (k : Kernel) (c dstva : ℕ)
    → k.curenv ≡ some c
    → (dstva ≡ ipc_no_page) ⊎ ((dstva < utop) × (dstva % 4096 ≡ 0))
    → (sys_ipc_recv dstva k ≡ and_then (sched_yield (receiving c dstva k)) (λ _. returned (ok 0)))
      × (leaves (sys_ipc_recv dstva k) ≡ true)
sys_ipc_recv-sched_yield k c dstva cur h =
    let f = fused (sched_yield (receiving c dstva k)) (leaves-sched_yield (receiving c dstva k)) in
    let eq =
      sys_ipc_recv-block k dstva false (ground (arith, h))
      ∙ block-eq k c dstva cur
      ∙ wait_as-eq k c dstva
      ∙ ap (λ o. and_then o (λ _. returned (ok 0)))
          (yield_while-waits c (receiving c dstva k) cur (ground arith))
      ∙ f.0 in
    (eq, ap leaves eq ∙ f.1)

-- Which addresses a receiver may give: IPC_NOPAGE, or an aligned one below UTOP.
abbrev pub IsTarget : ℕ → Type 0
IsTarget dstva = (dstva ≡ ipc_no_page) ⊎ ((dstva < utop) × (dstva % 4096 ≡ 0))

IsTarget-cases :
    (dstva : ℕ) → IsTarget dstva ⊎ ((dstva ≢ ipc_no_page) × ((utop ≤ dstva) ⊎ (dstva % 4096 ≢ 0)))
IsTarget-cases dstva = elim (Bool-cases (dstva == ipc_no_page)) [
  | inl none_wanted ↦ inl (inl (ground arith))
  | inr wanted ↦ elim (Bool-cases (leb utop dstva)) [
    | inl high ↦ inr (ground arith, inl (ground arith))
    | inr low ↦ elim (Bool-cases (dstva % 4096 == 0)) [
      | inl aligned ↦ inl (inr (ground arith, ground arith))
      | inr odd ↦ inr (ground arith, inr (ground arith))
    ]
  ]
]

-- sys_ipc_recv at IPC_NOPAGE, or at an aligned address below UTOP, marks `curenv` as receiving
-- there and not runnable and gives up the CPU in sched_yield, from which it does not return; at
-- any other address it returns -E_INVAL and changes nothing. Other addresses from UTOP on are
-- among these, which the code's comment has accepted as not asking for a page.
pub sys_ipc_recv_cases :
    (k : Kernel) (c dstva : ℕ)
    → k.curenv ≡ some c
    → (IsTarget dstva
        × (sys_ipc_recv dstva k
            ≡ and_then (sched_yield (receiving c dstva k)) (λ _. returned (ok 0)))
        × (leaves (sys_ipc_recv dstva k) ≡ true))
      ⊎ ((¬ IsTarget dstva) × (sys_ipc_recv dstva k ≡ returned (err inval) k))
sys_ipc_recv_cases k c dstva cur = elim (IsTarget-cases dstva) [
  | inl good ↦ let r = sys_ipc_recv-sched_yield k c dstva cur good in inl (good, r.0, r.1)
  | inr bad ↦ inr (λ t. ground (arith, t, bad), sys_ipc_recv-inval k dstva bad.0 bad.1)
]
