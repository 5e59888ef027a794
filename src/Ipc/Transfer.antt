-- ===== src/Ipc/Transfer.antt =====
-- A message from ipc_send to ipc_recv.
use library_os_exokernel_imp.Base.{ℕ, ◌≡◌, ap, ◌∙◌, inl, inr, true, false, none, some, List, ◌∷◌}
use library_os_exokernel_imp.Mmu.{ipc_no_page}
use library_os_exokernel_imp.Kernel.{Kernel}
use library_os_exokernel_imp.Kernel.Command.{Outcome, returned, and_then}
use library_os_exokernel_imp.Error.{Result}
use library_os_exokernel_imp.Env.Table.{found, envid2env}
use library_os_exokernel_imp.Syscall.Caller.{caller}
use library_os_exokernel_imp.Syscall.Ipc.{sys_ipc_try_send}
use library_os_exokernel_imp.Syscall.Ipc.Send.{Delivered, sys_ipc_try_send_cases}
use library_os_exokernel_imp.Ipc.{take_message, sent, after_try, ipc_send}

-- `c` calls ipc_send for `envid`, which is `u`. The first of the turns after which `u` waits for a
-- message leaves the state `k'`.
pub data Waits (c envid u : ℕ) : List (Kernel → Kernel) → Kernel → Kernel → Type 0 where
  now :
      {k k' : Kernel} {turn : Kernel → Kernel} {turns : List (Kernel → Kernel)}
      → turn k ≡ k'
      → k'.curenv ≡ some c
      → envid2env envid false k' ≡ returned (found (some u)) k'
      → (k'.envs u).env_ipc_recving ≡ true
      → Waits c envid u (turn ∷ turns) k k'
  later :
      {k k₁ k' : Kernel} {turn : Kernel → Kernel} {turns : List (Kernel → Kernel)}
      → turn k ≡ k₁
      → k₁.curenv ≡ some c
      → envid2env envid false k₁ ≡ returned (found (some u)) k₁
      → (k₁.envs u).env_ipc_recving ≡ false
      → Waits c envid u turns k₁ k'
      → Waits c envid u (turn ∷ turns) k k'

-- The message that `u` has been left, as it takes it.
abbrev pub resumed : ℕ → Kernel → Kernel
resumed u k = record k { curenv = some u }

take-Delivered :
    (from value perm u : ℕ) (k k' : Kernel)
    → Delivered from value perm u k k'
    → take_message 0 (resumed u k')
      ≡ returned (record { value = value; from = from; perm = perm }) (resumed u k')
unfolding take_message caller
take-Delivered from value perm u k k' d = λ i.
    returned (record { value = d.value_is i; from = d.from_is i; perm = d.perm_is i })
      (resumed u k')

ipc_send-step :
    (turn : Kernel → Kernel) (turns : List (Kernel → Kernel)) (envid value : ℕ) (k k' : Kernel)
    → {o : Outcome Result} → turn k ≡ k'
    → sys_ipc_try_send envid value ipc_no_page 0 k' ≡ o
    → ipc_send (turn ∷ turns) envid value none 0 k
      ≡ and_then o (λ ret. after_try ret (ipc_send turns envid value none 0))
unfolding ipc_send
ipc_send-step turn turns envid value k k' e tried =
    ap (λ o. and_then o (λ ret. after_try ret (ipc_send turns envid value none 0)))
      (ap (sys_ipc_try_send envid value ipc_no_page 0) e ∙ tried)

-- A message with no page is sent in the first round of ipc_send in which the receiver waits for
-- one: the rounds before it change nothing of the state that the other environments leave. When
-- the receiver goes on, its ipc_recv returns the value, with the sender's `env_id` and permission
-- 0.
pub ipc_send-take_message :
    {c envid u : ℕ} {turns : List (Kernel → Kernel)} {k k' : Kernel} (value : ℕ)
    → Waits c envid u turns k k'
    → (k'' : Kernel) × (ipc_send turns envid value none 0 k ≡ returned sent k'')
      × Delivered (k'.envs c).env_id value 0 u k' k''
      × (take_message 0 (resumed u k'')
          ≡ returned
              (record { value = value; from = (k'.envs c).env_id; perm = 0 })
              (resumed u k''))
unfolding after_try
ipc_send-take_message value (now turned cur names waits) =
    elim (sys_ipc_try_send_cases _ _ _ value 0 _ cur names) [
      | inl (waits', k'', tried, d) ↦
          (k'', ipc_send-step _ _ _ value _ _ turned tried, d, take-Delivered _ value 0 _ _ k'' d)
      | inr (busy, tried) ↦ absurd (cc (waits, busy))
    ]
ipc_send-take_message value (later turned cur names busy rest) =
    let (k'', sends, d, taken) = ipc_send-take_message value rest in
    elim (sys_ipc_try_send_cases _ _ _ value 0 _ cur names) [
      | inl (waits, _, _, _) ↦ absurd (cc (waits, busy))
      | inr (busy', tried) ↦ (k'', ipc_send-step _ _ _ value _ _ turned tried ∙ sends, d, taken)
    ]
