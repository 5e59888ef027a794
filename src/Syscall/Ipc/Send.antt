-- ===== src/Syscall/Ipc/Send.antt =====
-- sys_ipc_try_send: its errors, and the delivery of a value.
use library_os_exokernel_imp.Base.{
  Bool-cases, inr, ℕ, ◌%◌, ◌≤◌, ◌≡◌, refl, ap, ◌∙◌, ◌≢◌, ◌⊎◌, inl, Bool, true, false, some, arith,
  if◌then◌else◌,
}
use library_os_exokernel_imp.Mmu.{utop, ipc_no_page}
use library_os_exokernel_imp.Kernel.{Kernel, with_env, env_runnable}
use library_os_exokernel_imp.Kernel.Command.{returned, and_then, pure, ◌>>=◌}
use library_os_exokernel_imp.Error.{ok, err, inval, ipc_not_recv}
use library_os_exokernel_imp.Env.Table.{envid2env, found}
use library_os_exokernel_imp.Syscall.Memory.{bad_perm}
use library_os_exokernel_imp.Syscall.Ipc.{
  sys_ipc_try_send, try_send, transfer, src_is_good, deliver,
}

sys_ipc_try_send-found :
    (k : Kernel) (envid value srcva perm u : ℕ)
    → envid2env envid false k ≡ returned (found (some u)) k
    → sys_ipc_try_send envid value srcva perm k ≡ try_send envid value srcva perm u k
unfolding sys_ipc_try_send
sys_ipc_try_send-found k envid value srcva perm u f = rw f

try_send-waits :
    (k : Kernel) (envid value srcva perm u : ℕ) (b : Bool)
    → (k.envs u).env_ipc_recving ≡ b
    → try_send envid value srcva perm u k
      ≡ (if b
            then (src_is_good srcva perm >>= λ good.
                if good then transfer envid value srcva perm u else pure (err inval))
            else pure (err ipc_not_recv))
          k
unfolding try_send
try_send-waits k envid value srcva perm u b h =
    ap
      (λ r.
        (if r
            then (src_is_good srcva perm >>= λ good.
                if good then transfer envid value srcva perm u else pure (err inval))
            else pure (err ipc_not_recv))
          k)
      h

-- A message to an environment that is not receiving is refused with -E_IPC_NOT_RECV, with no
-- change.
sys_ipc_try_send-not_receiving :
    (k : Kernel) (envid value srcva perm u : ℕ)
    → envid2env envid false k ≡ returned (found (some u)) k
    → (k.envs u).env_ipc_recving ≡ false
    → sys_ipc_try_send envid value srcva perm k ≡ returned (err ipc_not_recv) k
sys_ipc_try_send-not_receiving k envid value srcva perm u f h =
    sys_ipc_try_send-found k envid value srcva perm u f
    ∙ try_send-waits k envid value srcva perm u false h

src_is_good-refused :
    (k : Kernel) (srcva perm : ℕ)
    → srcva ≢ ipc_no_page
    → (utop ≤ srcva) ⊎ ((srcva % 4096 ≢ 0) ⊎ (bad_perm perm ≡ true))
    → src_is_good srcva perm k ≡ returned false k
unfolding src_is_good
src_is_good-refused k srcva perm n h = ground (arith, h)

src_is_good-no_page : (k : Kernel) (perm : ℕ) → src_is_good ipc_no_page perm k ≡ returned true k
unfolding src_is_good
src_is_good-no_page k perm = refl

-- What a receiver `u` of `value` from `from` holds.
pub record Delivered (from value perm u : ℕ) (k k' : Kernel) : Type 0 where
  pub value_is : (k'.envs u).env_ipc_value ≡ value
  pub from_is : (k'.envs u).env_ipc_from ≡ from
  pub perm_is : (k'.envs u).env_ipc_perm ≡ perm
  pub done_receiving : (k'.envs u).env_ipc_recving ≡ false
  pub status : (k'.envs u).env_status ≡ env_runnable
  pub returns_zero : (k'.envs u).env_tf.tf_regs.reg_eax ≡ 0
  pub resumes : (k'.envs u).env_tf.tf_eip ≡ (k.envs u).env_tf.tf_eip
  pub space : (k'.envs u).env_pgdir ≡ (k.envs u).env_pgdir
  pub others : (j : ℕ) → j ≢ u → k'.envs j ≡ k.envs j
  pub memory : k'.frame ≡ k.frame
  pub pages : k'.pages ≡ k.pages

-- The state in which sys_ipc_try_send returns, from that before, for a message with no page.
unfoldable delivered : (from value u : ℕ) → Kernel → Kernel
delivered from value u k =
    with_env u
      (λ v. record v {
        env_ipc_from = from;
        env_ipc_value = value;
        env_ipc_perm = 0;
        env_tf = record (v.env_tf) { tf_regs = record (v.env_tf.tf_regs) { reg_eax = 0 } };
        env_ipc_recving = false;
        env_status = env_runnable;
      })
      k

deliver-eq :
    (k : Kernel) (c value u : ℕ)
    → k.curenv ≡ some c
    → deliver value u (with_env u (λ v. record v { env_ipc_perm = 0 }) k)
      ≡ returned (ok 0) (delivered (k.envs c).env_id value u k)
unfolding deliver delivered
deliver-eq k c value u cur = ground (arith, cur)

Delivered-delivered :
    (k : Kernel) (from value u : ℕ) → Delivered from value 0 u k (delivered from value u k)
unfolding delivered
Delivered-delivered k from value u = record {
  value_is = ground arith;
  from_is = ground arith;
  perm_is = ground arith;
  done_receiving = ground arith;
  status = ground arith;
  returns_zero = ground arith;
  resumes = ground arith;
  space = ground arith;
  others = λ j n. ground arith;
  memory = refl;
  pages = refl;
}

transfer-no_page :
    (k : Kernel) (envid value srcva perm u : ℕ)
    → (srcva ≡ ipc_no_page) ⊎ ((k.envs u).env_ipc_dstva ≡ ipc_no_page)
    → transfer envid value srcva perm u k
      ≡ deliver value u (with_env u (λ v. record v { env_ipc_perm = 0 }) k)
unfolding transfer
transfer-no_page k envid value srcva perm u h = ground (arith, h)

-- A message with no page to an environment that is receiving is delivered: its receiver gets the
-- value and the sender's `env_id`, with permission 0, stops receiving and is runnable, and its own
-- sys_ipc_recv will return 0. The other environments and all memory are as they were.
sys_ipc_try_send-Delivered :
    (k : Kernel) (c envid value perm u : ℕ)
    → k.curenv ≡ some c
    → envid2env envid false k ≡ returned (found (some u)) k
    → (k.envs u).env_ipc_recving ≡ true
    → (k' : Kernel) × (sys_ipc_try_send envid value ipc_no_page perm k ≡ returned (ok 0) k')
      × Delivered (k.envs c).env_id value 0 u k k'
sys_ipc_try_send-Delivered k c envid value perm u cur f h = (
  delivered (k.envs c).env_id value u k,
  sys_ipc_try_send-found k envid value ipc_no_page perm u f
      ∙ try_send-waits k envid value ipc_no_page perm u true h
      ∙ ap
          (λ o.
            and_then o
              (λ good. if good then transfer envid value ipc_no_page perm u else pure (err inval)))
          (src_is_good-no_page k perm)
      ∙ transfer-no_page k envid value ipc_no_page perm u (inl refl)
      ∙ deliver-eq k c value u cur,
  Delivered-delivered k (k.envs c).env_id value u,
)

-- For a receiver that waits, a source address other than IPC_NO_PAGE that is UTOP or above or not
-- aligned, or a permission that a system call does not allow, is refused with -E_INVAL, with no
-- change.
pub sys_ipc_try_send-inval :
    (k : Kernel) (envid value srcva perm u : ℕ)
    → envid2env envid false k ≡ returned (found (some u)) k
    → (k.envs u).env_ipc_recving ≡ true
    → srcva ≢ ipc_no_page
    → (utop ≤ srcva) ⊎ ((srcva % 4096 ≢ 0) ⊎ (bad_perm perm ≡ true))
    → sys_ipc_try_send envid value srcva perm k ≡ returned (err inval) k
sys_ipc_try_send-inval k envid value srcva perm u f h n bad =
    sys_ipc_try_send-found k envid value srcva perm u f
    ∙ try_send-waits k envid value srcva perm u true h
    ∙ ap
        (λ o.
          and_then o (λ good. if good then transfer envid value srcva perm u else pure (err inval)))
        (src_is_good-refused k srcva perm n bad)

-- A message with no page to an environment that is receiving is delivered: its receiver gets the
-- value and the sender's `env_id`, with permission 0, stops receiving and is runnable, and its own
-- sys_ipc_recv will return 0, while the other environments and all memory are as they were. To one
-- that is not receiving the message is refused with -E_IPC_NOT_RECV, with no change.
pub sys_ipc_try_send_cases :
    (k : Kernel) (c envid value perm u : ℕ)
    → k.curenv ≡ some c
    → envid2env envid false k ≡ returned (found (some u)) k
    → (((k.envs u).env_ipc_recving ≡ true)
        × (k' : Kernel) × (sys_ipc_try_send envid value ipc_no_page perm k ≡ returned (ok 0) k')
        × Delivered (k.envs c).env_id value 0 u k k')
      ⊎ (((k.envs u).env_ipc_recving ≡ false)
          × (sys_ipc_try_send envid value ipc_no_page perm k ≡ returned (err ipc_not_recv) k))
sys_ipc_try_send_cases k c envid value perm u cur f = elim (Bool-cases (k.envs u).env_ipc_recving) [
  | inl waits ↦
      (let (k', eq, done) = sys_ipc_try_send-Delivered k c envid value perm u cur f waits in
        inl (waits, k', eq, done))
  | inr busy ↦ inr (busy, sys_ipc_try_send-not_receiving k envid value ipc_no_page perm u f busy)
]
