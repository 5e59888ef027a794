-- ===== src/Ipc.antt =====
-- lib/ipc.c, over the system calls. What a program sees of its environment through `thisenv` and
-- `envs` is the kernel's table, which is mapped at UENVS.
pub mod Transfer
use library_os_exokernel_imp.Base.{
  ℕ, zero, suc, ◌+◌, ◌-◌, ◌^◌, ◌==◌, Bool, true, false, Option, none, some, List, [], ◌∷◌,
  if◌then◌else◌,
}
use library_os_exokernel_imp.Mmu.{ipc_no_page}
use library_os_exokernel_imp.Kernel.{Kernel, EnvType, user, idle, nenv}
use library_os_exokernel_imp.Kernel.Command.{
  Command, pure, ◌>>=◌, ◌>>◌, reads, modify, panic, non_null,
}
use library_os_exokernel_imp.Error.{Result, ok, err, ipc_not_recv, to_word}
use library_os_exokernel_imp.Syscall.Caller.{caller}
use library_os_exokernel_imp.Syscall.Ipc.{sys_ipc_try_send, sys_ipc_recv}

-- `pg == NULL ? IPC_NO_PAGE : pg`
abbrev pub page_or_none : Option ℕ → ℕ
page_or_none none = ipc_no_page
page_or_none (some pg) = pg

-- `pg == NULL ? 0 : perm`
abbrev pub perm_or_none : Option ℕ → ℕ → ℕ
perm_or_none none perm = 0
perm_or_none (some pg) perm = perm

-- What ipc_recv returns, and what it stores through its two pointers.
pub record Message : Type 0 where
  pub value : ℕ
  pub from : ℕ
  pub perm : ℕ

-- ipc_recv, from the return of its system call with `ret` on
unfoldable pub take_message : (ret : ℕ) → Command Message
unfolding caller
take_message ret = do
  e ← caller
  message ← reads (λ k. record {
    value = (k.envs e).env_ipc_value;
    from = (k.envs e).env_ipc_from;
    perm = (k.envs e).env_ipc_perm;
  })
  pure (if ret == 0 then message else record { value = ret; from = 0; perm = 0 })

-- A system call that blocks does not return here: the environment goes on in take_message when a
-- sender has left 0 in its `eax`.
unfoldable pub ipc_recv : (pg : Option ℕ) → Command Message
unfolding sys_ipc_recv take_message
ipc_recv pg = do ret ← sys_ipc_recv (page_or_none pg); take_message (to_word ret)

-- What a call of ipc_send has come to: the message is sent, or the receiver is not yet ready.
pub data Sending : Type 0 where
  sent waiting : Sending

after_try : Result → Command Sending → Command Sending
after_try (ok ret) again = if ret == 0 then pure sent else panic
after_try (err ipc_not_recv) again = again
after_try (err _) again = panic

-- Each element of the list is what the other environments do to the kernel's state until a call of
-- sys_yield returns, one call after the other.
unfoldable pub ipc_send :
    (turns : List (Kernel → Kernel))
    → (to_env val : ℕ) → (pg : Option ℕ) → (perm : ℕ) → Command Sending
unfolding sys_ipc_try_send after_try
ipc_send [] to_env val pg perm = pure waiting
ipc_send (turn ∷ turns) to_env val pg perm = do
  modify turn
  ret ← sys_ipc_try_send to_env val (page_or_none pg) (perm_or_none pg perm)
  after_try ret (ipc_send turns to_env val pg perm)

same_type : EnvType → EnvType → Bool
same_type user user = true
same_type idle idle = true
same_type _ _ = false

-- The loop of ipc_find_env, for the `n` environments from `i` on.
find_from : EnvType → (n i : ℕ) → Kernel → ℕ
unfolding same_type
find_from type zero i k = 0
find_from type (suc n) i k =
    if same_type (k.envs i).env_type type then (k.envs i).env_id else find_from type n (i + 1) k

unfoldable pub ipc_find_env : EnvType → Command ℕ
unfolding find_from
ipc_find_env type = reads (find_from type nenv 0)
