-- ===== src/Syscall/Ipc.antt =====
-- sys_ipc_try_send and sys_ipc_recv of kern/syscall.c.
pub mod Recv
pub mod Send
use library_os_exokernel_imp.Base.{
  ℕ, zero, suc, ◌+◌, ◌-◌, ◌*◌, ◌/◌, ◌%◌, ◌^◌, Bool, true, false, not, ◌&&◌, ◌||◌, Option, none,
  some, List, [], ◌∷◌, ◌==◌, ltb, leb, if◌then◌else◌, is_null, same_ptr, bit_and, bit_or, update,
}
use library_os_exokernel_imp.Mmu.{
  u32, pgsize, pgnum, pgoff, pdx, ptx, pte_p, pte_w, pte_u, pte_addr, has, ulim, utop, pte_syscall,
  ipc_no_page,
}
use library_os_exokernel_imp.Kernel.{
  Kernel, Page, Env, Trapframe, with_page, with_word, with_env, env_runnable, env_not_runnable,
}
use library_os_exokernel_imp.Kernel.Command.{
  Command, Outcome, returned, running, monitoring, panicked, out_of_fuel, pure, ◌>>=◌, ◌>>◌, panic,
  reads, modify, done, when, non_null,
}
use library_os_exokernel_imp.Error.{Result, ok, err, no_mem, bad_env, inval, ipc_not_recv}
use library_os_exokernel_imp.Env.Table.{Found, found, rejected, envid2env, env_alloc}
use library_os_exokernel_imp.Syscall.Caller.{caller, with_found}
use library_os_exokernel_imp.Pmap.Tables.{Slot, load, page_lookup}
use library_os_exokernel_imp.Syscall.Memory.{bad_perm, pgdir_of, sys_page_map}
use library_os_exokernel_imp.Sched.{sched_yield}

-- The tests on the page to be sent, with the entry that maps it.
sendable : ℕ → Option (ℕ × Slot) → Command Bool
sendable perm none = pure false
sendable perm (some (_, src_pte)) = do
  pte ← load src_pte
  pure (not (not (has pte pte_w) && has perm pte_w))

src_is_good : (srcva perm : ℕ) → Command Bool
unfolding caller page_lookup sendable
src_is_good srcva perm =
    if srcva == ipc_no_page
    then pure true
    else if leb utop srcva || not (srcva % pgsize == 0)
    then pure false
    else if bad_perm perm
    then pure false
    else (do c ← caller; pgdir ← pgdir_of c; src ← page_lookup pgdir srcva; sendable perm src)

-- The end of sys_ipc_try_send: the message, and the receiver made runnable.
deliver : (value u : ℕ) → Command Result
unfolding caller
deliver value u = do
  c ← caller
  from ← reads (λ k. (k.envs c).env_id)
  modify (
      with_env u (λ v. record v {
        env_ipc_from = from;
        env_ipc_value = value;
        env_tf = record (v.env_tf) { tf_regs = record (v.env_tf.tf_regs) { reg_eax = 0 } };
        env_ipc_recving = false;
        env_status = env_runnable;
      }))
  pure (ok 0)

-- After the page is mapped: a panic if it is not there, else `env_ipc_perm` and the message.
mapped_then : (value perm u : ℕ) → Option (ℕ × Slot) → Command Result
unfolding deliver
mapped_then value perm u none = panic
mapped_then value perm u (some _) = do
  modify (with_env u (λ v. record v { env_ipc_perm = perm }))
  deliver value u

-- The receiver already has a page at `env_ipc_dstva`, or the sender's is mapped there.
send_page : (envid value srcva perm u : ℕ) → Option (ℕ × Slot) → Command Result
unfolding caller sys_page_map page_lookup mapped_then
send_page envid value srcva perm u (some _) = pure (err no_mem)
send_page envid value srcva perm u none = do
  c ← caller
  me ← reads (λ k. (k.envs c).env_id)
  dstva ← reads (λ k. (k.envs u).env_ipc_dstva)
  -- the result of sys_page_map is not looked at
  sys_page_map me srcva envid dstva perm >> done
  pgdir ← pgdir_of u
  dst ← page_lookup pgdir dstva
  mapped_then value perm u dst

transfer : (envid value srcva perm u : ℕ) → Command Result
unfolding page_lookup send_page deliver
transfer envid value srcva perm u = do
  modify (with_env u (λ v. record v { env_ipc_perm = 0 }))
  dstva ← reads (λ k. (k.envs u).env_ipc_dstva)
  let sends = (do
    pgdir ← pgdir_of u
    old ← page_lookup pgdir dstva
    send_page envid value srcva perm u old)
  if not (srcva == ipc_no_page) && not (dstva == ipc_no_page) then sends else deliver value u

try_send : (envid value srcva perm u : ℕ) → Command Result
unfolding src_is_good transfer
try_send envid value srcva perm u = do
  recving ← reads (λ k. (k.envs u).env_ipc_recving)
  let sends = (do
    good ← src_is_good srcva perm
    if good then transfer envid value srcva perm u else pure (err inval))
  if recving then sends else pure (err ipc_not_recv)

unfoldable pub sys_ipc_try_send : (envid value srcva perm : ℕ) → Command Result
unfolding envid2env try_send
sys_ipc_try_send envid value srcva perm = do
  f ← envid2env envid false
  with_found f (try_send envid value srcva perm)

-- `while (curenv->env_ipc_recving) sys_yield();`
yield_while : ℕ → Command (Unit {0})
unfolding caller sched_yield
yield_while zero = λ _. out_of_fuel
yield_while (suc fuel) = do
  c ← caller
  recving ← reads (λ k. (k.envs c).env_ipc_recving)
  let rest = yield_while fuel
  let again = sched_yield >> rest
  if recving then again else done

-- `c` waits. (sys_yield does not return, so the loop has one round.)
wait_as : (dstva c : ℕ) → Command Result
unfolding yield_while
wait_as dstva c = do
  modify (
      with_env c (λ v. record v {
        env_ipc_recving = true;
        env_ipc_dstva = dstva;
        env_status = env_not_runnable;
      }))
  yield_while 1
  pure (ok 0)

block : ℕ → Command Result
unfolding caller wait_as
block dstva = do c ← caller; wait_as dstva c

unfoldable pub sys_ipc_recv : ℕ → Command Result
unfolding block
sys_ipc_recv dstva =
    if not (ipc_no_page == dstva) && (leb utop dstva || not (dstva % pgsize == 0))
    then pure (err inval)
    else block dstva
