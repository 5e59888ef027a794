-- ===== src/Env/Table.antt =====
-- The table of environments of kern/env.c: envid2env, env_init, env_setup_vm and env_alloc. An
-- `envid_t` is kept as its 32-bit pattern, so it is negative from 2 ^ 31 on.
pub mod Ident
pub mod Init
pub mod Alloc
use library_os_exokernel_imp.Base.{
  ℕ, zero, suc, ◌+◌, ◌-◌, ◌*◌, ◌/◌, ◌%◌, ◌^◌, Bool, true, false, not, ◌&&◌, ◌||◌, Option, none,
  some, List, [], ◌∷◌, ◌==◌, ltb, leb, if◌then◌else◌, is_null, same_ptr, bit_and, bit_or, update,
}
use library_os_exokernel_imp.Mmu.{
  u32, pgsize, pgnum, pdx, ptx, pte_p, pte_w, pte_u, pte_addr, has, ulim, round_down, round_up,
  utop, uvpt, ustacktop, gd_ut, gd_ud, fl_if, pgaddr,
}
use library_os_exokernel_imp.Kernel.{
  Kernel, Page, Env, EnvType, user, idle, zero_tf, with_page, with_word, with_env, env_free_status,
  env_dying, env_runnable, env_running, env_not_runnable, nenv,
}
use library_os_exokernel_imp.Kernel.Command.{
  Command, Outcome, returned, running, monitoring, panicked, out_of_fuel, pure, ◌>>=◌, ◌>>◌, panic,
  reads, modify, done, when, non_null,
}
use library_os_exokernel_imp.Error.{Result, ok, err, no_mem, no_free_env, bad_env}
use library_os_exokernel_imp.Pmap.Pages.{
  page_alloc, page_decref, alloc_zero, incref, page2kva, kaddr, pa2page,
}
use library_os_exokernel_imp.Pmap.Tables.{Slot, load, store, page_remove, page_insert, pgdir_walk}

abbrev pub envx : ℕ → ℕ
envx envid = envid % nenv

-- What envid2env returns, with what it writes to `*env_store`: on an error that is NULL, or
-- nothing.
pub data Found : Type 0 where
  found : Option ℕ → Found
  rejected : (stored_null : Bool) → Found

-- The permission check, for an environment `e` that `envid` names.
permitted : Bool → ℕ → Option ℕ → Command Found
permitted false e cur = pure (found (some e))
permitted true e none = panic
permitted true e (some c) = do
  parent ← reads (λ k. (k.envs e).env_parent_id)
  caller ← reads (λ k. (k.envs c).env_id)
  if not (e == c) && not (parent == caller) then pure (rejected true) else pure (found (some e))

unfoldable pub envid2env : ℕ → Bool → Command Found
unfolding permitted
envid2env envid checkperm = do
  cur ← reads (λ k. k.curenv)
  status ← reads (λ k. (k.envs (envx envid)).env_status)
  id ← reads (λ k. (k.envs (envx envid)).env_id)
  let named = permitted checkperm (envx envid) cur
  if leb (2 ^ 31) envid
      then pure (rejected false)
      else if envid == 0
      then pure (found cur)
      else if (status == env_free_status) || not (id == envid)
      then pure (rejected true)
      else named

-- An element of `envs` after the memset; ENV_FREE and ENV_TYPE_USER are 0.
abbrev pub zero_env : Env
zero_env = record {
  env_tf = zero_tf;
  env_link = none;
  env_id = 0;
  env_parent_id = 0;
  env_type = user;
  env_status = env_free_status;
  env_runs = 0;
  env_cpunum = 0;
  env_pgdir = none;
  env_pgfault_upcall = 0;
  env_ipc_recving = false;
  env_ipc_dstva = 0;
  env_ipc_value = 0;
  env_ipc_from = 0;
  env_ipc_perm = 0;
}

-- `for (i = ...; i < NENV; i++)`, with the rounds left: envs[i - 1] is linked to envs[i].
link_envs : ℕ → ℕ → (ℕ → Env) → ℕ → Env
link_envs zero i envs = envs
link_envs (suc n) i envs =
    link_envs n (i + 1)
      (update envs (i - 1) (record (envs (i - 1)) { env_type = idle; env_link = some i }))

-- (The reload of the segment registers by env_init_percpu leaves this state alone.)
pub env_init : Command (Unit {0})
env_init = modify (λ k.
    let linked = link_envs (nenv - 1) 1 (λ _. zero_env) in
    record k {
      envs = update linked (nenv - 1) (record (linked (nenv - 1)) { env_link = none });
      env_free_list = some 0;
    })

-- env_setup_vm once the page directory is allocated
setup_vm_with : ℕ → Option ℕ → Command Result
unfolding kaddr
setup_vm_with e none = pure (err no_mem)
setup_vm_with e (some p) = do
  pgdir ← page2kva p
  modify (with_env e (λ v. record v { env_pgdir = some pgdir }))
  modify (λ k. record k { frame = update k.frame pgdir (k.frame k.kern_pgdir) })
  incref p
  refs ← reads (λ k. (k.pages p).pp_ref)
  if refs == 1
      then store (pgdir, pdx uvpt) (bit_or (bit_or (pgdir * 4096) pte_p) pte_u) >> pure (ok 0)
      else panic

unfoldable pub env_setup_vm : ℕ → Command Result
unfolding page_alloc setup_vm_with
env_setup_vm e = do p ← page_alloc alloc_zero; setup_vm_with e p

-- The new `env_id` of the slot `e` whose last one is `id`.
unfoldable pub next_id : ℕ → ℕ → ℕ
next_id e id =
    let next = u32 (id + 4096) in
    let generation = next - next % 1024 in
    bit_or (if (generation == 0) || leb (2 ^ 31) generation then 4096 else generation) e

abbrev pub fresh_env : ℕ → ℕ → Env → Env
fresh_env e parent_id v = record v {
  env_id = next_id e v.env_id;
  env_parent_id = parent_id;
  env_type = user;
  env_status = env_runnable;
  env_runs = 0;
  env_tf = record zero_tf {
    tf_ds = bit_or gd_ud 3;
    tf_es = bit_or gd_ud 3;
    tf_ss = bit_or gd_ud 3;
    tf_esp = ustacktop;
    tf_cs = bit_or gd_ut 3;
    tf_eflags = bit_or 0 fl_if;
  };
  env_pgfault_upcall = 0;
  env_ipc_recving = false;
}

-- env_alloc after env_setup_vm
commit_env : ℕ → ℕ → Result → Command Result
commit_env e parent_id (err c) = pure (err c)
commit_env e parent_id (ok _) = do
  modify (with_env e (fresh_env e parent_id))
  modify (λ k. record k { env_free_list = (k.envs e).env_link })
  pure (ok e)

alloc_slot : ℕ → Option ℕ → Command Result
unfolding env_setup_vm commit_env
alloc_slot parent_id none = pure (err no_free_env)
alloc_slot parent_id (some e) = do r ← env_setup_vm e; commit_env e parent_id r

-- `ok e` is a return of 0 with `*newenv_store` set to `e`.
unfoldable pub env_alloc : ℕ → Command Result
unfolding alloc_slot
env_alloc parent_id = do head ← reads (λ k. k.env_free_list); alloc_slot parent_id head
