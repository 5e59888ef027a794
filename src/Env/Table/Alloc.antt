-- ===== src/Env/Table/Alloc.antt =====
-- env_alloc: the new environment, its address space, and its failures.
use library_os_exokernel_imp.Base.{
  ℕ, ◌+◌, ◌*◌, ◌%◌, ◌^◌, ◌≤◌, ◌<◌, ◌≡◌, refl, ◌≢◌, Bool, true, false, none, some, List, [], ◌∷◌,
  arith, update, bit_or,
}
use library_os_exokernel_imp.Mmu.{pdx, uvpt, pte_p, pte_u}
use library_os_exokernel_imp.Kernel.{Kernel, with_page, with_env, with_word, env_runnable}
use library_os_exokernel_imp.Kernel.Command.{returned}
use library_os_exokernel_imp.Error.{ok, err, no_mem, no_free_env}
use library_os_exokernel_imp.Pmap.Pages.{alloc_zero}
use library_os_exokernel_imp.Pmap.Pages.FreeList.{
  IsFreeList, allocated, page_alloc-eq, page_alloc-nil, IsFreeList-touch, IsFreeList-allocated,
  Allocated-allocated,
}
use library_os_exokernel_imp.Env.Table.{
  rejected, envx, envid2env, next_id, env_alloc, fresh_env, setup_vm_with,
}
use library_os_exokernel_imp.Env.Table.Ident.{next_id_lem}

-- With no free environment env_alloc returns -E_NO_FREE_ENV and changes nothing.
env_alloc-full :
    (k : Kernel) (parent_id : ℕ)
    → k.env_free_list ≡ none
    → env_alloc parent_id k ≡ returned (err no_free_env) k
unfolding env_alloc
env_alloc-full k parent_id h = ground arith

-- With a free slot but no free page env_alloc returns -E_NO_MEM and changes nothing.
pub env_alloc-no_memory :
    (k : Kernel) (parent_id e : ℕ)
    → k.env_free_list ≡ some e
    → IsFreeList k []
    → env_alloc parent_id k ≡ returned (err no_mem) k
unfolding env_alloc
env_alloc-no_memory k parent_id e h f = ground (arith, page_alloc-nil alloc_zero f)

-- The state after env_setup_vm, from that after page_alloc: the page directory is a copy of the
-- kernel's, but that UVPT maps the directory itself.
unfoldable pub with_vm : (e p : ℕ) → Kernel → Kernel
with_vm e p k = with_word p (pdx uvpt) (bit_or (bit_or (p * 4096) pte_p) pte_u) (
    with_page p (λ g. record g { pp_ref = (g.pp_ref + 1) % 2 ^ 16 })
      (record (with_env e (λ v. record v { env_pgdir = some p }) k) {
        frame = update k.frame p (k.frame k.kern_pgdir);
      }))

setup_vm_with-eq :
    (e p : ℕ) (k : Kernel)
    → p < k.npages
    → k.npages ≤ 2 ^ 20
    → (k.pages p).pp_ref ≡ 0
    → setup_vm_with e (some p) k ≡ returned (ok 0) (with_vm e p k)
unfolding setup_vm_with with_vm
setup_vm_with-eq e p k lt fits zero_ref = ground arith

-- The state after env_alloc has given out the slot `e` with the page directory `p`.
unfoldable pub env_allocated : (parent_id e p : ℕ) → Kernel → Kernel
env_allocated parent_id e p k =
    let v = with_env e (fresh_env e parent_id) (with_vm e p (allocated alloc_zero p k)) in
    record v { env_free_list = (v.envs e).env_link }

env_alloc-eq :
    {k : Kernel} {p : ℕ} {ps : List ℕ} (parent_id e : ℕ)
    → k.env_free_list ≡ some e
    → IsFreeList k (p ∷ ps)
    → env_alloc parent_id k ≡ returned (ok e) (env_allocated parent_id e p k)
unfolding env_alloc env_allocated
env_alloc-eq {k} {p} {ps} parent_id e h f =
    let g = IsFreeList-allocated alloc_zero p k ps f in
    let a = Allocated-allocated alloc_zero p k in
    ground (
      arith,
      page_alloc-eq alloc_zero p k f.chain.0 f.unused.0 (f.addressed p f.unused.0),
      setup_vm_with-eq e p (allocated alloc_zero p k) (ground (arith, a.elsewhere)) g.fits
          a.unreferenced,
    )

-- What env_alloc leaves of the environment `e` that it gives out, and of the tables.
pub record EnvAllocated (parent_id e p : ℕ) (ps : List ℕ) (k k' : Kernel) : Type 0 where
  pub id : (k'.envs e).env_id ≡ next_id e (k.envs e).env_id
  pub named : (k'.envs e).env_id % 1024 ≡ e
  pub positive : (0 < (k'.envs e).env_id) × ((k'.envs e).env_id < 2 ^ 31)
  pub fresh : (k'.envs e).env_id ≢ (k.envs e).env_id
  pub parent : (k'.envs e).env_parent_id ≡ parent_id
  pub status : (k'.envs e).env_status ≡ env_runnable
  pub not_receiving : (k'.envs e).env_ipc_recving ≡ false
  pub directory : (k'.envs e).env_pgdir ≡ some p
  pub list : k'.env_free_list ≡ (k.envs e).env_link
  pub others : (j : ℕ) → j ≢ e → k'.envs j ≡ k.envs j
  pub self_map : k'.frame p (pdx uvpt) ≡ bit_or (bit_or (p * 4096) pte_p) pte_u
  pub kernel_part : (i : ℕ) → i ≢ pdx uvpt → k'.frame p i ≡ k.frame k.kern_pgdir i
  pub counted : (k'.pages p).pp_ref ≡ 1
  pub pages : IsFreeList k' ps

EnvAllocated-env_allocated :
    {k : Kernel} {p : ℕ} {ps : List ℕ} (parent_id e : ℕ)
    → e < 1024
    → (k.envs e).env_id < 2 ^ 31
    → IsFreeList k (p ∷ ps)
    → k.kern_pgdir ≢ p
    → EnvAllocated parent_id e p ps k (env_allocated parent_id e p k)
unfolding env_allocated with_vm allocated
EnvAllocated-env_allocated {k} {p} {ps} parent_id e he small f ne = record {
  id = ground arith;
  named = ground (arith, next_id_lem e (k.envs e).env_id he small);
  positive = ground (arith, next_id_lem e (k.envs e).env_id he small);
  fresh = ground (arith, next_id_lem e (k.envs e).env_id he small);
  parent = ground arith;
  status = ground arith;
  not_receiving = ground arith;
  directory = ground arith;
  list = ground arith;
  others = λ j n. ground arith;
  self_map = ground arith;
  kernel_part = λ i n. ground arith;
  counted = ground arith;
  pages =
      IsFreeList-touch p _ (IsFreeList-allocated alloc_zero p k ps f) f.distinct.0 refl refl refl
        refl;
}

-- With a free slot of `envs` whose last id is not negative and a well-formed list of free pages
-- headed by one that is not the kernel's page directory, env_alloc returns the slot. It gets an id
-- that names the slot, is a positive int32_t and differs from the last one, the caller as parent,
-- ENV_RUNNABLE, and a page directory of its own that agrees with the kernel's but for the entry at
-- UVPT, which maps the directory itself; the page is off the free list with one reference, and no
-- other environment has changed.
pub env_alloc-EnvAllocated :
    {k : Kernel} {p : ℕ} {ps : List ℕ} (parent_id e : ℕ)
    → e < 1024
    → (k.envs e).env_id < 2 ^ 31
    → k.env_free_list ≡ some e
    → IsFreeList k (p ∷ ps)
    → k.kern_pgdir ≢ p
    → (k' : Kernel) × (env_alloc parent_id k ≡ returned (ok e) k')
      × EnvAllocated parent_id e p ps k k'
env_alloc-EnvAllocated {k} {p} parent_id e he small h f ne = (
  env_allocated parent_id e p k,
  env_alloc-eq parent_id e h f,
  EnvAllocated-env_allocated parent_id e he small f ne,
)

-- When env_alloc gives out a slot again whose last id was positive and named the slot, under the
-- conditions on the free pages that let it succeed, the old id is stale: envid2env rejects it and
-- stores NULL.
pub envid2env-stale :
    {k : Kernel} {p : ℕ} {ps : List ℕ} (parent_id e : ℕ) (checkperm : Bool)
    → e < 1024
    → (k.envs e).env_id ≢ 0
    → (k.envs e).env_id < 2 ^ 31
    → envx (k.envs e).env_id ≡ e
    → k.env_free_list ≡ some e
    → IsFreeList k (p ∷ ps)
    → k.kern_pgdir ≢ p
    → (k' : Kernel) × (env_alloc parent_id k ≡ returned (ok e) k')
      × (envid2env (k.envs e).env_id checkperm k' ≡ returned (rejected true) k')
unfolding envid2env
envid2env-stale {k} {p} parent_id e checkperm he nz small own h f ne =
    let a = EnvAllocated-env_allocated parent_id e he small f ne in
    (
      env_allocated parent_id e p k,
      env_alloc-eq parent_id e h f,
      ground (arith, a.id, next_id_lem e (k.envs e).env_id he small),
    )
