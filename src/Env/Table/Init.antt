-- ===== src/Env/Table/Init.antt =====
-- env_init: the free list of environments in the order of the array.
use library_os_exokernel_imp.Base.{
  if◌then◌else◌, ltb, ℕ, zero, suc, ◌+◌, ◌-◌, ◌≤◌, ◌<◌, ◌≡◌, refl, inl, inr, none, some, arith,
  ◌==◌, Bool-cases, update,
}
use library_os_exokernel_imp.Kernel.{Kernel, Env, idle, nenv, env_free_status}
use library_os_exokernel_imp.Kernel.Command.{returned}
use library_os_exokernel_imp.Env.Table.{zero_env, link_envs, env_init}

link_envs-before :
    (n i : ℕ) (envs : ℕ → Env) (j : ℕ) → 0 < i → suc j < i → link_envs n i envs j ≡ envs j
unfolding link_envs
link_envs-before zero i envs j pos lt = refl
link_envs-before (suc n) i envs j pos lt = ground (
  arith,
  link_envs-before n (i + 1)
      (update envs (i - 1) (record (envs (i - 1)) { env_type = idle; env_link = some i })) j
      (omega arith) (omega arith),
)

link_envs-after :
    (n i : ℕ) (envs : ℕ → Env) (j : ℕ) → 0 < i → i + n ≤ suc j → link_envs n i envs j ≡ envs j
unfolding link_envs
link_envs-after zero i envs j pos le = refl
link_envs-after (suc n) i envs j pos le = ground (
  arith,
  link_envs-after n (i + 1)
      (update envs (i - 1) (record (envs (i - 1)) { env_type = idle; env_link = some i })) j
      (omega arith) (omega arith),
)

link_envs-linked :
    (n i : ℕ) (envs : ℕ → Env) (j : ℕ)
    → 0 < i
    → i ≤ suc j
    → suc j < i + n
    → link_envs n i envs j ≡ record (envs j) { env_type = idle; env_link = some (j + 1) }
unfolding link_envs
link_envs-linked zero i envs j pos lo hi = absurd (omega arith)
link_envs-linked (suc n) i envs j pos lo hi = elim (Bool-cases (j == i - 1)) [
  | inl here ↦ ground (
    arith,
    link_envs-before n (i + 1)
        (update envs (i - 1) (record (envs (i - 1)) { env_type = idle; env_link = some i })) j
        (omega arith) (ground arith),
  )
  | inr later ↦ ground (
    arith,
    link_envs-linked n (i + 1)
        (update envs (i - 1) (record (envs (i - 1)) { env_type = idle; env_link = some i })) j
        (omega arith) (ground arith) (omega arith),
  )
]

-- After env_init the slot `j` of `envs` is free with the id 0 and no address space, and the free
-- list runs through the whole array in order: it starts at slot 0, each slot leads to the next,
-- and the last one ends it.
pub env_init_lem :
    (k : Kernel) (j : ℕ)
    → j < nenv
    → (k' : Kernel) × (env_init k ≡ returned tt k')
      × (k'.env_free_list ≡ some 0)
      × ((k'.envs j).env_link ≡ (if ltb (j + 1) nenv then some (j + 1) else none))
      × ((k'.envs j).env_status ≡ env_free_status)
      × ((k'.envs j).env_id ≡ 0)
      × ((k'.envs j).env_pgdir ≡ none)
unfolding env_init
env_init_lem k j lt = elim (Bool-cases (j == 1023)) [
  | inl last ↦
      let after = link_envs-after 1023 1 (λ _. zero_env) j (omega arith) (ground arith) in
      (
        _,
        refl,
        refl,
        ground arith,
        ground (arith, after),
        ground (arith, after),
        ground (arith, after),
      )
  | inr inner ↦
      let linked =
        link_envs-linked 1023 1 (λ _. zero_env) j (omega arith) (omega arith) (ground arith) in
      (
        _,
        refl,
        refl,
        ground (arith, linked),
        ground (arith, linked),
        ground (arith, linked),
        ground (arith, linked),
      )
]
