-- ===== src/Env/Table/Ident.antt =====
-- Environment ids: which environment an id names, and that a slot's next id is a new one.
use library_os_exokernel_imp.Base.{
  ℕ, ◌+◌, ◌*◌, ◌/◌, ◌%◌, ◌^◌, ◌≤◌, ◌<◌, ◌≡◌, ◌≢◌, ◌⊎◌, ◌↔◌, Bool, true, false, Option, none, some,
  arith, ltb, if◌then◌else◌, bit_or,
}
use library_os_exokernel_imp.Base.Bits.{bit_or_fields}
use library_os_exokernel_imp.Kernel.{Kernel, env_free_status}
use library_os_exokernel_imp.Kernel.Command.{returned}
use library_os_exokernel_imp.Env.Table.{found, rejected, envx, envid2env, next_id}

-- What it takes for `e` to be the caller's to change: to be `curenv` or one of its children.
abbrev pub PermittedBy : Option ℕ → Kernel → ℕ → Type 0
PermittedBy none k e = ⊥
PermittedBy (some c) k e = (e ≡ c) ⊎ ((k.envs e).env_parent_id ≡ (k.envs c).env_id)

abbrev pub IsPermitted : Bool → Kernel → ℕ → Type 0
IsPermitted false k e = Unit
IsPermitted true k e = PermittedBy k.curenv k e

-- `envid` names `e`: 0 stands for `curenv`, any other id for the slot that bears it now.
abbrev pub Names : (k : Kernel) (envid : ℕ) (checkperm : Bool) (e : ℕ) → Type 0
Names k envid checkperm e =
    ((envid ≡ 0) × (k.curenv ≡ some e))
    ⊎ ((envid ≢ 0)
        × (envid < 2 ^ 31)
        × (e ≡ envx envid)
        × ((k.envs e).env_status ≢ env_free_status)
        × ((k.envs e).env_id ≡ envid)
        × IsPermitted checkperm k e)

Names-found :
    (k : Kernel) (envid : ℕ) (checkperm : Bool) (e : ℕ)
    → envid2env envid checkperm k ≡ returned (found (some e)) k
    → Names k envid checkperm e
unfolding envid2env
Names-found k envid false e h = ground arith
Names-found k envid true e h = ground arith

found-Names :
    (k : Kernel) (envid : ℕ) (checkperm : Bool) (e : ℕ)
    → Names k envid checkperm e
    → envid2env envid checkperm k ≡ returned (found (some e)) k
unfolding envid2env
found-Names k envid false e n = ground arith
found-Names k envid true e n = ground arith

-- envid2env succeeds with an environment exactly if the id names it: the id 0 names `curenv`, and
-- any other id the slot at its index that is in use and bears that very id, and that is `curenv` or
-- a child of it where permission is checked.
pub envid2env_iff :
    (k : Kernel) (envid : ℕ) (checkperm : Bool) (e : ℕ)
    → (envid2env envid checkperm k ≡ returned (found (some e)) k) ↔ Names k envid checkperm e
envid2env_iff k envid checkperm e =
    (Names-found k envid checkperm e, found-Names k envid checkperm e)

-- A negative id is rejected without a write to `*env_store`.
pub envid2env-negative :
    (k : Kernel) (envid : ℕ) (checkperm : Bool)
    → 2 ^ 31 ≤ envid
    → envid2env envid checkperm k ≡ returned (rejected false) k
unfolding envid2env
envid2env-negative k envid checkperm h = ground arith

generation-sum : (g e : ℕ) → e < 1024 → g % 1024 ≡ 0 → bit_or g e ≡ g + e
generation-sum g e he h =
    let q : g ≡ g / 1024 * 1024 = omega arith in ground (arith, bit_or_fields 10 (g / 1024) e he)

next_id-eq :
    (e id : ℕ)
    → e < 1024
    → id < 2 ^ 31
    → next_id e id ≡ (if ltb (id + 4096) (2 ^ 31) then (id + 4096) / 1024 * 1024 + e else 4096 + e)
unfolding next_id
next_id-eq e id he hid =
    ground (arith, generation-sum ((id + 4096) / 1024 * 1024) e he, generation-sum 4096 e he)

-- For a slot of `envs` whose last id is not negative, the next id names that slot, is a positive
-- `int32_t`, and differs from the last one, so that the old id is no longer accepted.
pub next_id_lem :
    (e id : ℕ)
    → e < 1024
    → id < 2 ^ 31
    → (envx (next_id e id) ≡ e) × (0 < next_id e id) × (next_id e id < 2 ^ 31) × (next_id e id ≢ id)
next_id_lem e id he hid = ground (arith, next_id-eq e id he hid)
