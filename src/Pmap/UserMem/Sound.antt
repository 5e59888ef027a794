-- ===== src/Pmap/UserMem/Sound.antt =====
-- user_mem_check against the page tables: what it grants, where it stops, and that it ends.
use library_os_exokernel_imp.Base.{
  ℕ, zero, suc, ◌+◌, ◌*◌, ◌/◌, ◌%◌, ◌^◌, ◌≤◌, ◌<◌, ◌≡◌, refl, ap, sym, ◌∙◌, ◌⊎◌, inl, inr, true,
  false, some, arith, ◌==◌, ltb, leb, if◌then◌else◌, Bool-cases, bit_or, bit_and,
}
use library_os_exokernel_imp.Mmu.{u32, has, pgnum, pdx, ptx, pte_p}
use library_os_exokernel_imp.Kernel.{Kernel}
use library_os_exokernel_imp.Kernel.Command.{returned, Outcome, non_null, ◌>>=◌}
use library_os_exokernel_imp.Error.{Result, ok, err, fault}
use library_os_exokernel_imp.Pmap.Tables.{pgdir_walk}
use library_os_exokernel_imp.Pmap.UserMem.{
  page_permits, check_from, user_mem_check, check_fails, next_cnt, remain,
}

-- The user may access the page of `va`: it is below ULIM, its table is there, and the entry has
-- every bit of `check_perm`.
pub record Grants (k : Kernel) (pgdir check_perm va : ℕ) : Type 0 where
  pub below : va < 0xef80_0000
  pub table : has (k.frame pgdir (pdx va)) pte_p ≡ true
  pub entry : bit_and check_perm (k.frame (pgnum (k.frame pgdir (pdx va))) (ptx va)) ≡ check_perm

-- The page tables that the directory names are in memory.
pub record IsDirectory (k : Kernel) (pgdir : ℕ) : Type 0 where
  pub fits : k.npages ≤ 2 ^ 20
  pub in_memory : (i : ℕ) → has (k.frame pgdir i) pte_p ≡ true → pgnum (k.frame pgdir i) < k.npages

page_permits_cases :
    {k : Kernel} {pgdir : ℕ} (check_perm va : ℕ)
    → IsDirectory k pgdir
    → ((page_permits pgdir check_perm va k ≡ returned true k) × Grants k pgdir check_perm va)
      ⊎ ((page_permits pgdir check_perm va k ≡ returned false k) × ¬ Grants k pgdir check_perm va)
unfolding page_permits pgdir_walk
page_permits_cases {k} {pgdir} check_perm va d = elim (Bool-cases (leb 0xef80_0000 va)) [
  | inl high ↦ inr (ground arith, λ g. ground (arith, g.below))
  | inr low ↦ elim (Bool-cases (has (k.frame pgdir (pdx va)) pte_p)) [
    | inl there ↦
        elim (Bool-cases
          (bit_and check_perm (k.frame (pgnum (k.frame pgdir (pdx va))) (ptx va)) == check_perm)) [
            | inl all ↦ inl (
              ground (arith, d.in_memory (pdx va), d.fits),
              record { below = ground arith; table = there; entry = ground arith },
            )
            | inr lacks ↦
                inr (ground (arith, d.in_memory (pdx va), d.fits), λ g. ground (arith, g.entry))
          ]
    | inr absent ↦ inr (ground arith, λ g. ground (arith, g.table))
  ]
]

-- The page is what matters.
Grants-page :
    {k : Kernel} {pgdir check_perm : ℕ} (a b : ℕ)
    → a % 4096 ≡ 0
    → a ≤ b
    → b < a + 4096
    → Grants k pgdir check_perm a
    → Grants k pgdir check_perm b
Grants-page {k} {pgdir} {check_perm} a b al le lt g =
    let p : pdx a ≡ pdx b = omega arith in
    let t : ptx a ≡ ptx b = omega arith in
    record {
      below = omega (arith, g.below);
      table = ap (λ i. has (k.frame pgdir i) pte_p) (sym p) ∙ g.table;
      entry = ground (arith, p, t, g.entry);
    }

check_from-granted :
    (fuel : ℕ) {k : Kernel} (pgdir check_perm va len va_cnt iterate_len : ℕ)
    → page_permits pgdir check_perm va_cnt k ≡ returned true k
    → check_from (suc fuel) pgdir check_perm va len va_cnt iterate_len k
      ≡ (if ltb (next_cnt va_cnt iterate_len) (u32 (va + len))
            then check_from fuel pgdir check_perm va len
                (next_cnt va_cnt iterate_len)
                (remain iterate_len)
            else returned (ok 0))
          k
unfolding check_from
check_from-granted fuel pgdir check_perm va len va_cnt iterate_len h = rw h

check_from-refused :
    (fuel : ℕ) {k : Kernel} (pgdir check_perm va len va_cnt iterate_len : ℕ)
    → page_permits pgdir check_perm va_cnt k ≡ returned false k
    → check_from (suc fuel) pgdir check_perm va len va_cnt iterate_len k
      ≡ check_fails va len va_cnt iterate_len k
unfolding check_from
check_from-refused fuel pgdir check_perm va len va_cnt iterate_len h = rw h

-- How a check of the addresses from `from` to `end` ends, `out` being the outcome: all are granted,
-- or the check stops at the first page that is not, with its address in `user_mem_check_addr`.
pub data Checked (k : Kernel) (pgdir check_perm from end : ℕ) (out : Outcome Result) : Type 0 where
  granted :
      out ≡ returned (ok 0) k
      → ((a : ℕ) → from ≤ a → a < end → Grants k pgdir check_perm a)
      → Checked k pgdir check_perm from end out
  refused :
      (bad : ℕ)
      → from ≤ bad
      → (bad ≡ from) ⊎ (bad < end)
      → ¬ Grants k pgdir check_perm bad
      → ((a : ℕ) → from ≤ a → a < bad → Grants k pgdir check_perm a)
      → out ≡ returned (err fault) (record k { user_mem_check_addr = bad })
      → Checked k pgdir check_perm from end out

check_fails-eq :
    (k : Kernel) (va len va_cnt iterate_len : ℕ)
    → va_cnt % 4096 ≡ 0
    → va_cnt + iterate_len ≡ va + len
    → check_fails va len va_cnt iterate_len k
      ≡ returned (err fault) (record k { user_mem_check_addr = va_cnt })
unfolding check_fails
check_fails-eq k va len va_cnt iterate_len al sum =
    ap (λ b. returned (err fault) (record k { user_mem_check_addr = b })) (ground arith)

-- The arithmetic of a round that ends the loop, and of one that does not.
last_round :
    (va_cnt iterate_len end a : ℕ)
    → va_cnt + iterate_len ≡ end
    → end < 2 ^ 32
    → ltb (next_cnt va_cnt iterate_len) (u32 end) ≡ false
    → a < end
    → a < va_cnt + 4096
last_round va_cnt iterate_len end a sum small last lt = ground arith

next_round :
    (va_cnt iterate_len end : ℕ)
    → va_cnt + iterate_len ≡ end
    → end < 2 ^ 32
    → ltb (next_cnt va_cnt iterate_len) (u32 end) ≡ true
    → (next_cnt va_cnt iterate_len ≡ va_cnt + 4096) × (remain iterate_len + 4096 ≡ iterate_len)
next_round va_cnt iterate_len end sum small more = ground arith

module _ {k : Kernel} {pgdir check_perm : ℕ} where
  Checked-page :
      (from end : ℕ) {out out' : Outcome Result}
      → from % 4096 ≡ 0
      → from + 4096 < end
      → out ≡ out'
      → Grants k pgdir check_perm from
      → Checked k pgdir check_perm (from + 4096) end out'
      → Checked k pgdir check_perm from end out
  Checked-page from end al lt eq g (granted e all) = granted (eq ∙ e) (λ a lo hi.
      elim (Bool-cases (ltb a (from + 4096))) [
        | inl near ↦ Grants-page from a al lo (ground arith) g
        | inr far ↦ all a (ground arith) hi
      ])
  Checked-page from end al lt eq g (refused bad lo where_bad no_grant before e) =
      refused bad (omega arith) (inr (omega (arith, where_bad))) no_grant
        (λ a lo' hi. elim (Bool-cases (ltb a (from + 4096))) [
          | inl near ↦ Grants-page from a al lo' (ground arith) g
          | inr far ↦ before a (ground arith) hi
        ])
        (eq ∙ e)

check_from-Checked :
    (fuel : ℕ) {k : Kernel} {pgdir : ℕ} (check_perm va len va_cnt iterate_len : ℕ)
    → IsDirectory k pgdir
    → va_cnt % 4096 ≡ 0
    → va_cnt + iterate_len ≡ va + len
    → va + len < 2 ^ 32
    → iterate_len < fuel * 4096
    → Checked k pgdir check_perm va_cnt
        (va + len)
        (check_from fuel pgdir check_perm va len va_cnt iterate_len k)
check_from-Checked zero check_perm va len va_cnt il d al sum small enough = absurd (omega arith)
check_from-Checked (suc fuel) {k} {pgdir} check_perm va len va_cnt il d al sum small enough =
    elim (page_permits_cases check_perm va_cnt d) [
      | inr (e, bad) ↦
          refused va_cnt (omega arith) (inl refl) bad (λ a lo hi. absurd (omega arith))
            (check_from-refused fuel pgdir check_perm va len va_cnt il e
              ∙ check_fails-eq k va len va_cnt il al sum)
      | inl (e, g) ↦
          let step = check_from-granted fuel pgdir check_perm va len va_cnt il e in
          let rest = check_from fuel pgdir check_perm va len (next_cnt va_cnt il) (remain il) in
          elim (Bool-cases (ltb (next_cnt va_cnt il) (u32 (va + len)))) [
            | inr last ↦
                granted (step ∙ ap (λ b. (if b then rest else returned (ok 0)) k) last) (λ a lo hi.
                  Grants-page va_cnt a al lo (last_round va_cnt il (va + len) a sum small last hi)
                    g)
            | inl more ↦
                let n = next_round va_cnt il (va + len) sum small more in
                Checked-page va_cnt (va + len) al (ground (arith, n))
                  (step
                    ∙ ap (λ b. (if b then rest else returned (ok 0)) k) more
                    ∙ ap (λ c. check_from fuel pgdir check_perm va len c (remain il) k) n.0)
                  g
                  (check_from-Checked fuel check_perm va len (va_cnt + 4096) (remain il) d
                    (omega arith) (omega (arith, n)) small (omega (arith, n)))
          ]
    ]

Checked-same :
    {k : Kernel} {pgdir check_perm from end : ℕ} {out out' : Outcome Result}
    → out ≡ out'
    → Checked k pgdir check_perm from end out'
    → Checked k pgdir check_perm from end out
Checked-same eq (granted e all) = granted (eq ∙ e) all
Checked-same eq (refused bad lo at no_grant before e) = refused bad lo at no_grant before (eq ∙ e)

user_mem_check-eq :
    (k : Kernel) {pgdir : ℕ} (env va len perm : ℕ)
    → (k.envs env).env_pgdir ≡ some pgdir
    → user_mem_check env va len perm k
      ≡ check_from (len / 4096 + 2) pgdir (bit_or perm pte_p) va len va len k
unfolding user_mem_check
user_mem_check-eq k {pgdir} env va len perm e =
    ap
      (λ d. (non_null d >>= λ p. check_from (len / 4096 + 2) p (bit_or perm pte_p) va len va len) k)
      e

-- The check of an aligned buffer that does not wrap around, for an environment whose page
-- directory names tables in memory, ends: it returns 0 and then every byte of the buffer is in a
-- page that the user may access with `perm`, or it returns -E_FAULT with `user_mem_check_addr` the
-- first address that is not.
pub user_mem_check-Checked :
    {k : Kernel} {pgdir : ℕ} (env va len perm : ℕ)
    → (k.envs env).env_pgdir ≡ some pgdir
    → IsDirectory k pgdir
    → va % 4096 ≡ 0
    → va + len < 2 ^ 32
    → Checked k pgdir (bit_or perm pte_p) va (va + len) (user_mem_check env va len perm k)
user_mem_check-Checked {k} env va len perm e d al small =
    Checked-same (user_mem_check-eq k env va len perm e) (
      check_from-Checked (len / 4096 + 2) (bit_or perm pte_p) va len va len d al refl small
        (omega arith))

-- A buffer shorter than a page that does not wrap around passes on the permissions of the page of
-- its first address alone, where the page directory names tables in memory: from an address that
-- is not aligned it may reach into the next page, of which nothing is asked.
pub user_mem_check-tail :
    {k : Kernel} {pgdir : ℕ} (env va len perm : ℕ)
    → (k.envs env).env_pgdir ≡ some pgdir
    → IsDirectory k pgdir
    → va + len < 2 ^ 32
    → len < 4096
    → Grants k pgdir (bit_or perm pte_p) va
    → user_mem_check env va len perm k ≡ returned (ok 0) k
user_mem_check-tail {k} {pgdir} env va len perm e d small short g =
    elim (page_permits_cases (bit_or perm pte_p) va d) [
      | inr (_, bad) ↦ absurd (bad g)
      | inl (h, _) ↦
          user_mem_check-eq k env va len perm e
          ∙ (let rounds : len / 4096 + 2 ≡ 2 = omega arith in
              ap (λ n. check_from n pgdir (bit_or perm pte_p) va len va len k) rounds)
          ∙ check_from-granted 1 pgdir (bit_or perm pte_p) va len va len h
          ∙ ap
              (λ b.
                (if b
                    then check_from 1 pgdir (bit_or perm pte_p) va len (next_cnt va len)
                        (remain len)
                    else returned (ok 0))
                  k)
              (let last : ltb (next_cnt va len) (u32 (va + len)) ≡ false = ground arith in last)
    ]
