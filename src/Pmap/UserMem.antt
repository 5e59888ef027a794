-- ===== src/Pmap/UserMem.antt =====
-- The check of user pointers in kern/pmap.c: user_mem_check. (user_mem_assert, which destroys the
-- environment, stands with env_destroy in `Env.Destroy`.)
pub mod Sound
use library_os_exokernel_imp.Base.{
  ℕ, zero, suc, ◌+◌, ◌-◌, ◌*◌, ◌/◌, ◌%◌, ◌^◌, Bool, true, false, not, ◌&&◌, ◌||◌, Option, none,
  some, List, [], ◌∷◌, ◌==◌, ltb, leb, if◌then◌else◌, is_null, same_ptr, bit_and, bit_or,
}
use library_os_exokernel_imp.Mmu.{
  u32, pgsize, pgnum, pdx, ptx, pte_p, pte_w, pte_u, pte_addr, has, ulim, round_down,
}
use library_os_exokernel_imp.Kernel.{Kernel, Page, with_page, with_word, with_zero}
use library_os_exokernel_imp.Kernel.Command.{
  Command, Outcome, returned, panicked, pure, ◌>>=◌, ◌>>◌, panic, reads, modify, done, when,
}
use library_os_exokernel_imp.Kernel.Command.{out_of_fuel, non_null}
use library_os_exokernel_imp.Error.{Result, ok, err, fault}
use library_os_exokernel_imp.Pmap.Tables.{Slot, load, pgdir_walk}

-- The tests of one round: below ULIM, a page table, and an entry that has every bit asked for.
entry_permits : ℕ → Option Slot → Command Bool
entry_permits check_perm none = pure false
entry_permits check_perm (some s) = do pte ← load s; pure (bit_and check_perm pte == check_perm)

page_permits : ℕ → ℕ → ℕ → Command Bool
unfolding pgdir_walk entry_permits
page_permits pgdir check_perm va_cnt =
    if leb ulim va_cnt
    then pure false
    else (do s ← pgdir_walk pgdir va_cnt false; entry_permits check_perm s)

-- How far a round moves on: a page, or what is left of the length if that is less.
abbrev pub advance : ℕ → ℕ
advance iterate_len = if ltb iterate_len pgsize then iterate_len else pgsize

abbrev pub remain : ℕ → ℕ
remain iterate_len = if ltb iterate_len pgsize then iterate_len else iterate_len - pgsize

-- `goto ERROR_RET`
check_fails : (va len va_cnt iterate_len : ℕ) → Command Result
check_fails va len va_cnt iterate_len = do
  modify (λ k. record k {
    user_mem_check_addr = if iterate_len == len then va else round_down va_cnt pgsize;
  })
  pure (err fault)

abbrev pub next_cnt : (va_cnt iterate_len : ℕ) → ℕ
next_cnt va_cnt iterate_len = u32 (va_cnt + advance iterate_len)

-- The `do ... while` loop, from the label of its body.
check_from : ℕ → (pgdir check_perm va len va_cnt iterate_len : ℕ) → Command Result
unfolding page_permits check_fails
check_from zero pgdir check_perm va len va_cnt iterate_len = λ _. out_of_fuel
check_from (suc fuel) pgdir check_perm va len va_cnt iterate_len = do
  good ← page_permits pgdir check_perm va_cnt
  let cnt = next_cnt va_cnt iterate_len
  let rest = check_from fuel pgdir check_perm va len cnt (remain iterate_len)
  let again = if ltb cnt (u32 (va + len)) then rest else pure (ok 0)
  if good then again else check_fails va len va_cnt iterate_len

-- A round takes a page off the length, so `len / PGSIZE + 2` rounds are enough.
unfoldable pub user_mem_check : ℕ → (va len perm : ℕ) → Command Result
unfolding check_from
user_mem_check env va len perm = do
  d ← reads (λ k. (k.envs env).env_pgdir)
  pgdir ← non_null d
  check_from (len / pgsize + 2) pgdir (bit_or perm pte_p) va len va len
