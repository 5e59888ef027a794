-- ===== src/Env/Free.antt =====
-- env_free of kern/env.c.
use library_os_exokernel_imp.Base.{ℕ, zero, suc, ◌+◌, ◌*◌, none, some, same_ptr}
use library_os_exokernel_imp.Mmu.{pdx, pte_p, pte_addr, has, utop, pgaddr}
use library_os_exokernel_imp.Kernel.{with_env, env_free_status}
use library_os_exokernel_imp.Kernel.Command.{
  Command, ◌>>=◌, ◌>>◌, reads, modify, done, when, non_null,
}
use library_os_exokernel_imp.Pmap.Pages.{page_decref, kaddr, pa2page}
use library_os_exokernel_imp.Pmap.Tables.{load, store, page_remove}

-- The loop over the entries of a page table `pt`, with the rounds left.
free_ptes : ℕ → (pgdir pt pdeno pteno : ℕ) → Command (Unit {0})
unfolding page_remove pgaddr
free_ptes zero pgdir pt pdeno pteno = done
free_ptes (suc n) pgdir pt pdeno pteno = do
  pte ← load (pt, pteno)
  when (has pte pte_p) (page_remove pgdir (pgaddr pdeno pteno 0))
  free_ptes n pgdir pt pdeno (pteno + 1)

free_table : (pgdir pdeno pde : ℕ) → Command (Unit {0})
unfolding kaddr pa2page free_ptes page_decref
free_table pgdir pdeno pde = do
  pt ← kaddr (pte_addr pde)
  free_ptes 1024 pgdir pt pdeno 0
  store (pgdir, pdeno) 0
  pp ← pa2page (pte_addr pde)
  page_decref pp

free_pdes : ℕ → (pgdir pdeno : ℕ) → Command (Unit {0})
unfolding free_table
free_pdes zero pgdir pdeno = done
free_pdes (suc n) pgdir pdeno = do
  pde ← load (pgdir, pdeno)
  when (has pde pte_p) (free_table pgdir pdeno pde)
  free_pdes n pgdir (pdeno + 1)

abbrev pub lcr3 : ℕ → Command (Unit {0})
lcr3 pgdir = modify (λ k. record k { cr3 = pgdir })

unfoldable pub env_free : ℕ → Command (Unit {0})
unfolding free_pdes pa2page page_decref
env_free e = do
  cur ← reads (λ k. k.curenv)
  kern_pgdir ← reads (λ k. k.kern_pgdir)
  when (same_ptr (some e) cur) (lcr3 kern_pgdir)
  d ← reads (λ k. (k.envs e).env_pgdir)
  pgdir ← non_null d
  free_pdes (pdx utop) pgdir 0
  modify (with_env e (λ v. record v { env_pgdir = none }))
  pp ← pa2page (pgdir * 4096)
  page_decref pp
  modify (λ k.
      with_env e (λ v. record v { env_status = env_free_status; env_link = k.env_free_list })
        (record k { env_free_list = some e }))
