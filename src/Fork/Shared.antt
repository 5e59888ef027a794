-- ===== src/Fork/Shared.antt =====
-- What duppage does to a writable page: both environments map it for a copy on the next write.
use mathlib.Core.Path.{subst}
use library_os_exokernel_imp.Base.{
  ℕ, ◌*◌, ◌/◌, ◌%◌, ◌^◌, ◌<◌, ◌≤◌, ◌≡◌, ap, sym, ◌∙◌, ◌≢◌, Bool, true, false, not, Option, none,
  some, ◌&&◌, ◌==◌, if◌then◌else◌, bit_and, bit_or, arith, ==_false,
}
use library_os_exokernel_imp.Mmu.{u32, pgnum, pdx, ptx, pte_p, pte_w, has, utop}
use library_os_exokernel_imp.Kernel.{Kernel}
use library_os_exokernel_imp.Kernel.Command.{
  Command, Outcome, returned, and_then, pure, non_null, reads, ◌>>=◌, ◌>>◌,
}
use library_os_exokernel_imp.Error.{Result, ok, err, inval}
use library_os_exokernel_imp.Env.Table.{found, envid2env}
use library_os_exokernel_imp.Pmap.Tables.Walk.{HasTable, translate}
use library_os_exokernel_imp.Pmap.Tables.Written.{EntryInMemory}
use library_os_exokernel_imp.Pmap.Tables.Insert.{Inserted}
use library_os_exokernel_imp.Syscall.Memory.{sys_page_map, check_addr_scale}
use library_os_exokernel_imp.Syscall.Memory.Map.{IsPresent, sys_page_map-Inserted}
use library_os_exokernel_imp.Syscall.Caller.{caller}
use library_os_exokernel_imp.Fork.{
  pte_cow, vpd, vpt, is_user, cow_perm, share_cow, share_readable, share, duppage,
}
use library_os_exokernel_imp.Fork.Flags.{cow_perm-lt, marked, cow_perm-marked, has-cow_perm}

envid2env-curenv :
    (checkperm : Bool) (e : ℕ) (k : Kernel)
    → k.curenv ≡ some e
    → envid2env 0 checkperm k ≡ returned (found (some e)) k
unfolding envid2env
envid2env-curenv checkperm e k cur = ap (λ c. returned (found c) k) cur

-- The address of a page
abbrev pub va_of : ℕ → ℕ
va_of pn = u32 (pn * 4096)

va_of-aligned : (pn : ℕ) → pn < pgnum utop → check_addr_scale (va_of pn) 0 utop ≡ true
va_of-aligned pn lt = ground arith

va_of-index :
    (pn : ℕ) → pn < pgnum utop → (pdx (va_of pn) ≡ pn / 1024) × (ptx (va_of pn) ≡ pn % 1024)
va_of-index pn lt = (omega arith, omega arith)

-- `e`, with the page directory `sd`, forks `c`, with `dd`; the page `pn` is the page `p` of the
-- memory, by the table `st`, and the child's table `dt` covers its address. No two of these four
-- are one page.
pub record IsForking (k : Kernel) (e sd st c dd dt child pn p : ℕ) : Type 0 where
  pub current : k.curenv ≡ some e
  pub space : (k.envs e).env_pgdir ≡ some sd
  pub child_found : envid2env child false k ≡ returned (found (some c)) k
  pub child_space : (k.envs c).env_pgdir ≡ some dd
  pub below : pn < pgnum utop
  pub source : IsPresent k sd (va_of pn) st p
  pub covered : HasTable k dd (va_of pn) dt
  pub within : EntryInMemory k dt (va_of pn)
  pub addressed : (k.pages p).paddr ≡ p * 4096
  pub directories : sd ≢ dd
  pub tables : st ≢ dt
  pub apart : (st ≢ dd) × (dt ≢ sd)
  pub user_table : is_user (k.frame sd (pdx (va_of pn))) ≡ true
  pub user_page : is_user (k.frame st (ptx (va_of pn))) ≡ true

pub vpd-current :
    (k : Kernel) (e sd i : ℕ)
    → k.curenv ≡ some e
    → (k.envs e).env_pgdir ≡ some sd
    → vpd i k ≡ returned (k.frame sd i) k
unfolding vpd caller
vpd-current k e sd i cur dir =
    ap (λ c. (non_null c >>= λ e1. reads (λ k1. (k1.envs e1).env_pgdir) >>= read) k) cur
    ∙ ap (λ o. read o k) dir
  where
    read : Option ℕ → Command ℕ
    read o = non_null o >>= λ pgdir. reads (λ k1. k1.frame pgdir i)

vpt-current :
    (k : Kernel) (e sd st pn p : ℕ)
    → k.curenv ≡ some e
    → (k.envs e).env_pgdir ≡ some sd
    → pn < pgnum utop
    → IsPresent k sd (va_of pn) st p
    → vpt pn k ≡ returned (k.frame st (ptx (va_of pn))) k
unfolding vpt
vpt-current k e sd st pn p cur dir below src =
    ap (λ o. and_then o (λ pde. reads (λ k1. k1.frame (pgnum pde) (pn % 1024))))
      (vpd-current k e sd (pn / 1024) cur dir)
    ∙ ap (λ i. entry (pgnum (k.frame sd i)) (pn % 1024)) (sym (va_of-index pn below).0)
    ∙ ap (λ t. entry t (pn % 1024)) src.table.names
    ∙ ap (entry st) (sym (va_of-index pn below).1)
  where
    entry : ℕ → ℕ → Outcome ℕ
    entry t i = returned (k.frame t i) k

-- page_insert changes only the table and the directory that it is about.
Inserted-kept :
    {k k' : Kernel} {pgdir va t pp perm : ℕ} (q i : ℕ)
    → Inserted pgdir va t pp perm k k'
    → q ≢ t
    → q ≢ pgdir
    → k'.frame q i ≡ k.frame q i
Inserted-kept {pgdir = pgdir} {va = va} {t = t} q i done nt nd =
    done.words q i (ap (λ b. b && (i == ptx va)) (==_false q t nt))
      (ap (λ b. b && (i == pdx va)) (==_false q pgdir nd))

HasTable-kept :
    {k k' : Kernel} {pgdir va t pp perm : ℕ} (sd sva st : ℕ)
    → Inserted pgdir va t pp perm k k'
    → sd ≢ t
    → sd ≢ pgdir
    → HasTable k sd sva st
    → HasTable k' sd sva st
HasTable-kept {k} {k'} sd sva st done nt nd h = record {
  present = ap (λ w. has w pte_p) same ∙ h.present;
  names = ap pgnum same ∙ h.names;
  in_memory = subst (λ n. st < n) (sym done.machine.2) h.in_memory;
  apart = h.apart;
  fits = subst (λ n. n ≤ 2 ^ 20) (sym done.machine.2) h.fits;
}
  where
    same : k'.frame sd (pdx sva) ≡ k.frame sd (pdx sva)
    same = Inserted-kept sd (pdx sva) done nt nd

IsPresent-kept :
    {k k' : Kernel} {pgdir va t pp perm : ℕ} (sd sva st p : ℕ)
    → Inserted pgdir va t pp perm k k'
    → sd ≢ t
    → sd ≢ pgdir
    → st ≢ t
    → st ≢ pgdir
    → IsPresent k sd sva st p
    → IsPresent k' sd sva st p
IsPresent-kept {k} {k'} sd sva st p done dt dd tt' td h = record {
  table = HasTable-kept sd sva st done dt dd h.table;
  there = ap (λ w. has w pte_p) same ∙ h.there;
  page = ap pgnum same ∙ h.page;
  in_memory = subst (λ n. p < n) (sym done.machine.2) h.in_memory;
}
  where
    same : k'.frame st (ptx sva) ≡ k.frame st (ptx sva)
    same = Inserted-kept st (ptx sva) done tt' td

translate-kept :
    (f g : ℕ → ℕ → ℕ) (dd va dt : ℕ)
    → f dd (pdx va) ≡ g dd (pdx va)
    → pgnum (g dd (pdx va)) ≡ dt
    → f dt (ptx va) ≡ g dt (ptx va)
    → translate f dd va ≡ translate g dd va
unfolding translate
translate-kept f g dd va dt pde names pte =
    ap (λ d. by_entries d (f (pgnum d) (ptx va))) pde
    ∙ ap (λ t. by_entries (g dd (pdx va)) (f t (ptx va))) names
    ∙ ap (by_entries (g dd (pdx va))) pte
    ∙ ap (λ t. by_entries (g dd (pdx va)) (g t (ptx va))) (sym names)
  where
    by_entries : ℕ → ℕ → Option (ℕ × ℕ)
    by_entries pde1 pte1 =
        if has pde1 pte_p
        then (if has pte1 pte_p then some (pgnum pte1, pte1 % 4096) else none)
        else none

-- The result of sharing: both map the page, to be copied on a write.
pub record Shared (sd dd va p perm : ℕ) (k' : Kernel) : Type 0 where
  pub child : translate k'.frame dd va ≡ some (p, bit_or perm pte_p)
  pub parent : translate k'.frame sd va ≡ some (p, bit_or perm pte_p)
  pub read_only : has perm pte_w ≡ false

share_cow-Shared :
    {k : Kernel} {e sd st c dd dt child pn p : ℕ}
    → IsForking k e sd st c dd dt child pn p
    → (k' : Kernel) × (share_cow child pn (k.frame st (ptx (va_of pn))) k ≡ returned (ok 0) k')
      × Shared sd dd (va_of pn) p (cow_perm (k.frame st (ptx (va_of pn)))) k'
unfolding share_cow
share_cow-Shared {k} {e} {sd} {st} {c} {dd} {dt} {child} {pn} {p} f =
    let va = va_of pn in
    let aligned = va_of-aligned pn f.below in
    let cow = cow_perm (k.frame st (ptx va)) in
    let (k1, eq1, done1) =
      sys_page_map-Inserted 0 va child va cow e c (envid2env-curenv true e k f.current)
        f.child_found aligned aligned f.space f.child_space f.source
        (λ w. absurd (ground (arith, has-cow_perm (k.frame st (ptx va)))))
        (cow_perm-lt (k.frame st (ptx va))) f.covered f.within f.addressed in
    let kept : k1.frame st (ptx va) ≡ k.frame st (ptx va) =
      Inserted-kept st (ptx va) done1 f.tables f.apart.0 in
    let present =
      IsPresent-kept sd va st p done1 (λ q. f.apart.1 (sym q)) f.directories f.tables f.apart.0
        f.source in
    let cur1 : k1.curenv ≡ some e = done1.machine.1 ∙ f.current in
    let dir1 : (k1.envs e).env_pgdir ≡ some sd =
      ap (λ v. (v e).env_pgdir) done1.machine.0 ∙ f.space in
    let (k2, eq2, done2) =
      sys_page_map-Inserted 0 va 0 va cow e e (envid2env-curenv true e k1 cur1)
        (envid2env-curenv false e k1 cur1) aligned aligned dir1 dir1 present
        (λ w. absurd (ground (arith, has-cow_perm (k.frame st (ptx va)))))
        (cow_perm-lt (k.frame st (ptx va))) present.table
        (λ h. subst (λ n. n < k1.npages) (sym present.page) present.in_memory)
        (done1.addresses p ∙ f.addressed) in
    (
      k2,
      ap (λ o. and_then o (λ _. then_parent)) eq1
          ∙ ap (λ o. and_then o (λ now. remap (cow_perm now)))
              (vpt-current k1 e sd st pn p cur1 dir1 f.below present)
          ∙ ap (λ w. remap (cow_perm w) k1) kept
          ∙ ap (λ o. and_then o (λ _. pure (ok 0))) eq2,
      record {
        child =
            translate-kept k2.frame k1.frame dd va dt
              (Inserted-kept dd (pdx va) done2 (λ q. f.apart.0 (sym q))
                (λ q. f.directories (sym q)))
              done1.covered.1 (Inserted-kept dt (ptx va) done2 (λ q. f.tables (sym q)) f.apart.1)
            ∙ done1.mapped;
        parent = done2.mapped;
        read_only = has-cow_perm (k.frame st (ptx va));
      },
    )
  where
    remap : ℕ → Command Result
    remap perm = sys_page_map 0 (va_of pn) 0 (va_of pn) perm >> pure (ok 0)

    then_parent : Command Result
    then_parent = vpt pn >>= λ now. remap (cow_perm now)

-- duppage of a page that the caller may write, or that is to be copied on a write already, for a
-- child whose page table covers its address: it returns 0, and then the child and the caller both
-- map the page with PTE_P and the flags it had, but that bit 11, PTE_COW, is set and bit 1, PTE_W,
-- is clear.
pub duppage-Shared :
    {k : Kernel} {e sd st c dd dt child pn p : ℕ}
    → IsForking k e sd st c dd dt child pn p
    → (bit_and (k.frame st (ptx (va_of pn))) (bit_or pte_w pte_cow) == 0) ≡ false
    → (k' : Kernel) × (duppage child pn k ≡ returned (ok 0) k')
      × Shared sd dd (va_of pn) p (marked (k.frame st (ptx (va_of pn)))) k'
unfolding duppage share
duppage-Shared {k} {e} {sd} {st} {c} {dd} {dt} {child} {pn} {p} f writable =
    let shared = share_cow-Shared f in
    (
      shared.0,
      ap (λ o. and_then o by_table) (vpd-current k e sd (pn / 1024) f.current f.space)
          ∙ ap (λ i. by_table (k.frame sd i) k) (sym (va_of-index pn f.below).0)
          ∙ ap (λ b. (if b then mapped else pure (err inval)) k) f.user_table
          ∙ ap (λ o. and_then o (share child pn))
              (vpt-current k e sd st pn p f.current f.space f.below f.source)
          ∙ ap (λ b. (if not b then pure (err inval) else by_flags pte) k) f.user_page
          ∙ ap (λ b. (if b then share_readable child pn pte else share_cow child pn pte) k) writable
          ∙ shared.1,
      subst (λ perm. Shared sd dd (va_of pn) p perm shared.0) (cow_perm-marked pte) shared.2,
    )
  where
    pte : ℕ
    pte = k.frame st (ptx (va_of pn))

    by_flags : ℕ → Command Result
    by_flags w =
        if bit_and w (bit_or pte_w pte_cow) == 0
        then share_readable child pn w
        else share_cow child pn w

    mapped : Command Result
    mapped = vpt pn >>= share child pn

    by_table : ℕ → Command Result
    by_table pde = if is_user pde then mapped else pure (err inval)
