-- ===== src/Trap/Fault/Stack.antt =====
-- The words that page_fault_handler pushes on and stores to the user exception stack.
use library_os_exokernel_imp.Base.{
  ℕ, zero, suc, ◌+◌, ◌-◌, ◌*◌, ◌/◌, ◌%◌, ◌^◌, ◌≤◌, ◌<◌, ◌≡◌, refl, ap, ◌∙◌, ◌≢◌, true, List, [],
  ◌∷◌, ◌++◌, ◌&&◌, ◌==◌, ==_refl, if◌then◌else◌, arith, update,
}
use library_os_exokernel_imp.Mmu.{u32, pgnum, pdx, ptx, pgoff, pte_p, pte_w, has, uxstackbase}
use library_os_exokernel_imp.Kernel.{Kernel, Trapframe, with_word}
use library_os_exokernel_imp.Kernel.Command.{Outcome, returned, and_then, modify, panic}
use library_os_exokernel_imp.Str.Chars.Copy.{length}
use library_os_exokernel_imp.Trap.Fault.{store_at, store_user, push, store_words, regs_words}

-- The page tables in cr3 map the user exception stack to the page `pg` for writing, and `pg` is
-- none of them.
pub record IsMapped (k : Kernel) (pg : ℕ) : Type 0 where
  pub table : ℕ
  pub entry : pgnum (k.frame k.cr3 (pdx uxstackbase)) ≡ table
  pub table_there : has (k.frame k.cr3 (pdx uxstackbase)) pte_p ≡ true
  pub table_writable : has (k.frame k.cr3 (pdx uxstackbase)) pte_w ≡ true
  pub page : pgnum (k.frame table (ptx uxstackbase)) ≡ pg
  pub there : has (k.frame table (ptx uxstackbase)) pte_p ≡ true
  pub writable : has (k.frame table (ptx uxstackbase)) pte_w ≡ true
  pub not_directory : pg ≢ k.cr3
  pub not_table : pg ≢ table

pub IsMapped-with_word :
    {k : Kernel} {pg : ℕ} (i v : ℕ) → IsMapped k pg → IsMapped (with_word pg i v k) pg
IsMapped-with_word {k} {pg} i v m = record {
  table = m.table;
  entry = ground (arith, m.entry, m.not_directory);
  table_there = ground (arith, m.table_there, m.not_directory);
  table_writable = ground (arith, m.table_writable, m.not_directory);
  page = ground (arith, m.page, m.not_table);
  there = ground (arith, m.there, m.not_table);
  writable = ground (arith, m.writable, m.not_table);
  not_directory = m.not_directory;
  not_table = m.not_table;
}

-- The address of a word of the stack's page.
abbrev pub slot : ℕ → ℕ
slot n = uxstackbase + 4 * n

store_user-mapped :
    {k : Kernel} {pg : ℕ} (n v : ℕ)
    → n < 1024
    → IsMapped k pg
    → store_user (slot n) v k ≡ returned tt (with_word pg n v k)
unfolding store_user
store_user-mapped {k} {pg} n v lt m =
    ap (λ i. stored i (ptx (slot n)) (pgoff (slot n)))
      (let e : pdx (slot n) ≡ pdx uxstackbase = omega arith in e)
    ∙ ap (λ i. stored (pdx uxstackbase) i (pgoff (slot n)))
        (let e : ptx (slot n) ≡ ptx uxstackbase = omega arith in e)
    ∙ ap (λ i. stored (pdx uxstackbase) (ptx uxstackbase) i)
        (let e : pgoff (slot n) ≡ 4 * n = omega arith in e)
    ∙ permitted
    ∙ aligned
  where
    stored : ℕ → ℕ → ℕ → Outcome (Unit {0})
    stored di ti off =
        let pde = k.frame k.cr3 di in
        let pte = k.frame (pgnum pde) ti in
        (if has pde pte_p && has pde pte_w && has pte pte_p && has pte pte_w
            then modify (store_at (pgnum pte) off v)
            else panic)
          k

    permitted :
        stored (pdx uxstackbase) (ptx uxstackbase) (4 * n) ≡ returned tt (store_at pg (4 * n) v k)
    permitted =
        ground (arith, m.entry, m.table_there, m.table_writable, m.page, m.there, m.writable)

    aligned : returned tt (store_at pg (4 * n) v k) ≡ returned tt (with_word pg n v k)
    aligned =
        ap
          (λ b. returned tt (
            if b
            then with_word pg (4 * n / 4) v k
            else with_word pg (4 * n / 4 + 1)
                (k.frame pg (4 * n / 4 + 1)
                  - k.frame pg (4 * n / 4 + 1) % 2 ^ (8 * (4 * n % 4))
                  + v * 2 ^ (8 * (4 * n % 4)) / 2 ^ 32)
                (with_word pg (4 * n / 4)
                  (k.frame pg (4 * n / 4) % 2 ^ (8 * (4 * n % 4)) + u32 (v * 2 ^ (8 * (4 * n % 4))))
                  k)))
          (let e : (4 * n % 4 == 0) ≡ true = ground arith in e)
        ∙ ap (λ i. returned tt (with_word pg i v k)) (let e : 4 * n / 4 ≡ n = omega arith in e)

-- The state after the pushes whose last is at word `n`, and after the stores from word `n` on.
unfoldable pub pushed : (pg n : ℕ) → List ℕ → Kernel → Kernel
pushed pg n [] k = k
pushed pg n (w ∷ ws) k = pushed pg n ws (with_word pg (n + length ws) w k)

unfoldable pub stored_words : (pg n : ℕ) → List ℕ → Kernel → Kernel
stored_words pg n [] k = k
stored_words pg n (w ∷ ws) k = stored_words pg (n + 1) ws (with_word pg n w k)

pub push-mapped :
    (pg n : ℕ) (ws : List ℕ) (k : Kernel)
    → n + length ws ≤ 1024
    → IsMapped k pg
    → push (slot (n + length ws)) ws k ≡ returned tt (pushed pg n ws k)
unfolding push pushed
push-mapped pg n [] k le m = refl
push-mapped pg n (w ∷ ws) k le m =
    ap (λ a. and_then (store_user a w k) (λ _. push a ws))
      (let e : u32 (slot (n + (length ws + 1)) + (2 ^ 32 - 4)) ≡ slot (n + length ws) =
          omega arith in
        e)
    ∙ ap (λ o. and_then o (λ _. push (slot (n + length ws)) ws))
        (store_user-mapped (n + length ws) w (omega arith) m)
    ∙ push-mapped pg n ws _ (omega arith) (IsMapped-with_word _ _ m)

pub store_words-mapped :
    (pg n : ℕ) (ws : List ℕ) (k : Kernel)
    → n + length ws ≤ 1024
    → IsMapped k pg
    → store_words (slot n) ws k ≡ returned tt (stored_words pg n ws k)
unfolding store_words stored_words
store_words-mapped pg n [] k le m = refl
store_words-mapped pg n (w ∷ ws) k le m =
    ap (λ o. and_then o (λ _. store_words (u32 (slot n + 4)) ws))
      (store_user-mapped n w (omega arith) m)
    ∙ ap (λ a. store_words a ws (with_word pg n w k))
        (let e : u32 (slot n + 4) ≡ slot (n + 1) = omega arith in e)
    ∙ store_words-mapped pg (n + 1) ws _ (omega arith) (IsMapped-with_word _ _ m)

with_word-page : (pg n w : ℕ) (k : Kernel) → (with_word pg n w k).frame pg ≡ update (k.frame pg) n w
with_word-page pg n w k = ap (λ b. if b then update (k.frame pg) n w else k.frame pg) (==_refl pg)

-- The same for the words of the page alone.
abbrev down : (n : ℕ) → List ℕ → (ℕ → ℕ) → ℕ → ℕ
down n [] f = f
down n (w ∷ ws) f = down n ws (update f (n + length ws) w)

abbrev up : (n : ℕ) → List ℕ → (ℕ → ℕ) → ℕ → ℕ
up n [] f = f
up n (w ∷ ws) f = up (n + 1) ws (update f n w)

pushed-down :
    (pg n : ℕ) (ws : List ℕ) (k : Kernel) → (pushed pg n ws k).frame pg ≡ down n ws (k.frame pg)
unfolding pushed
pushed-down pg n [] k = refl
pushed-down pg n (w ∷ ws) k =
    pushed-down pg n ws _ ∙ ap (down n ws) (with_word-page pg (n + length ws) w k)

stored_words-up :
    (pg n : ℕ) (ws : List ℕ) (k : Kernel) → (stored_words pg n ws k).frame pg ≡ up n ws (k.frame pg)
unfolding stored_words
stored_words-up pg n [] k = refl
stored_words-up pg n (w ∷ ws) k =
    stored_words-up pg (n + 1) ws _ ∙ ap (up (n + 1) ws) (with_word-page pg n w k)

-- The words of a page from an index on.
abbrev pub read_words : (f : ℕ → ℕ) (i n : ℕ) → List ℕ
read_words f i zero = []
read_words f i (suc n) = f i ∷ read_words f (i + 1) n

-- `struct UTrapframe`, in its words
abbrev pub utrapframe : (fault_va : ℕ) → Trapframe → List ℕ
utrapframe fault_va tf =
    fault_va ∷ tf.tf_err ∷ regs_words tf.tf_regs ++ tf.tf_eip ∷ tf.tf_eflags ∷ tf.tf_esp ∷ []

abbrev pub state_words : Trapframe → List ℕ
state_words tf = tf.tf_esp ∷ tf.tf_eflags ∷ tf.tf_eip ∷ []

abbrev pub fault_words : (fault_va : ℕ) → Trapframe → List ℕ
fault_words fault_va tf = tf.tf_err ∷ fault_va ∷ []

unfoldable pub framed : (pg i fault_va : ℕ) → Trapframe → Kernel → Kernel
framed pg i fault_va tf k =
    pushed pg i (fault_words fault_va tf)
      (stored_words pg (i + 2) (regs_words tf.tf_regs) (pushed pg (i + 10) (state_words tf) k))

pub framed-words :
    (pg i fault_va : ℕ) (tf : Trapframe) (k : Kernel)
    → (framed pg i fault_va tf k).frame pg
      ≡ down i
          (fault_words fault_va tf)
          (up (i + 2) (regs_words tf.tf_regs) (down (i + 10) (state_words tf) (k.frame pg)))
unfolding framed
framed-words pg i fault_va tf k =
    pushed-down pg i (fault_words fault_va tf) regs
    ∙ ap (down i (fault_words fault_va tf)) (
        stored_words-up pg (i + 2) (regs_words tf.tf_regs) state
        ∙ ap (up (i + 2) (regs_words tf.tf_regs)) (pushed-down pg (i + 10) (state_words tf) k))
  where
    state : Kernel
    state = pushed pg (i + 10) (state_words tf) k

    regs : Kernel
    regs = stored_words pg (i + 2) (regs_words tf.tf_regs) state

same-words :
    (f : ℕ → ℕ) (i a b c d e g h j l m n o p : ℕ)
    → f (i) ≡ a
    → f (i + 1) ≡ b
    → f (i + 1 + 1) ≡ c
    → f (i + 1 + 1 + 1) ≡ d
    → f (i + 1 + 1 + 1 + 1) ≡ e
    → f (i + 1 + 1 + 1 + 1 + 1) ≡ g
    → f (i + 1 + 1 + 1 + 1 + 1 + 1) ≡ h
    → f (i + 1 + 1 + 1 + 1 + 1 + 1 + 1) ≡ j
    → f (i + 1 + 1 + 1 + 1 + 1 + 1 + 1 + 1) ≡ l
    → f (i + 1 + 1 + 1 + 1 + 1 + 1 + 1 + 1 + 1) ≡ m
    → f (i + 1 + 1 + 1 + 1 + 1 + 1 + 1 + 1 + 1 + 1) ≡ n
    → f (i + 1 + 1 + 1 + 1 + 1 + 1 + 1 + 1 + 1 + 1 + 1) ≡ o
    → f (i + 1 + 1 + 1 + 1 + 1 + 1 + 1 + 1 + 1 + 1 + 1 + 1) ≡ p
    → read_words f i 13 ≡ a ∷ b ∷ c ∷ d ∷ e ∷ g ∷ h ∷ j ∷ l ∷ m ∷ n ∷ o ∷ p ∷ []
same-words f i a b c d e g h j l m n o p h0 h1 h2 h3 h4 h5 h6 h7 h8 h9 h10 h11 h12 = cc

pub read-words :
    (f : ℕ → ℕ) (i a b c d e g h j l m n o p : ℕ)
    → read_words
        (down i
          (b ∷ a ∷ [])
          (up (i + 2) (c ∷ d ∷ e ∷ g ∷ h ∷ j ∷ l ∷ m ∷ []) (down (i + 10) (p ∷ o ∷ n ∷ []) f)))
        i
        13
      ≡ a ∷ b ∷ c ∷ d ∷ e ∷ g ∷ h ∷ j ∷ l ∷ m ∷ n ∷ o ∷ p ∷ []
read-words f i a b c d e g h j l m n o p =
    same-words
      (down i (b ∷ a ∷ [])
        (up (i + 2) (c ∷ d ∷ e ∷ g ∷ h ∷ j ∷ l ∷ m ∷ []) (down (i + 10) (p ∷ o ∷ n ∷ []) f)))
      i a b c d e g h j l m n o p (ground arith) (ground arith) (ground arith) (ground arith)
      (ground arith) (ground arith) (ground arith) (ground arith) (ground arith) (ground arith)
      (ground arith) (ground arith) (ground arith)

pub IsMapped-pushed :
    (pg n : ℕ) (ws : List ℕ) (k : Kernel) → IsMapped k pg → IsMapped (pushed pg n ws k) pg
unfolding pushed
IsMapped-pushed pg n [] k m = m
IsMapped-pushed pg n (w ∷ ws) k m = IsMapped-pushed pg n ws _ (IsMapped-with_word _ _ m)

pub IsMapped-stored_words :
    (pg n : ℕ) (ws : List ℕ) (k : Kernel) → IsMapped k pg → IsMapped (stored_words pg n ws k) pg
unfolding stored_words
IsMapped-stored_words pg n [] k m = m
IsMapped-stored_words pg n (w ∷ ws) k m =
    IsMapped-stored_words pg (n + 1) ws _ (IsMapped-with_word _ _ m)
