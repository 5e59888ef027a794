-- ===== src/Kernel.antt =====
-- The state that the kernel's C files share, and the commands over it: `pages`, `page_free_list`
-- and the counters of kern/pmap.c, `envs` and `env_free_list` of kern/env.c, the fields of
-- `thiscpu` (kern/cpu.h), the contents of physical memory, and the kernel lock. The structs are
-- those of inc/memlayout.h, inc/env.h and inc/trap.h.
--
-- A `struct Page *` is the page's number, a `struct Env *` the index in `envs`, NULL is `none`, and
-- a kernel pointer to a page of memory (a page directory, a page table) is that page's number.
pub mod Command
use library_os_exokernel_imp.Base.{
  ℕ, Bool, true, false, Option, none, some, List, [], ◌∷◌, ◌==◌, if◌then◌else◌, update,
}

pub record PushRegs : Type 0 where
  pub reg_edi : ℕ
  pub reg_esi : ℕ
  pub reg_ebp : ℕ
  pub reg_oesp : ℕ
  pub reg_ebx : ℕ
  pub reg_edx : ℕ
  pub reg_ecx : ℕ
  pub reg_eax : ℕ

pub record Trapframe : Type 0 where
  pub tf_regs : PushRegs
  pub tf_es : ℕ
  pub tf_ds : ℕ
  pub tf_trapno : ℕ
  pub tf_err : ℕ
  pub tf_eip : ℕ
  pub tf_cs : ℕ
  pub tf_eflags : ℕ
  pub tf_esp : ℕ
  pub tf_ss : ℕ

-- `memset(&tf, 0, sizeof tf)`
abbrev pub zero_regs : PushRegs
zero_regs = record {
  reg_edi = 0;
  reg_esi = 0;
  reg_ebp = 0;
  reg_oesp = 0;
  reg_ebx = 0;
  reg_edx = 0;
  reg_ecx = 0;
  reg_eax = 0;
}

abbrev pub zero_tf : Trapframe
zero_tf = record {
  tf_regs = zero_regs;
  tf_es = 0;
  tf_ds = 0;
  tf_trapno = 0;
  tf_err = 0;
  tf_eip = 0;
  tf_cs = 0;
  tf_eflags = 0;
  tf_esp = 0;
  tf_ss = 0;
}

pub data EnvType : Type 0 where
  user idle : EnvType

-- The values of `env_status`, an `unsigned` into which a system call can store any number.
abbrev pub env_free_status : ℕ
env_free_status = 0

abbrev pub env_dying : ℕ
env_dying = 1

abbrev pub env_runnable : ℕ
env_runnable = 2

abbrev pub env_running : ℕ
env_running = 3

abbrev pub env_not_runnable : ℕ
env_not_runnable = 4

abbrev pub nenv : ℕ
nenv = 1024

pub record Env : Type 0 where
  pub env_tf : Trapframe
  pub env_link : Option ℕ
  pub env_id : ℕ
  pub env_parent_id : ℕ
  pub env_type : EnvType
  pub env_status : ℕ
  pub env_runs : ℕ
  pub env_cpunum : ℕ
  pub env_pgdir : Option ℕ
  pub env_pgfault_upcall : ℕ
  pub env_ipc_recving : Bool
  pub env_ipc_dstva : ℕ
  pub env_ipc_value : ℕ
  pub env_ipc_from : ℕ
  pub env_ipc_perm : ℕ

pub record Page : Type 0 where
  pub pp_link : Option ℕ
  pub paddr : ℕ
  pub pp_ref : ℕ

pub record Kernel : Type 0 where
  -- kern/pmap.c
  pub npages : ℕ
  pub n_avail_pages : ℕ
  pub pages : ℕ → Page
  pub page_free_list : Option ℕ
  pub kern_pgdir : ℕ
  pub user_mem_check_addr : ℕ
  -- physical memory: the 32-bit word at an index of a page
  pub frame : ℕ → ℕ → ℕ
  -- kern/env.c
  pub envs : ℕ → Env
  pub env_free_list : Option ℕ
  -- this CPU: its number, `curenv`, the page directory in cr3, and the addresses given to invlpg,
  -- latest first
  pub cpunum : ℕ
  pub curenv : Option ℕ
  pub cr3 : ℕ
  pub invalidated : List ℕ
  -- kern/spinlock.c: the CPU that holds `kernel_lock`
  pub kernel_lock : Option ℕ

abbrev pub with_page : ℕ → (Page → Page) → Kernel → Kernel
with_page p f k = record k { pages = update k.pages p (f (k.pages p)) }

abbrev pub with_env : ℕ → (Env → Env) → Kernel → Kernel
with_env e f k = record k { envs = update k.envs e (f (k.envs e)) }

-- `p[i] = v` for a page `p` of words
abbrev pub with_word : ℕ → ℕ → ℕ → Kernel → Kernel
with_word p i v k = record k { frame = update k.frame p (update (k.frame p) i v) }

-- `memset(p, 0, PGSIZE)`
abbrev pub with_zero : ℕ → Kernel → Kernel
with_zero p k = record k { frame = update k.frame p (λ _. 0) }
