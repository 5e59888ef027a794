-- ===== src/Fork/Fault/Refused.antt =====
-- pgfault where it refuses the fault, by the tests of lib/fork.c or by a fault of its own.
use library_os_exokernel_imp.Base.{ℕ, ◌≡◌, true}
use library_os_exokernel_imp.Mmu.{pgnum, pdx, uvpt}
use library_os_exokernel_imp.Kernel.{Kernel}
use library_os_exokernel_imp.Kernel.Command.{Command}
use library_os_exokernel_imp.Fork.{is_user}

-- The page directory `d` is in cr3, and maps itself at UVPT, as env_setup_vm has it.
pub record MapsItself (k : Kernel) (d : ℕ) : Type 0 where
  pub space : k.cr3 ≡ d
  pub itself : pgnum (k.frame d (pdx uvpt)) ≡ d
  pub readable : is_user (k.frame d (pdx uvpt)) ≡ true
