-- ===== src/Syscall/Caller.antt =====
-- What the system calls of kern/syscall.c share: `curenv`, and the environment that envid2env
-- finds.
use library_os_exokernel_imp.Base.{ℕ, none, some}
use library_os_exokernel_imp.Kernel.Command.{Command, pure, ◌>>=◌, panic, reads, non_null}
use library_os_exokernel_imp.Error.{Result, err, bad_env}
use library_os_exokernel_imp.Env.Table.{Found, found, rejected}

-- `curenv`, as it is dereferenced
unfoldable pub caller : Command ℕ
caller = do c ← reads (λ k. k.curenv); non_null c

-- `if (envid2env(...)) return -E_BAD_ENV;` and what follows
abbrev pub with_found : Found → (ℕ → Command Result) → Command Result
with_found (rejected _) f = pure (err bad_env)
with_found (found none) f = panic
with_found (found (some e)) f = f e
