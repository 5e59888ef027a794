-- ===== src/Error.antt =====
-- inc/error.h, and the result of a function that returns a number or `-E_...`.
use library_os_exokernel_imp.Base.{ℕ, ◌-◌, ◌^◌}

pub data Error : Type 0 where
  unspecified bad_env inval no_mem no_free_env fault ipc_not_recv eof : Error

abbrev pub code : Error → ℕ
code unspecified = 1
code bad_env = 2
code inval = 3
code no_mem = 4
code no_free_env = 5
code fault = 6
code ipc_not_recv = 7
code eof = 8

pub data Result : Type 0 where
  ok : ℕ → Result
  err : Error → Result

-- The word that a system call leaves in `eax`.
abbrev pub to_word : Result → ℕ
to_word (ok n) = n
to_word (err e) = 2 ^ 32 - code e
