-- ===== src/Syscall/Dispatch.antt =====
-- The dispatcher of kern/syscall.c.
use library_os_exokernel_imp.Base.{ℕ, ◌==◌, if◌then◌else◌}
use library_os_exokernel_imp.Kernel.Command.{Command, pure, ◌>>◌}
use library_os_exokernel_imp.Error.{Result, ok, err, inval}
use library_os_exokernel_imp.Syscall.Process.{
  sys_cputs, sys_getenvid, sys_env_destroy, sys_yield, sys_exofork, sys_env_set_status,
  sys_env_set_pgfault_upcall,
}
use library_os_exokernel_imp.Syscall.Memory.{sys_page_alloc, sys_page_map, sys_page_unmap}
use library_os_exokernel_imp.Syscall.Ipc.{sys_ipc_try_send, sys_ipc_recv}

-- inc/syscall.h
abbrev pub sys_cputs_no : ℕ
sys_cputs_no = 0

abbrev pub sys_cgetc_no : ℕ
sys_cgetc_no = 1

abbrev pub sys_getenvid_no : ℕ
sys_getenvid_no = 2

abbrev pub sys_env_destroy_no : ℕ
sys_env_destroy_no = 3

abbrev pub sys_page_alloc_no : ℕ
sys_page_alloc_no = 4

abbrev pub sys_page_map_no : ℕ
sys_page_map_no = 5

abbrev pub sys_page_unmap_no : ℕ
sys_page_unmap_no = 6

abbrev pub sys_exofork_no : ℕ
sys_exofork_no = 7

abbrev pub sys_env_set_status_no : ℕ
sys_env_set_status_no = 8

abbrev pub sys_env_set_pgfault_upcall_no : ℕ
sys_env_set_pgfault_upcall_no = 9

abbrev pub sys_yield_no : ℕ
sys_yield_no = 10

abbrev pub sys_ipc_try_send_no : ℕ
sys_ipc_try_send_no = 11

abbrev pub sys_ipc_recv_no : ℕ
sys_ipc_recv_no = 12

-- `char` is what cons_getc returns for sys_cgetc.
unfoldable pub syscall : (char syscallno a1 a2 a3 a4 a5 : ℕ) → Command Result
unfolding sys_cputs sys_getenvid sys_env_destroy sys_yield sys_exofork sys_env_set_status
    sys_env_set_pgfault_upcall sys_page_alloc sys_page_map sys_page_unmap sys_ipc_try_send
    sys_ipc_recv
syscall char syscallno a1 a2 a3 a4 a5 =
    if syscallno == sys_cputs_no
    then sys_cputs a1 a2 >> pure (ok 0)
    else if syscallno == sys_cgetc_no
    then pure (ok char)
    else if syscallno == sys_getenvid_no
    then sys_getenvid
    else if syscallno == sys_env_destroy_no
    then sys_env_destroy a1
    else if syscallno == sys_yield_no
    then sys_yield >> pure (ok 0)
    else if syscallno == sys_exofork_no
    then sys_exofork
    else if syscallno == sys_page_alloc_no
    then sys_page_alloc a1 a2 a3
    else if syscallno == sys_page_map_no
    then sys_page_map a1 a2 a3 a4 a5
    else if syscallno == sys_page_unmap_no
    then sys_page_unmap a1 a2
    else if syscallno == sys_env_set_status_no
    then sys_env_set_status a1 a2
    else if syscallno == sys_env_set_pgfault_upcall_no
    then sys_env_set_pgfault_upcall a1 a2
    else if syscallno == sys_ipc_try_send_no
    then sys_ipc_try_send a1 a2 a3 a4
    else if syscallno == sys_ipc_recv_no
    then sys_ipc_recv a1
    else pure (err inval)
