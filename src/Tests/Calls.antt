-- ===== src/Tests/Calls.antt =====
-- Runs of the code of kern/syscall.c.
use library_os_exokernel_imp.Base.{◌≡◌, ◌⊎◌, refl, true, false, none, some, [], ◌∷◌, arith}
use library_os_exokernel_imp.Env.Table.{envid2env, found}
use library_os_exokernel_imp.Mmu.{ipc_no_page}
use library_os_exokernel_imp.Error.{ok, err, inval, ipc_not_recv}
use library_os_exokernel_imp.Kernel.{Kernel, with_env}
use library_os_exokernel_imp.Kernel.Command.{returned, and_then, leaves}
use library_os_exokernel_imp.Pmap.Pages.{alloc_zero}
use library_os_exokernel_imp.Pmap.Pages.FreeList.{IsFreeList, Allocated}
use library_os_exokernel_imp.Pmap.Tables.Insert.{Inserted}
use library_os_exokernel_imp.Sched.{sched_yield}
use library_os_exokernel_imp.Syscall.Memory.{sys_page_alloc}
use library_os_exokernel_imp.Syscall.Memory.Alloc.{sys_page_alloc-Inserted}
use library_os_exokernel_imp.Syscall.Ipc.{sys_ipc_try_send, sys_ipc_recv}
use library_os_exokernel_imp.Syscall.Ipc.Recv.{IsTarget, receiving, sys_ipc_recv_cases}
use library_os_exokernel_imp.Syscall.Ipc.Send.{Delivered, sys_ipc_try_send_cases}
use library_os_exokernel_imp.Ipc.{ipc_send, take_message, sent}
use library_os_exokernel_imp.Ipc.Transfer.{Waits, now, later, resumed, ipc_send-take_message}
use library_os_exokernel_imp.Tests.Machine.{
  machine, machine-waits, machine-child, machine-HasTable, machine-IsFreeList,
}

sys_ipc_recv_cases_example :
    (IsTarget 4096
      × (sys_ipc_recv 4096 machine
          ≡ and_then (sched_yield (receiving 0 4096 machine)) (λ _. returned (ok 0)))
      × (leaves (sys_ipc_recv 4096 machine) ≡ true))
    ⊎ ((¬ IsTarget 4096) × (sys_ipc_recv 4096 machine ≡ returned (err inval) machine))
sys_ipc_recv_cases_example = sys_ipc_recv_cases machine 0 4096 refl

sys_ipc_try_send_cases_example :
    (((machine.envs 3).env_ipc_recving ≡ true)
      × (k' : Kernel) × (sys_ipc_try_send 4099 42 ipc_no_page 0 machine ≡ returned (ok 0) k')
      × Delivered 4096 42 0 3 machine k')
    ⊎ (((machine.envs 3).env_ipc_recving ≡ false)
        × (sys_ipc_try_send 4099 42 ipc_no_page 0 machine ≡ returned (err ipc_not_recv) machine))
sys_ipc_try_send_cases_example = sys_ipc_try_send_cases machine 0 4099 42 0 3 refl machine-waits

sys_page_alloc-Inserted_example :
    (zeroed k' : Kernel) × Allocated alloc_zero 5 machine zeroed
    × IsFreeList zeroed (6 ∷ [])
    × (sys_page_alloc 4098 0 7 machine ≡ returned (ok 0) k')
    × Inserted 2 0 3 5 7 zeroed k'
sys_page_alloc-Inserted_example =
    sys_page_alloc-Inserted 4098 0 7 2 machine-child (omega arith) refl (omega arith) refl
      machine-HasTable (λ h. omega arith) machine-IsFreeList (ground arith) (ground arith)

-- Environment 3 is not ready in the first round, and is in the second.
abbrev busy_machine : Kernel
busy_machine = with_env 3 (λ v. record v { env_ipc_recving = false }) machine

busy_machine-found : envid2env 4099 false busy_machine ≡ returned (found (some 3)) busy_machine
unfolding envid2env
busy_machine-found = refl

two_rounds : Waits 0 4099 3 ((λ _. busy_machine) ∷ (λ _. machine) ∷ []) machine machine
two_rounds = later refl refl busy_machine-found refl (now refl refl machine-waits refl)

ipc_send-take_message_example :
    (k'' : Kernel) × (ipc_send ((λ _. busy_machine) ∷ (λ _. machine) ∷ []) 4099 42 none 0 machine
      ≡ returned sent k'')
    × Delivered 4096 42 0 3 machine k''
    × (take_message 0 (resumed 3 k'')
        ≡ returned (record { value = 42; from = 4096; perm = 0 }) (resumed 3 k''))
ipc_send-take_message_example = ipc_send-take_message 42 two_rounds
