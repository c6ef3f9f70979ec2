-- ===== src/Syscalls/Tests.antt =====
-- System calls on a machine of one or two tasks, over a transport that loses every message.
use lugh_os.Base.{ℕ, ◌<◌, [], ◌∷◌, pos, neg, true, none, some, ◌≡◌, ◌≢◌, refl, arith}
use lugh_os.Base.Masks.{Covers}
use lugh_os.Task.{running, terminated}
use lugh_os.Tasks.{Tasks, task_count, task_at, empty_task, task_init, create_task, new_task}
use lugh_os.Tasks.Family.{IsChild, task_init-IsFamily}
use lugh_os.Messages.{blank}
use lugh_os.Telemetry.{auditor_boot, auditor_task_exit}
use lugh_os.Domains.{domain_edges_init}
use lugh_os.Ipc.{Transport}
use lugh_os.Scheduler.HotSwap.{int_of}
use lugh_os.Scheduler.RoundRobin.{runnable}
use lugh_os.Syscalls.{
  Machine, create_call, write_call, syscall_handler, sys_write, sys_exit, sys_create_task,
  sys_yield,
}
use lugh_os.Syscalls.Family.{Run, start, called, Run-HasFamily, Run-caps}
use lugh_os.Syscalls.Exit.{exit_then_yield}

abbrev lossy : Transport ℕ ℕ
lossy = record {
  nng_init = λ n. n;
  nng_socket_create =
      λ n protocol. (pos 0, record { id = pos 0; protocol = protocol; flags = 0 }, n);
  nng_socket_close = λ n s. (pos 0, n);
  nng_connect = λ n s t. (pos 0, n);
  lugh_message_to_nng = λ n m. (pos 0, 0, n);
  nng_send = λ n s p. (pos 0, n);
  nng_recv = λ n s nonblock. (pos 4, 0, n);
  nng_message_to_lugh = λ n p m. (pos 0, m, n);
  nng_msg_free = λ n p. n;
  payload_checksum = λ n bs. 0;
}

abbrev boot : Tasks
boot = record { tasks = []; current = none; next_task_id = 1; stacks = 0x1000 }

-- User mode asks for CAP_IPC_SEND, CAP_IPC_RECV and a capability that does not exist.
abbrev machine : Machine ℕ
machine = record {
  world = record {
    channels = [];
    net = 0;
    auditor = auditor_boot;
    tasks = task_init boot;
    domains = domain_edges_init;
  };
  rr_cursor = pos 0;
  user_bootstrap_channel = neg 1;
  console = [];
  user_messages = λ p. blank;
  user_specs = λ p. record empty_task { cap_mask = 0x13 };
}

-- A long write from the bottom of user space is cut to 1024 bytes.
write_run :
    syscall_handler lossy machine sys_write 0x400000 5000 0
    ≡ some (record machine { console = (0x400000, 1024) ∷ [] })
unfolding syscall_handler write_call
write_run = refl

abbrev second : Machine ℕ
second = create_call machine 0x400000

create_run : syscall_handler lossy machine sys_create_task 0x400000 0 0 ≡ some second
unfolding syscall_handler
create_run = refl

reached : Run lossy machine second
reached = called sys_create_task 0x400000 0 0 second start create_run

two_tasks : 1 < task_count second.world.tasks
unfolding create_call create_task task_init
two_tasks = omega arith

masked : (task_at second.world.tasks 1).cap_mask ≡ 3
unfolding create_call create_task task_init new_task
masked = refl

Run-caps_example :
    ((j : ℕ) × IsChild second.world.tasks 1 j)
    × Covers (task_at second.world.tasks 0).cap_mask (task_at second.world.tasks 1).cap_mask
Run-caps_example = Run-caps lossy boot machine second 1 refl refl reached (omega arith) two_tasks

root_current : second.world.tasks.current ≡ some 0
unfolding create_call create_task task_init
root_current = refl

cursor_inside : second.rr_cursor ≡ pos 0
unfolding create_call
cursor_inside = refl

exit_then_yield_example :
    (u : Machine ℕ) × (v : Machine ℕ) × (syscall_handler lossy second sys_exit 7 0 0 ≡ some u)
    × (syscall_handler lossy u sys_yield 0 0 0 ≡ some v)
    × (u.world.auditor ≡ auditor_task_exit second.world.auditor 1 (int_of 7))
    × (v.world.tasks.current ≡ some 0)
    × ((task_at v.world.tasks 0).state ≡ terminated)
    × ((j : ℕ)
        → j < task_count second.world.tasks
        → j ≢ 0
        → runnable second.world.tasks.tasks j ≡ true
        → (k : ℕ) × (k ≢ 0) × ((task_at v.world.tasks k).state ≡ running) × (v.rr_cursor ≡ pos k))
exit_then_yield_example =
    exit_then_yield lossy second 0 0 7 0 0 0 0 0
      (Run-HasFamily lossy (task_init-IsFamily boot refl) reached) root_current cursor_inside
      (omega (arith, two_tasks))
