-- ===== src/Syscalls.antt =====
-- kernel/syscall/syscall.c: the calls that user mode makes into the kernel.
pub mod Family
pub mod Exit
mod Tests
use lugh_os.Base.{
  ℕ, ◌-◌, ltb, ◌==◌, if◌then◌else◌, ℤ, pos, is_neg, Bool, ◌||◌, ◌&&◌, List, ◌∷◌, get_or, set, map,
  Option, none, some,
}
use lugh_os.Task.{Task, ready, terminated}
use lugh_os.Tasks.{Tasks, task_at, create_task}
use lugh_os.Messages.{Message, max_msg_size}
use lugh_os.Telemetry.{auditor_tick, auditor_task_exit}
use lugh_os.Ipc.{Transport, World}
use lugh_os.Ipc.Transfer.{Transferred, ipc_send}
use lugh_os.Scheduler.{is_running, Choice, rr_schedule, rr_remove_task}
use lugh_os.Scheduler.HotSwap.{int_of}

abbrev pub sys_write : ℕ
sys_write = 1

abbrev pub sys_ipc_send : ℕ
sys_ipc_send = 2

abbrev pub sys_exit : ℕ
sys_exit = 3

abbrev pub sys_create_task : ℕ
sys_create_task = 4

abbrev pub sys_yield : ℕ
sys_yield = 5

-- The kernel as a system call finds it, with the cursor of round_robin.c, `user_bootstrap_channel`
-- and the writes to the console, newest first, as an address and a length. User memory is read as
-- a message or as a task descriptor at an address.
pub record Machine (N : Type 0) : Type 0 where
  pub world : World N
  pub rr_cursor : ℤ
  pub user_bootstrap_channel : ℤ
  pub console : List (ℕ × ℕ)
  pub user_messages : ℕ → Message
  pub user_specs : ℕ → Task

-- A NULL pointer, or one outside user space.
abbrev pub bad_pointer : ℕ → Bool
bad_pointer p = p == 0 || (ltb p 0x400000 || ltb 0x7FFFFFFF p)

abbrev pub max_write : ℕ
max_write = 1024

-- The running task, where it is RUNNING, becomes READY.
abbrev pub step_aside : Tasks → Tasks
step_aside ts = elim ts.current [
  | none ↦ ts
  | some i ↦
      let t = task_at ts i in
      if is_running t.state
      then record ts { tasks = set ts.tasks i (record t { state = ready }) }
      else ts
]

module _ {N : Type 0} where
  -- The machine with another table of tasks.
  abbrev pub with_tasks : Machine N → Tasks → Machine N
  with_tasks s t = let w = s.world in record s { world = record w { tasks = t } }

  pub write_call : Machine N → ℕ → ℕ → Machine N
  write_call s p n =
      if bad_pointer p
      then s
      else record s { console = (p, if ltb max_write n then max_write else n) ∷ s.console }

  -- The caller's task, of slot `i`, ends: it is announced, marked and given up by the scheduler.
  pub exit_task : Machine N → ℕ → ℕ → Machine N
  exit_task s i code =
      let w = s.world in
      let t = task_at w.tasks i in
      let ts = w.tasks in
      let ended : Tasks = record ts { tasks = set ts.tasks i (record t { state = terminated }) } in
      let out = rr_remove_task ended s.rr_cursor t.task_id in
      record s {
        world = record w {
          tasks = out.1;
          auditor = auditor_task_exit w.auditor t.task_id (int_of code);
        };
        rr_cursor = out.2;
      }

  pub exit_call : Machine N → ℕ → Machine N
  exit_call s code = elim s.world.tasks.current [ none ↦ s | some i ↦ exit_task s i code ]

  pub create_call : Machine N → ℕ → Machine N
  create_call s p =
      if bad_pointer p
      then s
      else (let w = s.world in
          let o = create_task w.auditor w.tasks (some (s.user_specs p)) in
          record s { world = record w { tasks = o.tasks; auditor = o.auditor } })

  abbrev pub chosen : Machine N → Tasks → Choice → Machine N
  chosen s ts c =
      let w = s.world in
      record s { world = record w { tasks = record ts { tasks = c.table } }; rr_cursor = c.cursor }

  -- `none` is the read outside the table of `rr_schedule`.
  pub yield_call : Machine N → Option (Machine N)
  yield_call s =
      let ts = step_aside s.world.tasks in
      elim (rr_schedule ts.tasks s.rr_cursor) [ none ↦ none | some c ↦ some (chosen s ts c) ]

module _ {N P : Type 0} (T : Transport N P) where
  abbrev pub user_message : Machine N → ℕ → ℕ → Message
  user_message s op p =
      let m = s.user_messages p in
      record m { operation = op; payload = set m.payload (max_msg_size - 1) 0 }

  -- The message goes out on the bootstrap channel, whatever comes of it, and the ring is drained.
  pub send_call : Machine N → ℕ → ℕ → Machine N
  send_call s op p =
      if bad_pointer p
      then s
      else if is_neg s.user_bootstrap_channel
      then s
      else (let m = user_message s op p in
          let out = ipc_send T s.world s.user_bootstrap_channel (some m) in
          let w = out.world in
          record s {
            world = record w { auditor = auditor_tick w.auditor };
            user_messages =
                λ q. if q == p then elim out.msg [ none ↦ m | some x ↦ x ] else s.user_messages q;
          })

  pub syscall_handler : Machine N → ℕ → ℕ → ℕ → ℕ → Option (Machine N)
  syscall_handler s num arg1 arg2 arg3 =
      if num == sys_write
      then some (write_call s arg1 arg2)
      else if num == sys_ipc_send
      then some (send_call s arg1 arg2)
      else if num == sys_exit
      then some (exit_call s arg1)
      else if num == sys_create_task
      then some (create_call s arg1)
      else if num == sys_yield
      then yield_call s
      else some s
