-- ===== src/Syscalls/Family.antt =====
-- kernel/syscall/syscall.c: what user mode can do to the task table of kernel/sched/task.c.
use lugh_os.Base.{
  ℕ, suc, ◌<◌, ◌==◌, is_neg, set, Option, none, some, ◌≡◌, refl, sym, subst, inl, inr, Option-cases,
  arith,
}
use lugh_os.Base.Masks.{Covers}
use lugh_os.Task.{Task}
use lugh_os.Tasks.{Tasks, task_count, task_at, task_init}
use lugh_os.Tasks.Family.{
  IsFamily, IsChild, Step, created-IsFamily, Step-IsFamily, task_init-IsFamily, caps_within_root,
}
use lugh_os.Messages.{Message}
use lugh_os.Ipc.{Transport}
use lugh_os.Ipc.Gates.{either, ipc_send-Keeps}
use lugh_os.Scheduler.{Choice, is_running, rr_schedule}
use lugh_os.Scheduler.SameTable.{
  KeepsTable, set-IsSameTable, same-IsFamily, rr_schedule-KeepsTable, rr_remove_task-IsFamily,
}
use lugh_os.Syscalls.{
  Machine, with_tasks, write_call, exit_task, exit_call, create_call, step_aside, chosen,
  yield_call, user_message, send_call, syscall_handler, bad_pointer, sys_write, sys_ipc_send,
  sys_exit, sys_create_task, sys_yield,
}

pub stated-IsFamily :
    (s : Tasks) (i : ℕ) (u : Task)
    → u.task_id ≡ (task_at s i).task_id
    → u.cap_mask ≡ (task_at s i).cap_mask
    → u.domain ≡ (task_at s i).domain
    → u.parent_task_id ≡ (task_at s i).parent_task_id
    → IsFamily s
    → IsFamily (record s { tasks = set s.tasks i u })
stated-IsFamily s i u a b c d = same-IsFamily s _ (set-IsSameTable s.tasks i u (a, b, c, d))

step_aside-IsFamily : (s : Tasks) → IsFamily s → IsFamily (step_aside s)
step_aside-IsFamily s f = elim (Option-cases s.current) [
  | inl e ↦ rw (e, step_aside) f
  | inr (i, e) ↦
      rw (e, step_aside)
        (either IsFamily (is_running (task_at s i).state) _ _
          (stated-IsFamily s i _ refl refl refl refl f) f)
]

module _ {N : Type 0} where
  -- The task table of the machine is a family.
  abbrev pub HasFamily : Machine N → Type 0
  HasFamily s = IsFamily s.world.tasks

  abbrev AfterFamily : Option (Machine N) → Type 0
  AfterFamily none = Unit
  AfterFamily (some s) = HasFamily s

  write_call-HasFamily : (s : Machine N) (p n : ℕ) → HasFamily s → HasFamily (write_call s p n)
  unfolding write_call
  write_call-HasFamily s p n f = either HasFamily (bad_pointer p) _ _ f f

  exit_task-HasFamily : (s : Machine N) (i code : ℕ) → HasFamily s → HasFamily (exit_task s i code)
  unfolding exit_task
  exit_task-HasFamily s i code f =
      rr_remove_task-IsFamily _ s.rr_cursor _
        (stated-IsFamily s.world.tasks i _ refl refl refl refl f)

  exit_call-HasFamily : (s : Machine N) (code : ℕ) → HasFamily s → HasFamily (exit_call s code)
  unfolding exit_call
  exit_call-HasFamily s code f = elim (Option-cases s.world.tasks.current) [
    | inl e ↦ rw (e, exit_call) f
    | inr (i, e) ↦ rw (e, exit_call) (exit_task-HasFamily s i code f)
  ]

  create_call-HasFamily : (s : Machine N) (p : ℕ) → HasFamily s → HasFamily (create_call s p)
  unfolding create_call
  create_call-HasFamily s p f =
      let made = created-IsFamily s.world.auditor s.world.tasks (some (s.user_specs p)) f in
      either HasFamily (bad_pointer p) _ _ f made

  chosen-AfterFamily :
      (s : Machine N) (ts : Tasks) (o : Option Choice)
      → IsFamily ts
      → KeepsTable ts.tasks o
      → AfterFamily (elim o [ none ↦ none | some c ↦ some (chosen s ts c) ])
  chosen-AfterFamily s ts none f k = tt
  chosen-AfterFamily s ts (some c) f k = same-IsFamily ts c.table k f

  yield_call-AfterFamily : (s : Machine N) → HasFamily s → AfterFamily (yield_call s)
  unfolding yield_call
  yield_call-AfterFamily s f =
      let ts = step_aside s.world.tasks in
      chosen-AfterFamily s ts (rr_schedule ts.tasks s.rr_cursor)
        (step_aside-IsFamily s.world.tasks f) (rr_schedule-KeepsTable ts.tasks s.rr_cursor)

module _ {N P : Type 0} (T : Transport N P) where
  send_call-HasFamily : (s : Machine N) (op p : ℕ) → HasFamily s → HasFamily (send_call T s op p)
  unfolding send_call
  send_call-HasFamily s op p f =
      let kept =
        (ipc_send-Keeps T s.world s.user_bootstrap_channel (some (user_message T s op p))).1 in
      either HasFamily (bad_pointer p) _ _ f
        (either HasFamily (is_neg s.user_bootstrap_channel) _ _ f (subst IsFamily (sym kept) f))

  syscall_handler-AfterFamily :
      (s : Machine N) (num arg1 arg2 arg3 : ℕ)
      → HasFamily s
      → AfterFamily (syscall_handler T s num arg1 arg2 arg3)
  unfolding syscall_handler
  syscall_handler-AfterFamily s num arg1 arg2 arg3 f =
      either AfterFamily (num == sys_write) _ _ (write_call-HasFamily s arg1 arg2 f) (
        either AfterFamily (num == sys_ipc_send) _ _ (send_call-HasFamily s arg1 arg2 f) (
          either AfterFamily (num == sys_exit) _ _ (exit_call-HasFamily s arg1 f) (
            either AfterFamily (num == sys_create_task) _ _ (create_call-HasFamily s arg1 f)
              (either AfterFamily (num == sys_yield) _ _ (yield_call-AfterFamily s f) f))))

  -- What may happen to the machine: a system call with any arguments, user mode writing anything
  -- into its memory, and a creation, context switch or scheduling step inside the kernel.
  pub data Run (s : Machine N) : Machine N → Type 0 where
    start : Run s s
    called :
        {t : Machine N} (num arg1 arg2 arg3 : ℕ) (u : Machine N)
        → Run s t
        → syscall_handler T t num arg1 arg2 arg3 ≡ some u
        → Run s u
    wrote :
        {t : Machine N} (messages : ℕ → Message) (specs : ℕ → Task)
        → Run s t
        → Run s (record t { user_messages = messages; user_specs = specs })
    stepped :
        {t : Machine N} {ts : Tasks} → Run s t → Step t.world.tasks ts → Run s (with_tasks t ts)

  pub Run-HasFamily : {s t : Machine N} → HasFamily s → Run s t → HasFamily t
  Run-HasFamily f start = f
  Run-HasFamily f (called {t} num arg1 arg2 arg3 u r e) =
      subst AfterFamily e (syscall_handler-AfterFamily t num arg1 arg2 arg3 (Run-HasFamily f r))
  Run-HasFamily f (wrote messages specs r) = Run-HasFamily f r
  Run-HasFamily f (stepped r st) = Step-IsFamily st (Run-HasFamily f r)

  -- User mode cannot gain capabilities: from the table that `task_init` leaves, whatever system
  -- calls are made, with any number and arguments, whatever user mode writes into its memory
  -- between them, and whatever creations, context switches and scheduling steps the kernel makes,
  -- every task but the root has a parent earlier in the table, whose capabilities include its own
  -- and whose domain it shares unless that parent holds CAP_CROSS_DOMAIN, and every task stays
  -- within the root's capabilities.
  pub Run-caps :
      (boot : Tasks) (s t : Machine N) (i : ℕ)
      → boot.next_task_id ≡ 1
      → s.world.tasks ≡ task_init boot
      → Run s t
      → 0 < i
      → i < task_count t.world.tasks
      → ((j : ℕ) × IsChild t.world.tasks i j)
        × Covers (task_at t.world.tasks 0).cap_mask (task_at t.world.tasks i).cap_mask
  Run-caps boot s t i first e r p l =
      let f = Run-HasFamily (subst IsFamily (sym e) (task_init-IsFamily boot first)) r in
      (f.parents i p l, caps_within_root (suc i) t.world.tasks i (omega arith) f l)
