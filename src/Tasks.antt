-- ===== src/Tasks.antt =====
-- kernel/sched/task.c: the task table, task creation with bounded capabilities, and the lineage
-- helpers of kernel/ipc/ipc.c that walk the table.
pub mod Create
pub mod Family
pub mod Lineage
mod Tests
use lugh_os.Base.{
  ℕ, zero, suc, ℤ, pos, neg, ◌+◌, ◌*◌, ◌%◌, ◌^◌, leb, ◌==◌, if◌then◌else◌, Bool, not, ◌&&◌, List,
  [], ◌∷◌, ◌++◌, length, Option, none, some, bit_and, get_or,
}
use lugh_os.Task.{Task, TaskState, ready, running, cap_all, cap_cross_domain, task_parent_none}
use lugh_os.Telemetry.{Auditor, auditor_task_create}

abbrev pub max_tasks : ℕ
max_tasks = 1024

abbrev pub max_runnable : ℕ
max_runnable = 8

abbrev pub kernel_stack_size : ℕ
kernel_stack_size = 16384

-- The statics of task.c. `tasks` holds the first `task_count` entries of the table, `current` the
-- slot that `current_task` points at, and `stacks` the address of `kernel_stacks`.
pub record Tasks : Type 0 where
  pub tasks : List Task
  pub current : Option ℕ
  pub next_task_id : ℕ
  pub stacks : ℕ

abbrev pub task_count : Tasks → ℕ
task_count s = length s.tasks

-- An unused entry of the static table.
abbrev pub empty_task : Task
empty_task = record {
  task_id = 0;
  priority = pos 0;
  cap_mask = 0;
  domain = 0;
  state = ready;
  deadline = 0;
  kernel_stack_top = 0;
  saved_sp = 0;
  parent_task_id = 0;
}

abbrev pub task_at : Tasks → ℕ → Task
task_at s i = get_or s.tasks i empty_task

-- `*current_task`
abbrev pub current_task : Tasks → Option Task
current_task s = elim s.current [ none ↦ none | some i ↦ some (task_at s i) ]

abbrev pub assign_kernel_stack : ℕ → ℕ → ℕ
assign_kernel_stack stacks slot =
    if leb max_runnable slot then 0 else (stacks + (slot + 1) * kernel_stack_size) % 2 ^ 32

abbrev pub following_id : ℕ → ℕ
following_id id = if id == 0xFFFFFFFF then 1 else id + 1

unfoldable pub task_init : Tasks → Tasks
task_init s =
    let root : Task = record {
      task_id = s.next_task_id;
      priority = pos 0;
      cap_mask = cap_all;
      domain = 0;
      state = running;
      deadline = 0;
      kernel_stack_top = assign_kernel_stack s.stacks 0;
      saved_sp = 0;
      parent_task_id = task_parent_none;
    } in
    record s { tasks = root ∷ []; current = some 0; next_task_id = following_id s.next_task_id }

-- The slot of the first entry with this id, as the pointer that `task_find` returns.
pub find_from : List Task → ℕ → ℕ → Option ℕ
find_from [] i id = none
find_from (t ∷ ts) i id = if t.task_id == id then some i else find_from ts (suc i) id

unfoldable pub task_find : Tasks → ℕ → Option ℕ
unfolding find_from
task_find s id = if id == 0 then none else find_from s.tasks 0 id

-- `current_task->cap_mask & CAP_CROSS_DOMAIN`
abbrev pub may_cross : Task → Bool
may_cross t = not (bit_and t.cap_mask cap_cross_domain == 0)

-- The entry that `create_task` writes at a slot, under a parent.
unfoldable pub new_task : Tasks → Task → Task → Task
new_task s parent spec =
    let top = assign_kernel_stack s.stacks (task_count s) in
    record {
      task_id = s.next_task_id;
      priority = spec.priority;
      cap_mask = bit_and spec.cap_mask parent.cap_mask;
      domain = spec.domain;
      state = ready;
      deadline = spec.deadline;
      kernel_stack_top = top;
      saved_sp = top;
      parent_task_id = parent.task_id;
    }

-- The fields that are mirrored back into the caller's descriptor.
abbrev pub mirrored : Task → Task → Task
mirrored spec t = record spec {
  task_id = t.task_id;
  cap_mask = t.cap_mask;
  state = t.state;
  kernel_stack_top = t.kernel_stack_top;
  parent_task_id = t.parent_task_id;
}

-- What `create_task` returns and leaves: its result, `*spec`, the table and the auditor.
pub record Outcome : Type 0 where
  pub rv : ℤ
  pub spec : Option Task
  pub tasks : Tasks
  pub auditor : Auditor

abbrev pub install : Auditor → Tasks → Task → Task → Outcome
install a s parent spec =
    let t = new_task s parent spec in
    record {
      rv = pos 0;
      spec = some (mirrored spec t);
      tasks = record s { tasks = s.tasks ++ t ∷ []; next_task_id = following_id s.next_task_id };
      auditor =
          auditor_task_create a t.task_id t.parent_task_id t.cap_mask t.domain t.priority
            t.kernel_stack_top;
    }

abbrev pub create_under : Auditor → Tasks → Task → Task → Outcome
create_under a s parent spec =
    if leb max_tasks (task_count s)
    then record { rv = neg 3; spec = some spec; tasks = s; auditor = a }
    else if not (spec.domain == parent.domain) && not (may_cross parent)
    then record { rv = neg 4; spec = some spec; tasks = s; auditor = a }
    else install a s parent spec

unfoldable pub create_task : Auditor → Tasks → Option Task → Outcome
create_task a s none = record { rv = neg 1; spec = none; tasks = s; auditor = a }
create_task a s (some spec) = elim (current_task s) [
  | none ↦ record { rv = neg 2; spec = some spec; tasks = s; auditor = a }
  | some parent ↦ create_under a s parent spec
]
