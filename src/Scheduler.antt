-- ===== src/Scheduler.antt =====
-- services/scheduler/round_robin.c and kernel/sched/priority.c: which task runs next.
pub mod RoundRobin
pub mod Fairness
pub mod Priority
pub mod HotSwap
pub mod SameTable
mod Tests
use lugh_os.Base.{
  ℕ, zero, suc, ℤ, pos, negsuc, neg, ◌+◌, ◌-◌, leb, ltb, ◌==◌, if◌then◌else◌, Bool, true, false,
  not, ◌&&◌, List, [], ◌∷◌, length, map, Option, none, some, get_or, set, is_neg,
}
use lugh_os.Task.{Task, TaskState, ready, running, blocked, terminated}
use lugh_os.Tasks.{Tasks, task_count, task_at, empty_task, task_find}

abbrev pub is_ready : TaskState → Bool
is_ready ready = true
is_ready running = false
is_ready blocked = false
is_ready terminated = false

abbrev pub is_running : TaskState → Bool
is_running ready = false
is_running running = true
is_running blocked = false
is_running terminated = false

-- What a scheduler call returns (`rv`, and `*next_task_id` where it is written) and leaves: the
-- table and the round-robin cursor.
pub record Choice : Type 0 where
  pub rv : ℤ
  pub next_id : Option ℕ
  pub table : List Task
  pub cursor : ℤ

-- Mark a RUNNING task READY.
abbrev pub yield_task : Task → Task
yield_task t = if is_running t.state then record t { state = ready } else t

-- `(rr_cursor + 1 >= n) ? 0 : rr_cursor + 1`, for a table of `n` entries
abbrev pub advance : ℕ → ℤ → ℤ
advance n (pos k) = if leb n (k + 1) then pos 0 else pos (k + 1)
advance n (negsuc zero) = pos 0
advance n (negsuc (suc k)) = negsuc k

-- The scan for the next READY slot, with `m` slots to check; `none` is a read outside the table,
-- which a cursor below -1 leads to.
pub rr_scan : ℕ → List Task → ℤ → Option Choice
rr_scan zero ts c = some (record { rv = neg 1; next_id = none; table = ts; cursor = c })
rr_scan (suc m) ts c =
    let c' = advance (length ts) c in
    elim c' [
      | pos k ↦
          let rest = rr_scan m ts (pos k) in
          let t = get_or ts k empty_task in
          if is_ready t.state
          then some (record {
            rv = pos 0;
            next_id = some t.task_id;
            table = set ts k (record t { state = running });
            cursor = pos k;
          })
          else rest
      | negsuc k ↦ none
    ]

-- `rr_schedule` on a table, with its cursor; `next_task_id` is taken not to be NULL.
unfoldable pub rr_schedule : List Task → ℤ → Option Choice
unfolding rr_scan
rr_schedule ts c =
    if leb (length ts) 0
    then some (record { rv = neg 1; next_id = none; table = ts; cursor = c })
    else rr_scan (length ts) (map yield_task ts) c

abbrev pub rr_max_tasks : ℕ
rr_max_tasks = 64

unfoldable pub rr_init : ℤ × ℤ
rr_init = (pos 0, pos 0)

-- The scheduler accepts any task while the table is within its budget.
unfoldable pub rr_add_task : Tasks → Option Task → ℤ
rr_add_task s none = neg 1
rr_add_task s (some t) = if ltb rr_max_tasks (task_count s) then neg 1 else pos 0

-- `rr_cursor >= n`
abbrev pub at_least : ℤ → ℕ → Bool
at_least (pos k) n = leb n k
at_least (negsuc k) n = false

-- A removed task stays in the table as TERMINATED, and the cursor is held inside the table.
unfoldable pub rr_remove_task : Tasks → ℤ → ℕ → ℤ × Tasks × ℤ
rr_remove_task s c id = elim (task_find s id) [
  | none ↦ (neg 1, s, c)
  | some i ↦ (
    pos 0,
    record s { tasks = set s.tasks i (record (task_at s i) { state = terminated }) },
    if ltb 0 (task_count s) && at_least c (task_count s) then pos (task_count s - 1) else c,
  )
]

-- `x < y` on C integers.
abbrev pub less : ℤ → ℤ → Bool
less (pos a) (pos b) = ltb a b
less (pos a) (negsuc b) = false
less (negsuc a) (pos b) = true
less (negsuc a) (negsuc b) = ltb b a

-- The loop of `priority_schedule` from slot `i`, with the best slot and priority so far.
pub best_from : List Task → ℕ → Option ℕ → ℤ → Option ℕ
best_from [] i best p = best
best_from (t ∷ ts) i best p =
    let wins = is_ready t.state && less t.priority p in
    best_from ts (suc i) (if wins then some i else best) (if wins then t.priority else p)

-- `priority_schedule`, where `next_task_id` is not NULL.
unfoldable pub priority_schedule : List Task → ℤ × Option ℕ
unfolding best_from
priority_schedule ts = elim (best_from ts 0 none (pos 11)) [
  | none ↦ (neg 1, none)
  | some i ↦ (let t = get_or ts i empty_task in (pos 0, some t.task_id))
]
