-- ===== src/Syscalls/Exit.antt =====
-- kernel/syscall/syscall.c: SYS_EXIT, and the SYS_YIELD that follows it.
use lugh_os.Base.{
  ℕ, suc, ◌<◌, ltb, leb, ◌==◌, if◌then◌else◌, pos, true, false, ◌&&◌, List, length, map, get_or,
  set, length-set, get_or-set, Option, none, some, ◌≡◌, ◌≢◌, refl, ap, subst, ◌∙◌, inl, inr, arith,
}
use lugh_os.Task.{Task, ready, running, terminated}
use lugh_os.Tasks.{Tasks, task_count, task_at, empty_task, task_find}
use lugh_os.Tasks.Family.{IsFamily}
use lugh_os.Tasks.Lineage.{task_find_lem}
use lugh_os.Telemetry.{auditor_task_exit}
use lugh_os.Ipc.{Transport}
use lugh_os.Scheduler.{Choice, is_running, yield_task, rr_schedule, rr_remove_task}
use lugh_os.Scheduler.HotSwap.{int_of}
use lugh_os.Scheduler.RoundRobin.{runnable, picked, yielded, length-yield, rr_schedule_lem}
use lugh_os.Syscalls.Family.{stated-IsFamily}
use lugh_os.Syscalls.{
  Machine, exit_task, exit_call, step_aside, chosen, yield_call, syscall_handler, sys_exit,
  sys_yield,
}

-- The task of slot `i` marked TERMINATED.
abbrev ended : List Task → ℕ → List Task
ended ts i = set ts i (record (get_or ts i empty_task) { state = terminated })

ended_at :
    (ts : List Task) (i k : ℕ)
    → i < length ts
    → get_or (ended ts i) k empty_task ≡ (
        if i == k
        then record (get_or ts i empty_task) { state = terminated }
        else get_or ts k empty_task)
ended_at ts i k l =
    get_or-set ts i k (record (get_or ts i empty_task) { state = terminated }) empty_task l

picked_at :
    (ys : List Task) (k x : ℕ)
    → k < length ys
    → get_or (picked ys k).table x empty_task ≡ (
        if k == x
        then record (get_or ys k empty_task) { state = running }
        else get_or ys x empty_task)
picked_at ys k x l =
    get_or-set ys k x (record (get_or ys k empty_task) { state = running }) empty_task l

-- In a family `rr_remove_task` ends the task of the slot that the id names.
rr_remove_task-family :
    (s : Tasks) (c i : ℕ)
    → task_find s (suc i) ≡ some i
    → c < task_count s
    → rr_remove_task s (pos c) (suc i) ≡ (pos 0, record s { tasks = ended s.tasks i }, pos c)
unfolding rr_remove_task
rr_remove_task-family s c i found l =
    let inside : (ltb 0 (task_count s) && leb (task_count s) c) ≡ false = ground arith in
    rw (found, rr_remove_task, inside) refl

find_ended :
    (s : Tasks) (i : ℕ)
    → IsFamily s
    → i < task_count s
    → task_find (record s { tasks = ended s.tasks i }) (suc i) ≡ some i
find_ended s i f l =
    let g =
      stated-IsFamily s i (record (task_at s i) { state = terminated }) refl refl refl refl f in
    let size = length-set s.tasks i (record (task_at s i) { state = terminated }) in
    ground (arith, task_find_lem (record s { tasks = ended s.tasks i }) (suc i) g)

module _ {N : Type 0} where
  -- The machine after the running task, of slot `i`, has made the call.
  abbrev pub exited : Machine N → ℕ → ℕ → ℕ → Machine N
  exited s i c code =
      let w = s.world in
      let ts = w.tasks in
      record s {
        world = record w {
          tasks = record ts { tasks = ended (ended ts.tasks i) i };
          auditor = auditor_task_exit w.auditor (suc i) (int_of code);
        };
        rr_cursor = pos c;
      }

  called :
      (s : Machine N) (i code : ℕ)
      → s.world.tasks.current ≡ some i
      → exit_call s code ≡ exit_task s i code
  unfolding exit_call
  called s i code e = ap (λ (o : Option ℕ). elim o [ none ↦ s | some k ↦ exit_task s k code ]) e

  exit_call-exited :
      (s : Machine N) (i c code : ℕ)
      → IsFamily s.world.tasks
      → s.world.tasks.current ≡ some i
      → s.rr_cursor ≡ pos c
      → c < task_count s.world.tasks
      → exit_call s code ≡ exited s i c code
  unfolding exit_task
  exit_call-exited s i c code f e at l =
      let ts = s.world.tasks in
      let li = f.runs i e in
      let size = length-set ts.tasks i (record (task_at ts i) { state = terminated }) in
      let removed =
        rr_remove_task-family (record ts { tasks = ended ts.tasks i }) c i (find_ended ts i f li)
          (omega (arith, size)) in
      let w = s.world in
      let marked : Tasks = record ts { tasks = ended ts.tasks i } in
      let id = f.ids i li in
      let out =
        ap (λ x. rr_remove_task marked x (task_at ts i).task_id) at
        ∙ ap (λ x. rr_remove_task marked (pos c) x) id
        ∙ removed in
      let path : exit_task s i code ≡ exited s i c code = (λ j. record s {
        world = record w {
          tasks = (out j).1;
          auditor = auditor_task_exit w.auditor (id j) (int_of code);
        };
        rr_cursor = (out j).2;
      }) in
      called s i code e ∙ path

  -- Its task table, slot by slot.
  exited_at :
      (s : Machine N) (i c code k : ℕ)
      → i < task_count s.world.tasks
      → task_at (exited s i c code).world.tasks k ≡ (
          if i == k
          then record (task_at s.world.tasks i) { state = terminated }
          else task_at s.world.tasks k)
  exited_at s i c code k l =
      let ts = s.world.tasks.tasks in
      let size = length-set ts i (record (get_or ts i empty_task) { state = terminated }) in
      let own = ended_at ts i i l in
      ground (arith, ended_at (ended ts i) i k (omega (arith, size)), ended_at ts i k l, own)

  -- A task that is not RUNNING gives way by doing nothing.
  exited-step_aside :
      (s : Machine N) (i c code : ℕ)
      → i < task_count s.world.tasks
      → s.world.tasks.current ≡ some i
      → step_aside (exited s i c code).world.tasks ≡ (exited s i c code).world.tasks
  exited-step_aside s i c code l e =
      let ts = (exited s i c code).world.tasks in
      let stopped : is_running (task_at ts i).state ≡ false =
        ground (arith, exited_at s i c code i l) in
      ap
        (λ (o : Option ℕ). elim o [
          | none ↦ ts
          | some k ↦
              if is_running (task_at ts k).state
              then record ts { tasks = set ts.tasks k (record (task_at ts k) { state = ready }) }
              else ts
        ])
        e
      ∙ rw stopped refl

  -- The choice of the scheduler after the call.
  yield_call-exited :
      (s : Machine N) (i c code : ℕ) (o : Choice)
      → i < task_count s.world.tasks
      → s.world.tasks.current ≡ some i
      → rr_schedule (exited s i c code).world.tasks.tasks (pos c) ≡ some o
      → yield_call (exited s i c code)
        ≡ some (chosen (exited s i c code) (exited s i c code).world.tasks o)
  unfolding yield_call
  yield_call-exited s i c code o l e made =
      let u = exited s i c code in
      ap (λ ts. elim (rr_schedule ts.tasks (pos c)) [ none ↦ none | some o ↦ some (chosen u ts o) ])
        (exited-step_aside s i c code l e)
      ∙ ap
          (λ (x : Option Choice). elim x [ none ↦ none | some o ↦ some (chosen u u.world.tasks o) ])
          made

  -- What a choice over the table left by the call means for the ended task and the others.
  abbrev Rid : Machine N → ℕ → Machine N → Type 0
  Rid s i v =
      ((task_at v.world.tasks i).state ≡ terminated)
      × ((j : ℕ)
          → j < task_count s.world.tasks
          → j ≢ i
          → runnable s.world.tasks.tasks j ≡ true
          → (k : ℕ) × (k ≢ i) × ((task_at v.world.tasks k).state ≡ running) × (v.rr_cursor ≡ pos k))

  -- The other tasks may run as before.
  runnable-exited :
      (s : Machine N) (i c code j : ℕ)
      → i < task_count s.world.tasks
      → j ≢ i
      → runnable s.world.tasks.tasks j ≡ true
      → runnable (exited s i c code).world.tasks.tasks j ≡ true
  runnable-exited s i c code j l away runs = ground (arith, exited_at s i c code j l, away, runs)

  choice-Rid :
      (s : Machine N) (i c code : ℕ)
      → i < task_count s.world.tasks
      → c < task_count s.world.tasks
      → (o : Choice) × (rr_schedule (exited s i c code).world.tasks.tasks (pos c) ≡ some o)
        × Rid s i (chosen (exited s i c code) (exited s i c code).world.tasks o)
  choice-Rid s i c code l lc =
      let xs = (exited s i c code).world.tasks.tasks in
      let size : length xs ≡ task_count s.world.tasks =
        length-set (ended s.world.tasks.tasks i) i _ ∙ length-set s.world.tasks.tasks i _ in
      let own : (get_or xs i empty_task).state ≡ terminated =
        ground (arith, exited_at s i c code i l) in
      let stays : (yield_task (get_or xs i empty_task)).state ≡ terminated = ground (arith, own) in
      elim (rr_schedule_lem xs c (omega (arith, size))) [
        | inl (idle, (k, lk, e)) ↦ (
          _,
          e,
          (
            ap (λ t. t.state) (yielded xs i) ∙ stays,
            λ j lj away runs. absurd (
                ground
                  (arith, runnable-exited s i c code j l away runs, idle j (omega (arith, size)))),
          ),
        )
        | inr (k, lk, runs, first, e) ↦
            let apart : k ≢ i =
              λ same. ground (arith, own, subst (λ x. runnable xs x ≡ true) same runs) in
            let ys = map yield_task xs in
            let room : k < length ys = omega (arith, length-yield xs, lk) in
            (
              _,
              e,
              (
                ground (arith, picked_at ys k i room, apart, yielded xs i, stays),
                λ j lj away run. (k, apart, ground (arith, picked_at ys k k room), refl),
              ),
            )
      ]

module _ {N P : Type 0} (T : Transport N P) where
  handler-exit :
      (s : Machine N) (code a b : ℕ)
      → syscall_handler T s sys_exit code a b ≡ some (exit_call s code)
  unfolding syscall_handler
  handler-exit s code a b = refl

  handler-yield : (s : Machine N) (a b c : ℕ) → syscall_handler T s sys_yield a b c ≡ yield_call s
  unfolding syscall_handler
  handler-yield s a b c = refl

  -- On a family of tasks with the cursor inside the table, SYS_EXIT by the current task of slot
  -- `i`, whatever its code, and a SYS_YIELD after it both return. The exit is announced to the
  -- auditor under the task's id. The yield leaves the task TERMINATED in the table, and where some
  -- other task was READY or RUNNING it marks another task RUNNING, the one the cursor is at. It is
  -- a decision in the table alone: after both calls the current task is still the one that exited.
  pub exit_then_yield :
      (s : Machine N) (i c code a2 a3 b1 b2 b3 : ℕ)
      → IsFamily s.world.tasks
      → s.world.tasks.current ≡ some i
      → s.rr_cursor ≡ pos c
      → c < task_count s.world.tasks
      → (u : Machine N) × (v : Machine N) × (syscall_handler T s sys_exit code a2 a3 ≡ some u)
        × (syscall_handler T u sys_yield b1 b2 b3 ≡ some v)
        × (u.world.auditor ≡ auditor_task_exit s.world.auditor (suc i) (int_of code))
        × (v.world.tasks.current ≡ some i)
        × ((task_at v.world.tasks i).state ≡ terminated)
        × ((j : ℕ)
            → j < task_count s.world.tasks
            → j ≢ i
            → runnable s.world.tasks.tasks j ≡ true
            → (k : ℕ) × (k ≢ i)
              × ((task_at v.world.tasks k).state ≡ running)
              × (v.rr_cursor ≡ pos k))
  exit_then_yield s i c code a2 a3 b1 b2 b3 f e at lc =
      let l = f.runs i e in
      let u = exited s i c code in
      let (o, made, rid) = choice-Rid s i c code l lc in
      (
        u,
        chosen u u.world.tasks o,
        handler-exit s code a2 a3 ∙ ap some (exit_call-exited s i c code f e at lc),
        handler-yield u b1 b2 b3 ∙ yield_call-exited s i c code o l e made,
        refl,
        e,
        rid.0,
        rid.1,
      )
