-- ===== src/Workflow/Tests.antt =====
-- A workflow whose second step fails, and a table with an abandoned slot.
use lugh_os.Base.{
  ◌⊎◌, ℕ, zero, suc, ◌+◌, ◌-◌, pos, neg, Bool, if◌then◌else◌, List, [], ◌∷◌, length, take, Option,
  none, some, ◌≡◌, refl, ap, subst, arith,
}
use lugh_os.Telemetry.{auditor_boot}
use lugh_os.TxnLog.{txn_log_boot}
use lugh_os.Workflow.{
  GivenStep, workflow_begin, Kernel, Step, Workflow, wf_running, idle_workflow, wf_emit,
}
use lugh_os.Workflow.Engine.{
  workflow_run, workflow_recover, run_from, undo_step, unwind_from, finish_unwind, wf_unwind,
}
use lugh_os.Workflow.Atomic.{IsUndoable, AllUndoable, Atomic, workflow_run-Atomic}
use lugh_os.Workflow.Slots.{Refused, Claimed, workflow_begin_lem}
use lugh_os.Workflow.Recovery.{AllRecovered, workflow_recover_lem}

abbrev kernel : Kernel ℕ
kernel = record {
  memory = 10;
  log = txn_log_boot;
  auditor = auditor_boot;
  current = none;
  next_txn = 1;
}

-- A step that adds to the memory, and one that always fails.
abbrev add_step : Step ℕ
add_step = record {
  name = none;
  run = λ ctx k. (pos 0, record k { memory = k.memory + ctx });
  undo = some (λ ctx k. (pos 0, record k { memory = k.memory - ctx }));
}

abbrev bad_step : Step ℕ
bad_step = record { name = none; run = λ ctx k. (neg 5, k); undo = none }

abbrev workflow : Workflow ℕ
workflow = record {
  workflow_id = 1;
  owner_task_id = 0;
  status = wf_running;
  step_count = 2;
  done_count = 0;
  ctx = 7;
  steps = some (add_step ∷ bad_step ∷ []);
}

restored : (workflow_run kernel (some workflow)).2.memory ≡ 10
unfolding workflow_run run_from wf_unwind unwind_from undo_step finish_unwind wf_emit
restored = refl

refused : (workflow_run kernel (some workflow)).0 ≡ neg 1
unfolding workflow_run run_from
refused = refl

-- The number in memory, as it is.
abbrev whole : ℕ → ℕ
whole n = n

add_step-IsUndoable : IsUndoable whole 7 add_step
add_step-IsUndoable = record {
  restores = λ k l ok seen. (refl, omega (arith, seen));
  fails = λ k bad. cc;
}

bad_step-IsUndoable : IsUndoable whole 7 bad_step
bad_step-IsUndoable = record { restores = λ k ok. refl; fails = λ k bad. refl }

abbrev step_in : Option (Step ℕ) → Step ℕ
step_in none = bad_step
step_in (some s) = s

all_undoable : AllUndoable whole 7 (add_step ∷ bad_step ∷ [])
all_undoable zero s e = subst (IsUndoable whole 7) (ap step_in e) add_step-IsUndoable
all_undoable (suc zero) s e = subst (IsUndoable whole 7) (ap step_in e) bad_step-IsUndoable
all_undoable (suc (suc i)) s e = cc

workflow_run-Atomic_example :
    (wf' : Workflow ℕ) × ((workflow_run kernel (some workflow)).1 ≡ some wf')
    × Atomic whole 7
        (add_step ∷ bad_step ∷ [])
        kernel.memory
        (length (take 2 (add_step ∷ bad_step ∷ [])))
        ((workflow_run kernel (some workflow)).0, wf', (workflow_run kernel (some workflow)).2)
workflow_run-Atomic_example =
    workflow_run-Atomic whole kernel workflow (add_step ∷ bad_step ∷ []) refl refl refl
      (omega arith) all_undoable

abbrev table : List (Workflow ℕ)
table = record workflow { done_count = 1 } ∷ idle_workflow ∷ []

workflow_recover_lem_example :
    let r = workflow_recover kernel table in
    (bad : Bool) × AllRecovered kernel table bad r.1 r.2 × (r.0 ≡ (if bad then neg 1 else pos 0))
workflow_recover_lem_example = workflow_recover_lem kernel table (omega arith, (omega arith, tt))

abbrev given : List (GivenStep ℕ)
given = record { name = none; run = some (λ ctx k. (pos 0, k)); undo = none } ∷ []

workflow_begin_lem_example :
    (Refused given 1 table
      × (workflow_begin kernel table (some given) 1 7 ≡ some (none, table, kernel)))
    ⊎ Claimed kernel table given 1 7 (workflow_begin kernel table (some given) 1 7)
workflow_begin_lem_example = workflow_begin_lem kernel table given 1 7 (omega arith)
