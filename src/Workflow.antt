-- ===== src/Workflow.antt =====
-- services/workflow/workflow.c and include/workflow.h: the durable workflow engine, which runs the
-- steps of a workflow in order and undoes the completed ones when a step fails; and
-- `generate_transaction_id` of services/storage/transactions.c.
pub mod Recovery
pub mod Undo
pub mod Slots
pub mod Engine
pub mod Atomic
mod Tests
use lugh_os.Base.{
  ℕ, zero, suc, ◌+◌, ◌-◌, ◌^◌, ltb, leb, ◌==◌, if◌then◌else◌, ℤ, pos, neg, is_ok, Bool, true, false,
  not, ◌||◌, ◌&&◌, List, [], ◌∷◌, get_or, set, length, replicate, take, Option, none, some,
}
use lugh_os.Task.{Task}
use lugh_os.Telemetry.{Auditor, auditor_workflow}
use lugh_os.TxnLog.{TxnEntry, TxnLog, log_transaction}

abbrev pub workflow_max_steps : ℕ
workflow_max_steps = 8

abbrev pub workflow_max_active : ℕ
workflow_max_active = 4

abbrev pub op_workflow : ℕ
op_workflow = 0x202

-- `workflow_status_t`
pub data Status : Type 0 where
  wf_idle wf_running wf_committed wf_rolling_back wf_rolled_back wf_failed : Status

abbrev pub status_code : Status → ℕ
status_code wf_idle = 0
status_code wf_running = 1
status_code wf_committed = 2
status_code wf_rolling_back = 3
status_code wf_rolled_back = 4
status_code wf_failed = 5

-- `WF_EV_*`
pub data Event : Type 0 where
  ev_begin ev_step_ok ev_step_fail ev_undo_ok ev_undo_fail ev_commit ev_rolled_back ev_failed :
      Event

abbrev pub event_code : Event → ℕ
event_code ev_begin = 0
event_code ev_step_ok = 1
event_code ev_step_fail = 2
event_code ev_undo_ok = 3
event_code ev_undo_fail = 4
event_code ev_commit = 5
event_code ev_rolled_back = 6
event_code ev_failed = 7

abbrev pub wf_event_name : Event → List ℕ
wf_event_name ev_begin = 66 ∷ 69 ∷ 71 ∷ 73 ∷ 78 ∷ []
wf_event_name ev_step_ok = 83 ∷ 84 ∷ 69 ∷ 80 ∷ 95 ∷ 79 ∷ 75 ∷ []
wf_event_name ev_step_fail = 83 ∷ 84 ∷ 69 ∷ 80 ∷ 95 ∷ 70 ∷ 65 ∷ 73 ∷ 76 ∷ []
wf_event_name ev_undo_ok = 85 ∷ 78 ∷ 68 ∷ 79 ∷ 95 ∷ 79 ∷ 75 ∷ []
wf_event_name ev_undo_fail = 85 ∷ 78 ∷ 68 ∷ 79 ∷ 95 ∷ 70 ∷ 65 ∷ 73 ∷ 76 ∷ []
wf_event_name ev_commit = 67 ∷ 79 ∷ 77 ∷ 77 ∷ 73 ∷ 84 ∷ []
wf_event_name ev_rolled_back = 82 ∷ 79 ∷ 76 ∷ 76 ∷ 69 ∷ 68 ∷ 95 ∷ 66 ∷ 65 ∷ 67 ∷ 75 ∷ []
wf_event_name ev_failed = 70 ∷ 65 ∷ 73 ∷ 76 ∷ 69 ∷ 68 ∷ []

-- The kernel as the engine and its callbacks see it: `memory` is what the callbacks work on,
-- `next_txn` the static of `generate_transaction_id`.
pub record Kernel (M : Type 0) : Type 0 where
  pub memory : M
  pub log : TxnLog
  pub auditor : Auditor
  pub current : Option Task
  pub next_txn : ℕ

-- `workflow_fn`: it takes the context pointer, and may change all of the kernel but the table of
-- workflows.
abbrev pub Callback : Type 0 → Type 0
Callback M = ℕ → Kernel M → ℤ × Kernel M

-- `workflow_step_t` once its `run` has been found to be a function; `none` is a NULL `undo` or
-- `name`.
pub record Step (M : Type 0) : Type 0 where
  pub name : Option (List ℕ)
  pub run : Callback M
  pub undo : Option (Callback M)

-- `workflow_step_t` as a caller gives it.
pub record GivenStep (M : Type 0) : Type 0 where
  pub name : Option (List ℕ)
  pub run : Option (Callback M)
  pub undo : Option (Callback M)

-- `workflow_t`
pub record Workflow (M : Type 0) : Type 0 where
  pub workflow_id : ℕ
  pub owner_task_id : ℕ
  pub status : Status
  pub step_count : ℕ
  pub done_count : ℕ
  pub ctx : ℕ
  pub steps : Option (List (Step M))

-- A bounded copy into a field of `n` bytes, with its terminator.
abbrev pub wf_copy_field : ℕ → Option (List ℕ) → List ℕ
wf_copy_field n none = []
wf_copy_field n (some s) = take (n - 1) s

-- "workflow"
abbrev pub workflow_label : List ℕ
workflow_label = 119 ∷ 111 ∷ 114 ∷ 107 ∷ 102 ∷ 108 ∷ 111 ∷ 119 ∷ []

-- The owner recorded in a slot: `current_task`, or 0.
abbrev pub owner : Option Task → ℕ
owner none = 0
owner (some t) = t.task_id

module _ {M : Type 0} where
  -- A free slot of the table.
  abbrev pub idle_workflow : Workflow M
  idle_workflow = record {
    workflow_id = 0;
    owner_task_id = 0;
    status = wf_idle;
    step_count = 0;
    done_count = 0;
    ctx = 0;
    steps = none;
  }

  abbrev pub is_idle : Workflow M → Bool
  is_idle wf = status_code wf.status == 0

  unfoldable pub workflow_active_count : List (Workflow M) → ℕ
  workflow_active_count [] = 0
  workflow_active_count (wf ∷ wfs) =
      let rest = workflow_active_count wfs in if not (is_idle wf) then suc rest else rest

  abbrev pub step_at : List (Step M) → ℕ → Option (Step M)
  step_at [] i = none
  step_at (s ∷ ss) zero = some s
  step_at (s ∷ ss) (suc i) = step_at ss i

  abbrev pub steps_of : Workflow M → List (Step M)
  steps_of wf = elim wf.steps [ none ↦ [] | some ss ↦ ss ]

  abbrev pub label_of : Workflow M → ℕ → Option (List ℕ)
  label_of wf i =
      if ltb i wf.step_count
      then elim (step_at (steps_of wf) i) [ none ↦ some workflow_label | some s ↦ s.name ]
      else some workflow_label

  -- One entry in the transaction log, and one auditor record.
  pub wf_emit : Kernel M → Workflow M → ℕ → Event → ℤ → Kernel M
  wf_emit k wf i event rv =
      let e : TxnEntry = record {
        txn_id = wf.workflow_id;
        task_id = 0;
        operation = op_workflow;
        key = wf_copy_field 64 (label_of wf i);
        value = wf_copy_field 256 (some (wf_event_name event));
        checksum = 0;
      } in
      let logged = log_transaction k.auditor k.log k.current (some e) in
      record k {
        log = logged.log;
        auditor =
            auditor_workflow logged.auditor k.current wf.workflow_id wf.owner_task_id i
              (status_code wf.status) wf.done_count rv (event_code event);
      }

  -- `none` is a halted CPU: the ids have run out.
  unfoldable pub generate_transaction_id : Kernel M → Option (ℕ × Kernel M)
  generate_transaction_id k =
      if k.next_txn == 0xFFFFFFFFFFFFFFFF
      then none
      else some (k.next_txn, record k { next_txn = k.next_txn + 1 })

  -- The first `n` steps, if they are there and none has a NULL `run`.
  unfoldable pub checked : List (GivenStep M) → ℕ → Option (List (Step M))
  checked gs zero = some []
  checked [] (suc n) = none
  checked (g ∷ gs) (suc n) = elim g.run [
    | none ↦ none
    | some f ↦ elim (checked gs n) [
      | none ↦ none
      | some ss ↦ some (record { name = g.name; run = f; undo = g.undo } ∷ ss)
    ]
  ]

  unfoldable pub first_idle : List (Workflow M) → Option ℕ
  first_idle [] = none
  first_idle (wf ∷ wfs) =
      let rest = first_idle wfs in
      if is_idle wf then some 0 else elim rest [ none ↦ none | some i ↦ some (suc i) ]

  abbrev pub claimed : Kernel M → ℕ → ℕ → ℕ → List (Step M) → Workflow M
  claimed k id count ctx ss = record {
    workflow_id = id;
    owner_task_id = owner k.current;
    status = wf_running;
    step_count = count;
    done_count = 0;
    ctx = ctx;
    steps = some ss;
  }

  -- The scan for a free slot, for steps that passed the checks.
  unfoldable pub claim :
      Kernel M
      → List (Workflow M)
      → ℕ
      → ℕ
      → List (Step M)
      → Option (Option ℕ × List (Workflow M) × Kernel M)
  claim k table count ctx ss = elim (first_idle table) [
    | none ↦ some (none, table, k)
    | some i ↦ elim (generate_transaction_id k) [
      | none ↦ none
      | some (id, k') ↦ some (some i, set table i (claimed k id count ctx ss), k')
    ]
  ]

  -- The slot that the returned pointer names, if any, and the table and kernel after.
  unfoldable pub workflow_begin :
      Kernel M
      → List (Workflow M)
      → Option (List (GivenStep M))
      → ℕ
      → ℕ
      → Option (Option ℕ × List (Workflow M) × Kernel M)
  workflow_begin k table none count ctx = some (none, table, k)
  workflow_begin k table (some gs) count ctx =
      if count == 0 || ltb workflow_max_steps count
      then some (none, table, k)
      else elim (checked gs count) [
        | none ↦ some (none, table, k)
        | some ss ↦ claim k table count ctx ss
      ]

  unfoldable pub workflow_release : Workflow M → Workflow M
  workflow_release wf = record wf {
    workflow_id = 0;
    owner_task_id = 0;
    status = wf_idle;
    step_count = 0;
    done_count = 0;
    ctx = 0;
    steps = none;
  }
