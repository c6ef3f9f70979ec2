-- ===== src/Task.antt =====
-- include/lugh.h (`task_t`, the task states) and include/capabilities.h.
use lugh_os.Base.{ℕ, ◌+◌, ℤ, ◌==◌, ◌||◌, if◌then◌else◌}

abbrev pub task_parent_none : ℕ
task_parent_none = 0xFFFFFFFF

pub data TaskState : Type 0 where
  ready running blocked terminated : TaskState

-- `task_t`
pub record Task : Type 0 where
  pub task_id : ℕ
  pub priority : ℤ
  pub cap_mask : ℕ
  pub domain : ℕ
  pub state : TaskState
  pub deadline : ℕ
  pub kernel_stack_top : ℕ
  pub saved_sp : ℕ
  pub parent_task_id : ℕ

abbrev pub cap_ipc_send : ℕ
cap_ipc_send = 1

abbrev pub cap_ipc_recv : ℕ
cap_ipc_recv = 2

abbrev pub cap_cross_domain : ℕ
cap_cross_domain = 4

abbrev pub cap_privileged_op : ℕ
cap_privileged_op = 8

abbrev pub cap_all : ℕ
cap_all = 0x0F

abbrev pub op_update : ℕ
op_update = 0x102

abbrev pub op_write : ℕ
op_write = 0x200

abbrev pub op_delete : ℕ
op_delete = 0x201

-- The capabilities that sending an operation needs: `CAP_IPC_SEND`, and `CAP_PRIVILEGED_OP` too
-- for an update, a write or a delete.
unfoldable pub required_caps_for_op : ℕ → ℕ
required_caps_for_op op =
    if op == op_update || (op == op_write || op == op_delete)
    then cap_ipc_send + cap_privileged_op
    else cap_ipc_send

-- `DENY_*`, the reason codes of a refusal.
pub data DenyReason : Type 0 where
  deny_cap_send deny_cap_recv deny_cap_priv deny_domain deny_cap_escalation deny_domain_create :
      DenyReason

abbrev pub deny_code : DenyReason → ℕ
deny_code deny_cap_send = 1
deny_code deny_cap_recv = 2
deny_code deny_cap_priv = 3
deny_code deny_domain = 4
deny_code deny_cap_escalation = 5
deny_code deny_domain_create = 6
