-- ===== src/Ipc.antt =====
-- kernel/ipc/ipc.c: channels with capabilities. The sockets and packets of kernel/nngcompat.c, and
-- its checksum, are an interface, `Transport`.
pub mod Channels
pub mod Transfer
pub mod Trust
pub mod Gates
pub mod Refusals
pub mod Audit
mod Tests
use lugh_os.Base.{
  ℕ, zero, suc, ltb, ◌==◌, if◌then◌else◌, ℤ, pos, negsuc, to_u32, Bool, true, false, not, List,
  get_or, set, Option, none, some,
}
use lugh_os.Task.{Task, DenyReason, task_parent_none, required_caps_for_op}
use lugh_os.Messages.{Message}
use lugh_os.Telemetry.{Auditor, auditor_deny}
use lugh_os.Telemetry.Record.{Deny, low8, u8}
use lugh_os.Tasks.{Tasks, current_task, empty_task}
use lugh_os.Tasks.Lineage.{lineage_depth_of, sibling_count_of}
use lugh_os.Domains.{Domains}

abbrev pub max_ipc_channels : ℕ
max_ipc_channels = 16

-- `nng_socket_t`
pub record Socket : Type 0 where
  pub id : ℤ
  pub protocol : ℤ
  pub flags : ℕ

-- `ipc_channel_t`
pub record Channel : Type 0 where
  pub id : ℤ
  pub in_use : Bool
  pub socket : Socket
  pub security_level : ℕ
  pub domain : ℕ
  pub cap_mask : ℕ
  pub owner_task_id : ℕ

-- What ipc.c uses of kernel/nngcompat.c: `N` is that file's state, `P` a packet (`nng_msg_t`).
-- `payload_checksum` is `calculate_checksum(payload, strlen(payload))`.
pub record Transport (N P : Type 0) : Type 0 where
  pub nng_init : N → N
  pub nng_socket_create : N → ℤ → ℤ × Socket × N
  pub nng_socket_close : N → Socket → ℤ × N
  pub nng_connect : N → Socket → Socket → ℤ × N
  pub lugh_message_to_nng : N → Message → ℤ × P × N
  pub nng_send : N → Socket → P → ℤ × N
  pub nng_recv : N → Socket → Bool → ℤ × P × N
  pub nng_message_to_lugh : N → P → Message → ℤ × Message × N
  pub nng_msg_free : N → P → N
  pub payload_checksum : N → List ℕ → ℕ

-- The kernel as ipc.c sees it.
pub record World (N : Type 0) : Type 0 where
  pub channels : List Channel
  pub net : N
  pub auditor : Auditor
  pub tasks : Tasks
  pub domains : Domains

abbrev pub empty_channel : Channel
empty_channel = record {
  id = pos 0;
  in_use = false;
  socket = record { id = pos 0; protocol = pos 0; flags = 0 };
  security_level = 0;
  domain = 0;
  cap_mask = 0;
  owner_task_id = 0;
}

-- The parent id of the running task, or TASK_PARENT_NONE.
abbrev pub parent_or_none : Option Task → ℕ
parent_or_none none = task_parent_none
parent_or_none (some t) = t.parent_task_id

module _ {N : Type 0} where
  abbrev pub channel_at : World N → ℕ → Channel
  channel_at w i = get_or w.channels i empty_channel

  -- The slot of a valid id: in range and in use.
  abbrev pub valid_slot : World N → ℤ → Option ℕ
  valid_slot w (pos i) =
      if ltb i max_ipc_channels then if (channel_at w i).in_use then some i else none else none
  valid_slot w (negsuc i) = none

  unfoldable pub create_deny : World N → ℕ → Task → ℕ → ℕ → DenyReason → ℤ → Deny
  create_deny w slot t requested target reason protocol = record {
    src_domain = low8 t.domain;
    dst_domain = low8 target;
    src_channel = 0xFF;
    dst_channel = 0xFF;
    protocol = low8 (to_u32 protocol);
    reason = reason;
    priority = 0;
    operation = 0;
    granted_caps = t.cap_mask;
    required_caps = requested;
    parent_task_id = t.parent_task_id;
    lineage_depth = lineage_depth_of w.tasks (some t);
    sibling_count = sibling_count_of w.tasks (some slot);
  }

  -- A denial at creation, by the running task, if there is one.
  unfoldable pub emit_create_deny : World N → ℕ → ℕ → DenyReason → ℤ → World N
  emit_create_deny w requested target reason protocol =
      if not w.auditor.enabled then w else elim w.tasks.current [
        | none ↦ w
        | some slot ↦ record w {
          auditor = auditor_deny w.auditor (
              create_deny w slot (get_or w.tasks.tasks slot empty_task) requested target reason
                protocol);
        }
      ]

  unfoldable pub channel_deny : World N → ℕ → Option ℕ → ℕ → DenyReason → ℕ → Deny
  channel_deny w src dst op reason priority =
      let c = channel_at w src in
      record {
        src_domain = low8 c.domain;
        dst_domain = elim dst [ none ↦ 0xFF | some j ↦ low8 (channel_at w j).domain ];
        src_channel = low8 src;
        dst_channel = elim dst [ none ↦ 0xFF | some j ↦ low8 j ];
        protocol = low8 (to_u32 c.socket.protocol);
        reason = reason;
        priority = priority;
        operation = op;
        granted_caps = c.cap_mask;
        required_caps = required_caps_for_op op;
        parent_task_id = parent_or_none (current_task w.tasks);
        lineage_depth = lineage_depth_of w.tasks (current_task w.tasks);
        sibling_count = sibling_count_of w.tasks w.tasks.current;
      }

  -- A denial on channel `src`, towards channel `dst` if there is one.
  unfoldable pub emit_deny : World N → ℕ → Option ℕ → ℕ → DenyReason → ℕ → World N
  emit_deny w src dst op reason priority =
      if not w.auditor.enabled
      then w
      else record w { auditor = auditor_deny w.auditor (channel_deny w src dst op reason priority) }
