-- ===== src/Ipc/Tests.antt =====
-- Runs of kernel/ipc/ipc.c over a transport of one queue.
use lugh_os.Base.{
  arith, ◌≡◌, ℤ, pos, neg, true, List, [], ◌∷◌, ◌++◌, replicate, none, some, ◌≢◌, ◌⊎◌, refl,
}
use lugh_os.Base.Masks.{Covers}
use lugh_os.Task.{required_caps_for_op, op_write}
use lugh_os.Messages.{Message, blank}
use lugh_os.Telemetry.{auditor_boot}
use lugh_os.Telemetry.Record.{u8}
use lugh_os.Tasks.{Tasks, task_init}
use lugh_os.Tasks.Family.{task_init-IsFamily}
use lugh_os.Domains.{domain_edges_init}
use lugh_os.Ipc.{
  Channel, Transport, World, empty_channel, max_ipc_channels, channel_at, channel_deny,
}
use lugh_os.Ipc.Channels.{init_ipc}
use lugh_os.Ipc.Transfer.{send_reason, ipc_send}
use lugh_os.Ring.{ring_boot}
use lugh_os.Ring.Refine.{IsValid, contents, push}
use lugh_os.Ipc.Audit.{IsContext, ipc_send-audited}
use lugh_os.Ipc.Refusals.{RefusedWith, ipc_send_gate}
use lugh_os.Ipc.Trust.{IsRooted, create, send, close, run, run_init-IsRooted}

abbrev first_or : Message → List Message → Message
first_or m [] = m
first_or m (x ∷ xs) = x

abbrev queue_result : List Message → ℤ
queue_result [] = pos 4
queue_result (x ∷ xs) = pos 0

abbrev rest_of : List Message → List Message
rest_of [] = []
rest_of (x ∷ xs) = xs

-- One queue behind every socket.
abbrev loopback : Transport (List Message) Message
loopback = record {
  nng_init = λ q. [];
  nng_socket_create =
      λ q protocol. (pos 0, record { id = pos 0; protocol = protocol; flags = 0 }, q);
  nng_socket_close = λ q s. (pos 0, q);
  nng_connect = λ q s t. (pos 0, q);
  lugh_message_to_nng = λ q m. (pos 0, m, q);
  nng_send = λ q s m. (pos 0, q ++ m ∷ []);
  nng_recv = λ q s nonblock. (queue_result q, first_or blank q, rest_of q);
  nng_message_to_lugh = λ q p m. (pos 0, p, q);
  nng_msg_free = λ q p. q;
  payload_checksum = λ q bs. 0;
}

abbrev boot : Tasks
boot = record { tasks = []; current = none; next_task_id = 1; stacks = 0x1000 }

abbrev world : World (List Message)
world = record {
  channels = replicate max_ipc_channels empty_channel;
  net = [];
  auditor = auditor_boot;
  tasks = task_init boot;
  domains = domain_edges_init;
}

-- A channel that may only send.
abbrev sender : Channel
sender = record empty_channel { in_use = true; cap_mask = 1; owner_task_id = 1 }

abbrev sending : World (List Message)
sending = record world { channels = sender ∷ [] }

abbrev write_request : Message
write_request = record blank { operation = op_write }

run_init-IsRooted_example : IsRooted (
    run loopback
      (init_ipc loopback world).1
      (create 0 0 3 (pos 1) ∷ send (pos 0) (some blank) ∷ close (pos 0) ∷ []))
run_init-IsRooted_example =
    run_init-IsRooted loopback world
      (create 0 0 3 (pos 1) ∷ send (pos 0) (some blank) ∷ close (pos 0) ∷ [])
      (task_init-IsFamily boot refl)

ipc_send_gate_example :
    let o = ipc_send loopback sending (pos 0) (some write_request) in
    let req = required_caps_for_op op_write in
    ((¬ Covers (channel_at sending 0).cap_mask req)
      × RefusedWith sending write_request
          (channel_deny sending 0 none op_write (send_reason req) (u8 0))
          o)
    ⊎ (Covers (channel_at sending 0).cap_mask req × (o.rv ≢ neg 7))
ipc_send_gate_example = ipc_send_gate loopback sending (pos 0) 0 write_request refl

ring-IsValid : IsValid ring_boot
ring-IsValid = record { storage = refl; head_in = omega arith; tail_in = omega arith }

sender_caps : Covers (channel_at sending 0).cap_mask (required_caps_for_op 7)
unfolding required_caps_for_op
sender_caps i h = h

abbrev heard : World (List Message)
heard = record sending { auditor = record auditor_boot { enabled = true } }

ipc_send-audited_example :
    let o = ipc_send loopback heard (pos 0) (some (record blank { operation = 7 })) in
    (m' : Message) × (o.msg ≡ some m')
    × (m'.operation ≡ 7)
    × (m'.priority ≡ 0)
    × IsContext m'.padding1 0 (channel_at heard 0)
    × (contents o.world.auditor.ring ≡ (push (contents heard.auditor.ring) m').1)
ipc_send-audited_example =
    ipc_send-audited loopback heard (pos 0) 0 (record blank { operation = 7 }) refl refl
      ring-IsValid sender_caps refl
