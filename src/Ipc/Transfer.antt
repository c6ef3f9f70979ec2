-- ===== src/Ipc/Transfer.antt =====
-- kernel/ipc/ipc.c: `ipc_send` and `ipc_recv`.
use lugh_os.Base.{
  ℕ, ◌*◌, ◌-◌, ◌^◌, ◌==◌, if◌then◌else◌, ℤ, pos, negsuc, neg, is_ok, to_u32, Bool, false, not, ◌&&◌,
  set, Option, none, some, bit_and, bit_or,
}
use lugh_os.Task.{
  required_caps_for_op, cap_privileged_op, cap_ipc_recv, DenyReason, deny_cap_priv, deny_cap_send,
  deny_cap_recv,
}
use lugh_os.Messages.{Message, max_msg_size}
use lugh_os.Ring.{ring_push}
use lugh_os.Telemetry.Record.{low8, u8}
use lugh_os.Ipc.{Channel, Transport, World, channel_at, valid_slot, emit_deny}

-- `NNG_ETIMEDOUT`
abbrev pub is_timeout : ℤ → Bool
is_timeout (pos n) = n == 4
is_timeout (negsuc n) = false

-- What a transfer returns and leaves: the result, `*msg` and the world.
pub record Transferred (N : Type 0) : Type 0 where
  pub rv : ℤ
  pub msg : Option Message
  pub world : World N

-- The channel context for the auditor: slot, domain and protocol.
abbrev pub context : ℕ → Channel → ℕ
context i c =
    bit_or (bit_or (low8 i) (low8 c.domain * 2 ^ 8)) (low8 (to_u32 c.socket.protocol) * 2 ^ 16)

-- Why a send is refused: the operation is privileged, or the channel may not send at all.
abbrev pub send_reason : ℕ → DenyReason
send_reason req = if not (bit_and req cap_privileged_op == 0) then deny_cap_priv else deny_cap_send

module _ {N P : Type 0} (T : Transport N P) where
  -- The message as it is sent: terminated, with its checksum.
  unfoldable pub sealed_message : World N → Message → Message
  sealed_message w m =
      let payload = set m.payload (max_msg_size - 1) 0 in
      record m { payload = payload; checksum = T.payload_checksum w.net payload }

  -- The message with its context, and the world after the auditor has been given it.
  unfoldable pub audit_message : World N → ℕ → Message → Message × World N
  audit_message w i m =
      if w.auditor.enabled
      then (let m' : Message = record m { padding1 = context i (channel_at w i) } in
          let a = w.auditor in
          (m', record w { auditor = record a { ring = (ring_push a.ring m').1 } }))
      else (m, w)

  -- The part of `ipc_send` after the capability gate.
  unfoldable pub transmit : World N → ℕ → Message → Transferred N
  transmit w i m =
      let m' = sealed_message w m in
      let (rv, packet, net) = T.lugh_message_to_nng w.net m' in
      if not (is_ok rv)
      then record { rv = neg 3; msg = some m'; world = record w { net = net } }
      else (let (m'', w') = audit_message (record w { net = net }) i m' in
          let (send_rv, net') = T.nng_send net (channel_at w i).socket packet in
          record {
            rv = if is_ok send_rv then pos 0 else neg 4;
            msg = some m'';
            world = record w' { net = net' };
          })

  -- `(granted & req) != req`, with the message's operation.
  abbrev pub lacks_caps : World N → ℕ → ℕ → Bool
  lacks_caps w i op =
      let req = required_caps_for_op op in not (bit_and (channel_at w i).cap_mask req == req)

  unfoldable pub send_on : World N → ℕ → Message → Transferred N
  send_on w i m =
      if lacks_caps w i m.operation
      then record {
        rv = neg 7;
        msg = some m;
        world =
            emit_deny w i none m.operation (send_reason (required_caps_for_op m.operation))
              (u8 m.priority);
      }
      else transmit w i m

  unfoldable pub ipc_send : World N → ℤ → Option Message → Transferred N
  ipc_send w id none = record { rv = neg 1; msg = none; world = w }
  ipc_send w id (some m) = elim (valid_slot w id) [
    | none ↦ record { rv = neg 2; msg = some m; world = w }
    | some i ↦ send_on w i m
  ]

  -- The end of `ipc_recv`: a packet becomes a message, whose checksum is verified.
  unfoldable pub unpack : World N → P → Message → Transferred N
  unpack w packet m =
      let (rv, m', net) = T.nng_message_to_lugh w.net packet m in
      let w' : World N = record w { net = T.nng_msg_free net packet } in
      if not (is_ok rv)
      then record { rv = neg 5; msg = some m'; world = w' }
      else if T.payload_checksum w'.net m'.payload == m'.checksum
      then record { rv = pos 0; msg = some m'; world = w' }
      else record { rv = neg 6; msg = some m'; world = w' }

  unfoldable pub receive : World N → ℕ → Message → Bool → Transferred N
  receive w i m nonblock =
      let (rv, packet, net) = T.nng_recv w.net (channel_at w i).socket nonblock in
      let w' : World N = record w { net = net } in
      if not (is_ok rv)
      then record {
        rv = if is_timeout rv && nonblock then neg 3 else neg 4;
        msg = some m;
        world = w';
      }
      else unpack w' packet m

  unfoldable pub recv_on : World N → ℕ → Message → Bool → Transferred N
  recv_on w i m nonblock =
      if bit_and (channel_at w i).cap_mask cap_ipc_recv == 0
      then record { rv = neg 7; msg = some m; world = emit_deny w i none 0 deny_cap_recv 0 }
      else receive w i m nonblock

  unfoldable pub ipc_recv : World N → ℤ → Option Message → Bool → Transferred N
  ipc_recv w id none nonblock = record { rv = neg 1; msg = none; world = w }
  ipc_recv w id (some m) nonblock = elim (valid_slot w id) [
    | none ↦ record { rv = neg 2; msg = some m; world = w }
    | some i ↦ recv_on w i m nonblock
  ]
