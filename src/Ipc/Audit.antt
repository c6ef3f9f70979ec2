-- ===== src/Ipc/Audit.antt =====
-- kernel/ipc/ipc.c: what an accepted `ipc_send` hands to the telemetry ring.
use lugh_os.Base.{
  ℕ, ◌+◌, ◌*◌, ◌/◌, ◌%◌, ◌^◌, ◌<◌, ℤ, is_ok, to_u32, true, false, not, some, bit_or, bit_and, ◌≡◌,
  refl, ap, ◌∙◌, arith, ==_iff,
}
use lugh_os.Base.Masks.{Covers, Covers-iff, bit_and-mask, bit_or-shifted, bit_or_comm}
use lugh_os.Task.{required_caps_for_op}
use lugh_os.Messages.{Message}
use lugh_os.Ring.{ring_push}
use lugh_os.Ring.Refine.{IsValid, push, contents, push_refines}
use lugh_os.Telemetry.Record.{low8}
use lugh_os.Ipc.{Channel, Transport, World, channel_at, valid_slot}
use lugh_os.Ipc.Transfer.{context, sealed_message, audit_message, transmit, lacks_caps, ipc_send}
use lugh_os.Ipc.Refusals.{send_on-passed, ipc_send-valid}

low8_lem : (x : ℕ) → low8 x ≡ x % 2 ^ 8
low8_lem x = bit_and-mask 8 x

context_sum :
    (a b c : ℕ)
    → a < 2 ^ 8
    → b < 2 ^ 8
    → bit_or (bit_or a (b * 2 ^ 8)) (c * 2 ^ 16) ≡ c * 2 ^ 16 + (b * 2 ^ 8 + a)
context_sum a b c h k =
    let inner : bit_or a (b * 2 ^ 8) ≡ b * 2 ^ 8 + a =
      bit_or_comm a (b * 2 ^ 8) ∙ bit_or-shifted 8 b a h in
    ap (λ t. bit_or t (c * 2 ^ 16)) inner
    ∙ bit_or_comm (b * 2 ^ 8 + a) (c * 2 ^ 16)
    ∙ bit_or-shifted 16 c (b * 2 ^ 8 + a) (omega arith)

-- The three fields of a channel context.
abbrev pub IsContext : ℕ → ℕ → Channel → Type 0
IsContext x i c =
    (x % 2 ^ 8 ≡ i % 2 ^ 8)
    × (x / 2 ^ 8 % 2 ^ 8 ≡ c.domain % 2 ^ 8)
    × (x / 2 ^ 16 ≡ to_u32 c.socket.protocol % 2 ^ 8)

context-IsContext : (i : ℕ) (c : Channel) → IsContext (context i c) i c
context-IsContext i c =
    let p = to_u32 c.socket.protocol in
    let a = low8_lem i in
    let b = low8_lem c.domain in
    let d = low8_lem p in
    let sum = context_sum (low8 i) (low8 c.domain) (low8 p) (omega arith) (omega arith) in
    (omega arith, omega arith, omega arith)

module _ {N P : Type 0} (T : Transport N P) where
  transmit-audited :
      (w : World N) (i : ℕ) (m : Message)
      → w.auditor.enabled ≡ true
      → is_ok (T.lugh_message_to_nng w.net (sealed_message T w m)).0 ≡ true
      → let m' : Message = record (sealed_message T w m) {
        padding1 = context i (channel_at w i);
      } in
        ((transmit T w i m).msg ≡ some m')
        × ((transmit T w i m).world.auditor.ring ≡ (ring_push w.auditor.ring m').1)
  unfolding transmit audit_message
  transmit-audited w i m armed ok = simp (ok, armed) (refl, refl)

  has_caps :
      (w : World N) (i op : ℕ)
      → Covers (channel_at w i).cap_mask (required_caps_for_op op)
      → lacks_caps T w i op ≡ false
  has_caps w i op covers =
      let mask = (channel_at w i).cap_mask in
      let req = required_caps_for_op op in
      ap not ((==_iff (bit_and mask req) req).1 ((Covers-iff mask req).1 covers))

  -- With an armed auditor and a valid telemetry ring, when the channel has the capabilities that the
  -- operation needs and the message converts to a packet, `ipc_send` hands the ring the message that
  -- it leaves to its caller: the same operation and priority, and a context word from which the
  -- auditor reads the channel's slot, domain and protocol, eight bits of each. The ring then holds
  -- it as its newest message, or counts one more drop when it is full.
  pub ipc_send-audited :
      (w : World N) (id : ℤ) (i : ℕ) (m : Message)
      → valid_slot w id ≡ some i
      → w.auditor.enabled ≡ true
      → IsValid w.auditor.ring
      → Covers (channel_at w i).cap_mask (required_caps_for_op m.operation)
      → is_ok (T.lugh_message_to_nng w.net (sealed_message T w m)).0 ≡ true
      → let o = ipc_send T w id (some m) in
        (m' : Message) × (o.msg ≡ some m')
        × (m'.operation ≡ m.operation)
        × (m'.priority ≡ m.priority)
        × IsContext m'.padding1 i (channel_at w i)
        × (contents o.world.auditor.ring ≡ (push (contents w.auditor.ring) m').1)
  unfolding sealed_message
  ipc_send-audited w id i m at armed v covers ok =
      let c = channel_at w i in
      let m' : Message = record (sealed_message T w m) { padding1 = context i c } in
      let (said, held) = transmit-audited w i m armed ok in
      let e =
        ipc_send-valid T w id i m at ∙ send_on-passed T w i m (has_caps w i m.operation covers) in
      (
        m',
        ap (λ o. o.msg) e ∙ said,
        refl,
        refl,
        context-IsContext i c,
        ap (λ o. contents o.world.auditor.ring) e
            ∙ ap contents held
            ∙ ap (λ x. x.1) (push_refines w.auditor.ring m' v),
      )
