-- ===== src/Nng/Instance.antt =====
-- kernel/nngcompat.c as the transport of kernel/ipc/ipc.c, and the checksum that `ipc_recv` tests.
use lugh_os.Base.{
  ℕ, suc, ◌==◌, if◌then◌else◌, ℤ, pos, neg, is_ok, Bool, true, false, ◌&&◌, List, take, some,
  bit_and, ◌≡◌, refl, ◌∙◌, inl, inr, Bool-cases, Option-cases, ==_iff,
}
use lugh_os.Task.{cap_ipc_recv}
use lugh_os.Messages.{Message}
use lugh_os.Ipc.{Transport, World, channel_at, valid_slot}
use lugh_os.Ipc.Transfer.{Transferred, is_timeout, unpack, receive, recv_on, ipc_recv}
use lugh_os.Checksum.{calculate_checksum}
use lugh_os.Nng.{Nng, no_socket, nng_einval, nng_init}
use lugh_os.Nng.Messages.{nng_msg_free, string_length, lugh_message_to_nng, nng_message_to_lugh}
use lugh_os.Nng.Sockets.{nng_socket_create, nng_socket_close, nng_connect, nng_recv}
use lugh_os.Nng.Send.{nng_send}

-- `calculate_checksum(payload, strlen(payload))`; the payload may be read.
abbrev pub payload_checksum : Nng → List ℕ → ℕ
payload_checksum n p = calculate_checksum n.crc32_table true (take (string_length p) p)

-- A packet is the pointer of a message. A socket that cannot be created is given back closed.
abbrev pub kernel_transport : Transport Nng ℕ
kernel_transport = record {
  nng_init = nng_init;
  nng_socket_create = λ n protocol. nng_socket_create n no_socket protocol;
  nng_socket_close = λ n s. ((nng_socket_close n s).0, (nng_socket_close n s).2);
  nng_connect = nng_connect;
  lugh_message_to_nng = lugh_message_to_nng;
  nng_send = nng_send;
  nng_recv = λ n s nonblock. nng_recv n s;
  nng_message_to_lugh = λ n p m. ((nng_message_to_lugh n p m).0, (nng_message_to_lugh n p m).1, n);
  nng_msg_free = λ n p. (nng_msg_free n p).1;
  payload_checksum = payload_checksum;
}

-- The conversion leaves the checksum of the caller's message.
kept_checksum :
    (c : Bool) (m : Message) (x : ℤ × Message)
    → x.1.checksum ≡ m.checksum
    → (if c then (nng_einval, m) else x).1.checksum ≡ m.checksum
kept_checksum true m x e = refl
kept_checksum false m x e = e

checksum_kept :
    (n : Nng) (p : ℕ) (m : Message) → (nng_message_to_lugh n p m).1.checksum ≡ m.checksum
unfolding nng_message_to_lugh
checksum_kept n p m = kept_checksum _ m _ refl

-- A transfer that succeeded gives a message with the caller's checksum, which is its payload's.
pub record IsVouched (m : Message) (out : Transferred Nng) : Type 0 where
  pub got :
      (m' : Message) × ((out.msg ≡ some m')
        × (m'.checksum ≡ m.checksum)
        × (payload_checksum out.world.net m'.payload ≡ m.checksum))

abbrev Vouched : Message → Transferred Nng → Type 0
Vouched m out = out.rv ≡ pos 0 → IsVouched m out

not_failed : (k : ℕ) → neg (suc k) ≡ pos 0 → ⊥
not_failed k e = cc

unpack-Vouched : (w : World Nng) (p : ℕ) (m : Message) → Vouched m (unpack kernel_transport w p m)
unfolding unpack
unpack-Vouched w p m =
    let (rv, m') = nng_message_to_lugh w.net p m in
    let net = (nng_msg_free w.net p).1 in
    elim (Bool-cases (is_ok rv)) [
      | inr bad ↦ rw bad (λ h. absurd (not_failed 4 h))
      | inl ok ↦ (elim (Bool-cases (payload_checksum net m'.payload == m'.checksum)) [
        | inr other ↦ rw (ok, other) (λ h. absurd (not_failed 5 h))
        | inl same ↦
            rw (ok, same)
              (λ h. record {
                got = (
                  m',
                  (refl, checksum_kept w.net p m, (==_iff _ _).0 same ∙ checksum_kept w.net p m),
                );
              })
      ])
    ]

receive-Vouched :
    (w : World Nng) (i : ℕ) (m : Message) (nonblock : Bool)
    → Vouched m (receive kernel_transport w i m nonblock)
unfolding receive
receive-Vouched w i m nonblock =
    let (rv, packet, net) = nng_recv w.net (channel_at w i).socket in
    elim (Bool-cases (is_ok rv)) [
      | inl ok ↦ rw ok (unpack-Vouched (record w { net = net }) packet m)
      | inr bad ↦ (elim (Bool-cases (is_timeout rv && nonblock)) [
        | inl late ↦ rw (bad, late) (λ h. absurd (not_failed 2 h))
        | inr other ↦ rw (bad, other) (λ h. absurd (not_failed 3 h))
      ])
    ]

recv_on-Vouched :
    (w : World Nng) (i : ℕ) (m : Message) (nonblock : Bool)
    → Vouched m (recv_on kernel_transport w i m nonblock)
unfolding recv_on
recv_on-Vouched w i m nonblock =
    elim (Bool-cases (bit_and (channel_at w i).cap_mask cap_ipc_recv == 0)) [
      | inl denied ↦ rw denied (λ h. absurd (not_failed 6 h))
      | inr allowed ↦ rw allowed (receive-Vouched w i m nonblock)
    ]

-- Over the kernel's own transport a receive that returns 0 has left the checksum that the
-- caller's message held before the call, and that is the checksum of the payload received.
pub ipc_recv-IsVouched :
    (w : World Nng) (id : ℤ) (m : Message) (nonblock : Bool)
    → (ipc_recv kernel_transport w id (some m) nonblock).rv ≡ pos 0
    → IsVouched m (ipc_recv kernel_transport w id (some m) nonblock)
unfolding ipc_recv
ipc_recv-IsVouched w id m nonblock = elim (Option-cases (valid_slot w id)) [
  | inl invalid ↦ rw (invalid, ipc_recv) (λ h. absurd (not_failed 1 h))
  | inr (i, e) ↦ rw (e, ipc_recv) (recv_on-Vouched w i m nonblock)
]
