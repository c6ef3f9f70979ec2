-- ===== src/Nng/Send/Success.antt =====
-- kernel/nngcompat.c: a delivery succeeds where there is room for it.
use lugh_os.Base.{
  ℕ, ◌+◌, ◌≤◌, ◌<◌, leb, ℤ, is_ok, true, false, List, [], ◌∷◌, length, ◌≡◌, ◌≢◌, refl, sym, ap,
  subst, ◌∙◌, arith, ==_ne, ltb-false, get_or,
}
use lugh_os.Nng.{Nng, max_queued_msgs, msg_buffer_size, queue_at, empty_queue, nng_ok}
use lugh_os.Nng.Messages.{write_msg, nng_msg_alloc, nng_msg_append}
use lugh_os.Nng.Sockets.{enqueue_incoming}
use lugh_os.Nng.Send.{queue_copy, append_body, fill_copy, deliver_copy}
use lugh_os.Nng.Messages.Alloc.{
  IsHeld, MsgAlloc, no_msg, new_msg, write_msg_ne, write_msg_self, nng_msg_alloc-MsgAlloc,
}
use lugh_os.Memory.Blocks.Placed.{IsPlaced}

-- There is room for a copy of `msg` at socket `i`: a message can be allocated, the access checks
-- pass, the body fits into the 64 bytes of the copy's block, and the queue is not full.
pub record IsRoom (n : Nng) (i msg : ℕ) : Type 0 where
  pub allocates : (nng_msg_alloc n 0).0 ≡ nng_ok
  pub access : (p : ℕ) (bs : List ℕ) → n.access p bs ≡ true
  pub short : length (n.msgs msg).bytes ≤ 64
  pub queue_open : (queue_at n i).count < max_queued_msgs

append_ok :
    (n : Nng) (p : ℕ) (bs : List ℕ)
    → p ≢ 0
    → n.access p bs ≡ true
    → length (n.msgs p).bytes + length bs ≤ msg_buffer_size
    → ((nng_msg_append n p bs).0 ≡ nng_ok) × ((nng_msg_append n p bs).1.recv_queues ≡ n.recv_queues)
unfolding nng_msg_append
append_ok n p bs ne a l =
    rw (==_ne p 0 ne)
      (rw a (rw (ltb-false msg_buffer_size (length (n.msgs p).bytes + length bs) l) (refl, refl)))

append_body_ok :
    (n : Nng) (p : ℕ) (bs : List ℕ)
    → p ≢ 0
    → ((q : ℕ) (cs : List ℕ) → n.access q cs ≡ true)
    → length (n.msgs p).bytes + length bs ≤ msg_buffer_size
    → ((append_body n p bs).0 ≡ nng_ok) × ((append_body n p bs).1.recv_queues ≡ n.recv_queues)
unfolding append_body
append_body_ok n p [] ne a l = (refl, refl)
append_body_ok n p (b ∷ bs) ne a l = append_ok n p (b ∷ bs) ne (a p (b ∷ bs)) l

queue_copy_ok :
    (i p : ℕ) (out : ℤ × Nng)
    → out.0 ≡ nng_ok
    → (queue_at out.1 i).count < max_queued_msgs
    → (queue_copy i p out).0 ≡ nng_ok
unfolding queue_copy enqueue_incoming
queue_copy_ok i p out e l =
    let space : leb max_queued_msgs (queue_at out.1 i).count ≡ false = ground (arith, l) in
    rw (e, space) refl

fill_copy_ok :
    (n : Nng) (i msg : ℕ) (out : ℤ × ℕ × Nng)
    → MsgAlloc n 0 out
    → IsHeld n.heap msg
    → IsRoom n i msg
    → out.0 ≡ nng_ok
    → (fill_copy i msg out).0 ≡ nng_ok
unfolding fill_copy
fill_copy_ok n i msg out (no_msg rv h bad) held r e =
    absurd (let z : true ≡ false = sym (ap is_ok e) ∙ bad in cc)
fill_copy_ok n i msg out (new_msg p fresh h slots empty _ _ nonnull new) held r e =
    let n1 : Nng = record n { heap = h; msgs = write_msg n.msgs p fresh; msg_slots = slots } in
    let same : (n1.msgs msg).bytes ≡ (n.msgs msg).bytes =
      ap (λ m. m.bytes) (write_msg_ne n.msgs p msg fresh (new msg held)) in
    let none : (n1.msgs p).bytes ≡ [] = ap (λ m. m.bytes) (write_msg_self n.msgs p fresh) ∙ empty in
    let (ok, queues) =
      append_body_ok n1 p (n1.msgs msg).bytes nonnull r.access
        (omega (arith, ap length none, ap length same, r.short)) in
    queue_copy_ok i p (append_body n1 p (n1.msgs msg).bytes) ok
      (subst (λ qs. (get_or qs i empty_queue).count < max_queued_msgs) (sym queues) r.queue_open)

pub deliver_copy_ok :
    (n : Nng) (i msg : ℕ)
    → IsPlaced n.heap
    → IsHeld n.heap msg
    → IsRoom n i msg
    → (deliver_copy n i msg).0 ≡ nng_ok
unfolding deliver_copy
deliver_copy_ok n i msg p held r =
    fill_copy_ok n i msg (nng_msg_alloc n 0) (nng_msg_alloc-MsgAlloc n 0 p) held r r.allocates
