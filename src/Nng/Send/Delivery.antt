-- ===== src/Nng/Send/Delivery.antt =====
-- kernel/nngcompat.c: what becomes of a copy on its way to a queue.
use lugh_os.Base.{
  ℕ, ◌+◌, ◌<◌, ◌≤◌, arith, ltb-false, ltb, ◌==◌, if◌then◌else◌, ℤ, is_ok, Bool, false, not, List,
  [], ◌∷◌, ◌++◌, length, get_or, set, ◌≡◌, ◌≢◌, refl, sym, ap, subst, ◌∙◌, inl, inr, ◌⊎◌,
  Bool-cases, Option-cases,
}
use lugh_os.Base.Search.{first_where}
use lugh_os.Memory.Blocks.{Heap, free_memory}
use lugh_os.Memory.Blocks.Placed.{IsPlaced}
use lugh_os.Nng.{
  NngMsg, MsgSlot, Nng, free_slot, max_queued_msgs, queue_at, empty_queue, nng_ok, nng_enomem,
  nng_einval, msg_buffer_size,
}
use lugh_os.Nng.Messages.{holds, write_msg, nng_msg_alloc, nng_msg_free, nng_msg_append}
use lugh_os.Nng.Sockets.{enqueue_incoming}
use lugh_os.Nng.Sockets.Fifo.{IsQueue, enqueued}
use lugh_os.Nng.Sockets.Receive.{Enqueued, no_room, stored, enqueue_incoming-Enqueued}
use lugh_os.Nng.Messages.Alloc.{
  IsHeld, MsgAlloc, no_msg, new_msg, nng_msg_alloc-MsgAlloc, write_msg_ne, write_msg_self,
}
use lugh_os.Nng.Messages.Wire.{block_of_eight}
use lugh_os.Nng.Send.{queue_copy, append_body, fill_copy, deliver_copy}

-- An append fails and changes nothing, or lengthens the body of that message; every other message
-- stays as it is if the body fits into its block.
pub data Appended (n : Nng) (p : ℕ) (bs : List ℕ) : ℤ × Nng → Type 0 where
  kept : (rv : ℤ) → is_ok rv ≡ false → Appended n p bs (rv, n)
  grown :
      (m : NngMsg) (o : Bool) (rest : ℕ → NngMsg)
      → m.bytes ≡ (n.msgs p).bytes ++ bs
      → (length ((n.msgs p).bytes ++ bs) ≤ (n.msgs p).capacity → rest ≡ n.msgs)
      → Appended n p bs (nng_ok, record n { msgs = write_msg rest p m; overrun = o })

pub nng_msg_append-Appended :
    (n : Nng) (p : ℕ) (bs : List ℕ) → Appended n p bs (nng_msg_append n p bs)
unfolding nng_msg_append
nng_msg_append-Appended n p bs = elim (Bool-cases (p == 0)) [
  | inl e ↦ rw e (kept nng_einval refl)
  | inr e ↦ (elim (Bool-cases (n.access p bs)) [
    | inr f ↦ rw (e, f) (kept nng_einval refl)
    | inl f ↦ (elim (Bool-cases (ltb msg_buffer_size (length (n.msgs p).bytes + length bs))) [
      | inl g ↦ rw (e, f, g) (kept nng_enomem refl)
      | inr g ↦
          rw (e, f, g)
            (grown _ _ _ refl
              (λ l. rw (ltb-false (n.msgs p).capacity (length ((n.msgs p).bytes ++ bs)) l) refl))
    ])
  ])
]

-- A free changes the pool and the allocator alone.
pub freed :
    (n : Nng) (p : ℕ)
    → (h : Heap) × (slots : List MsgSlot) × ((nng_msg_free n p).1
        ≡ record n { heap = h; msg_slots = slots })
unfolding nng_msg_free
freed n p = elim (Bool-cases (p == 0)) [
  | inl e ↦ (n.heap, n.msg_slots, rw e refl)
  | inr e ↦ (elim (Option-cases (first_where (holds p) n.msg_slots)) [
    | inl f ↦ (n.heap, n.msg_slots, rw (e, f) refl)
    | inr (i, f) ↦ (
      free_memory (free_memory n.heap (get_or n.msg_slots i free_slot).buffer) p,
      set n.msg_slots i free_slot,
      rw (e, f) refl,
    )
  ])
]

-- What a delivery of the message `msg` to socket `i` comes to.
pub data Delivered (n : Nng) (i msg : ℕ) : ℤ × Nng → Type 0 where
  dropped :
      (rv : ℤ) (n' : Nng)
      → is_ok rv ≡ false
      → n'.recv_queues ≡ n.recv_queues
      → n'.socket_pool ≡ n.socket_pool
      → Delivered n i msg (rv, n')
  queued :
      (p : ℕ) (n' : Nng)
      → (n'.msgs p).bytes ≡ (n.msgs msg).bytes
      → ((x : ℕ) → p ≢ x → n'.msgs x ≡ n.msgs x)
      → (queue_at n i).count < max_queued_msgs
      → n'.recv_queues ≡ set n.recv_queues i (enqueued (queue_at n i) p)
      → n'.socket_pool ≡ n.socket_pool
      → Delivered n i msg (nng_ok, n')

freed_queues :
    (n : Nng) (p : ℕ)
    → ((nng_msg_free n p).1.recv_queues ≡ n.recv_queues)
      × ((nng_msg_free n p).1.socket_pool ≡ n.socket_pool)
freed_queues n p =
    let (h, slots, e) = freed n p in (ap (λ m. m.recv_queues) e, ap (λ m. m.socket_pool) e)

-- The bytes of a copy, which is no other message than it was made from.
append_body-Appended :
    (n : Nng) (p : ℕ) (bs : List ℕ)
    → Appended n p bs (append_body n p bs) ⊎ ((bs ≡ []) × (append_body n p bs ≡ (nng_ok, n)))
unfolding append_body
append_body-Appended n p [] = inr (refl, refl)
append_body-Appended n p (b ∷ bs) = inl (nng_msg_append-Appended n p (b ∷ bs))

queue_enqueued :
    (n n1 : Nng) (i msg p : ℕ) (out : ℤ × Nng)
    → Enqueued n1 i p out
    → n1.recv_queues ≡ n.recv_queues
    → n1.socket_pool ≡ n.socket_pool
    → (n1.msgs p).bytes ≡ (n.msgs msg).bytes
    → ((x : ℕ) → p ≢ x → n1.msgs x ≡ n.msgs x)
    → Delivered n i msg
        (if not (is_ok out.0) then (out.0, (nng_msg_free out.1 p).1) else (out.0, out.1))
queue_enqueued n n1 i msg p out (no_room at_bound) eq es b o =
    let (fq, fs) = freed_queues n1 p in
    dropped nng_enomem (nng_msg_free n1 p).1 refl (fq ∙ eq) (fs ∙ es)
queue_enqueued n n1 i msg p out (stored l) eq es b o =
    queued p _ b o (subst (λ qs. (get_or qs i empty_queue).count < max_queued_msgs) eq l)
      (ap (λ qs. set qs i (enqueued (get_or qs i empty_queue) p)) eq) es

queue_copy-Delivered :
    (n n1 : Nng) (i msg p : ℕ)
    → IsQueue (queue_at n i)
    → n1.recv_queues ≡ n.recv_queues
    → n1.socket_pool ≡ n.socket_pool
    → (n1.msgs p).bytes ≡ (n.msgs msg).bytes
    → ((x : ℕ) → p ≢ x → n1.msgs x ≡ n.msgs x)
    → Delivered n i msg (queue_copy i p (nng_ok, n1))
unfolding queue_copy
queue_copy-Delivered n n1 i msg p v eq es b o =
    queue_enqueued n n1 i msg p (enqueue_incoming n1 i p)
      (enqueue_incoming-Enqueued n1 i p
        (subst (λ qs. IsQueue (get_or qs i empty_queue)) (sym eq) v))
      eq es b o

copy_appended :
    (n n1 : Nng) (i msg p : ℕ) (bs : List ℕ) (out : ℤ × Nng)
    → Appended n1 p bs out
    → IsQueue (queue_at n i)
    → n1.recv_queues ≡ n.recv_queues
    → n1.socket_pool ≡ n.socket_pool
    → (n1.msgs p).bytes ≡ []
    → bs ≡ (n.msgs msg).bytes
    → ((x : ℕ) → p ≢ x → n1.msgs x ≡ n.msgs x)
    → length bs ≤ (n1.msgs p).capacity
    → Delivered n i msg (queue_copy i p out)
unfolding queue_copy
copy_appended n n1 i msg p bs out (kept rv bad) v eq es fresh same o l =
    let (fq, fs) = freed_queues n1 p in
    rw bad (dropped rv (nng_msg_free n1 p).1 bad (fq ∙ eq) (fs ∙ es))
copy_appended n n1 i msg p bs out (grown m flag rest body fits) v eq es fresh same o l =
    let calm = fits (omega (arith, ap (λ xs. length (xs ++ bs)) fresh, l)) in
    queue_copy-Delivered n (record n1 { msgs = write_msg rest p m; overrun = flag }) i msg p v eq es
      (ap (λ x. x.bytes) (write_msg_self rest p m) ∙ body ∙ ap (λ xs. xs ++ bs) fresh ∙ same)
      (λ x ne. write_msg_ne rest p x m ne ∙ ap (λ f. f x) calm ∙ o x ne)

copied :
    (n n1 : Nng) (i msg p : ℕ) (bs : List ℕ)
    → Appended n1 p bs (append_body n1 p bs) ⊎ ((bs ≡ []) × (append_body n1 p bs ≡ (nng_ok, n1)))
    → IsQueue (queue_at n i)
    → n1.recv_queues ≡ n.recv_queues
    → n1.socket_pool ≡ n.socket_pool
    → (n1.msgs p).bytes ≡ []
    → bs ≡ (n.msgs msg).bytes
    → ((x : ℕ) → p ≢ x → n1.msgs x ≡ n.msgs x)
    → length bs ≤ (n1.msgs p).capacity
    → Delivered n i msg (queue_copy i p (append_body n1 p bs))
copied n n1 i msg p bs (inl a) v eq es fresh same o l =
    copy_appended n n1 i msg p bs _ a v eq es fresh same o l
copied n n1 i msg p bs (inr (nothing, e)) v eq es fresh same o l =
    subst (λ out. Delivered n i msg (queue_copy i p out)) (sym e)
      (queue_copy-Delivered n n1 i msg p v eq es (fresh ∙ sym nothing ∙ same) o)

fill_copy-Delivered :
    (n : Nng) (i msg : ℕ) (out : ℤ × ℕ × Nng)
    → MsgAlloc n 0 out
    → IsHeld n.heap msg
    → IsQueue (queue_at n i)
    → length (n.msgs msg).bytes ≤ 64
    → Delivered n i msg (fill_copy i msg out)
unfolding fill_copy
fill_copy-Delivered n i msg out (no_msg rv h bad) held v l =
    rw bad (dropped rv (record n { heap = h }) bad refl refl)
fill_copy-Delivered n i msg out (new_msg p fresh h slots empty size _ nonnull new) held v l =
    let n1 = record n { heap = h; msgs = write_msg n.msgs p fresh; msg_slots = slots } in
    let ne : p ≢ msg = new msg held in
    copied n n1 i msg p (n1.msgs msg).bytes (append_body-Appended n1 p (n1.msgs msg).bytes) v refl
      refl (ap (λ m. m.bytes) (write_msg_self n.msgs p fresh) ∙ empty)
      (ap (λ m. m.bytes) (write_msg_ne n.msgs p msg fresh ne))
      (λ x d. write_msg_ne n.msgs p x fresh d)
      (omega (
        arith,
        l,
        ap (λ m. length m.bytes) (write_msg_ne n.msgs p msg fresh ne),
        ap (λ m. m.capacity) (write_msg_self n.msgs p fresh) ∙ size ∙ block_of_eight,
      ))

-- A delivery of a message of at most 64 bytes, which is what the block of the copy holds, either
-- fails, and then no queue changes, or puts behind the messages that wait at the socket a new
-- message with the bytes of the one sent; every other message stays as it is.
pub deliver_copy-Delivered :
    (n : Nng) (i msg : ℕ)
    → IsPlaced n.heap
    → IsHeld n.heap msg
    → IsQueue (queue_at n i)
    → length (n.msgs msg).bytes ≤ 64
    → Delivered n i msg (deliver_copy n i msg)
unfolding deliver_copy
deliver_copy-Delivered n i msg p held v l =
    fill_copy-Delivered n i msg (nng_msg_alloc n 0) (nng_msg_alloc-MsgAlloc n 0 p) held v l
