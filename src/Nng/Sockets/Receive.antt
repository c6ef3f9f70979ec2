-- ===== src/Nng/Sockets/Receive.antt =====
-- kernel/nngcompat.c: `enqueue_incoming` and `nng_recv` on the queue of a socket.
use lugh_os.Base.{
  ℕ, ◌<◌, leb, ◌==◌, if◌then◌else◌, ℤ, Bool, true, false, List, [], ◌∷◌, length, get_or, set, some,
  ◌≡◌, ◌≢◌, refl, sym, ap, subst, ◌∙◌, arith, inl, inr, Bool-cases, get_or-set_self, get_or-set_ne,
}
use lugh_os.Ipc.{Socket}
use lugh_os.Nng.{
  IncomingQueue, Nng, empty_queue, max_queued_msgs, queue_at, socket_valid, nng_ok, nng_enomem,
  nng_etimedout,
}
use lugh_os.Nng.Sockets.{expire, enqueue_incoming, receive_at, nng_recv}
use lugh_os.Nng.Sockets.Fifo.{
  IsQueue, waiting, enqueued, dequeued, dequeued-IsQueue, waiting-dequeued,
}

-- One queue changes to `q`, no other.
pub record IsQueueStep (n n' : Nng) (i : ℕ) (q : IncomingQueue) : Type 0 where
  pub this : queue_at n' i ≡ q
  pub others : (j : ℕ) → i ≢ j → queue_at n' j ≡ queue_at n j

pub set-IsQueueStep :
    (n n' : Nng) (i : ℕ) (q : IncomingQueue)
    → i < length n.recv_queues
    → n'.recv_queues ≡ set n.recv_queues i q
    → IsQueueStep n n' i q
set-IsQueueStep n n' i q l e = record {
  this = ap (λ qs. get_or qs i empty_queue) e ∙ get_or-set_self n.recv_queues i q empty_queue l;
  others = λ j ne.
      ap (λ qs. get_or qs j empty_queue) e ∙ get_or-set_ne n.recv_queues i j q empty_queue ne;
}

-- What a receive on socket `i` comes to.
pub data Received (n : Nng) (i : ℕ) : ℤ × ℕ × Nng → Type 0 where
  nothing :
      (n' : Nng)
      → waiting (queue_at n i) ≡ []
      → n'.recv_queues ≡ n.recv_queues
      → n'.msgs ≡ n.msgs
      → Received n i (nng_etimedout, 0, n')
  oldest :
      (x : ℕ) (rest : List ℕ) (n' : Nng)
      → waiting (queue_at n i) ≡ x ∷ rest
      → waiting (queue_at n' i) ≡ rest
      → IsQueue (queue_at n' i)
      → ((j : ℕ) → i ≢ j → queue_at n' j ≡ queue_at n j)
      → n'.msgs ≡ n.msgs
      → Received n i (nng_ok, x, n')

kept_if :
    (c : Bool) (n a : Nng)
    → a.recv_queues ≡ n.recv_queues
    → a.msgs ≡ n.msgs
    → ((if c then a else n).recv_queues ≡ n.recv_queues) × ((if c then a else n).msgs ≡ n.msgs)
kept_if true n a q m = (q, m)
kept_if false n a q m = (refl, refl)

-- The end of a survey changes no queue and no message.
pub expire_kept :
    (n : Nng) (i : ℕ) → ((expire n i).recv_queues ≡ n.recv_queues) × ((expire n i).msgs ≡ n.msgs)
expire_kept n i = kept_if _ n _ refl refl

no_entries : (q : IncomingQueue) → q.count ≡ 0 → waiting q ≡ []
no_entries q e = rw e refl

receive_at-Received :
    (n : Nng) (i : ℕ)
    → i < length n.recv_queues
    → IsQueue (queue_at n i)
    → Received n i (receive_at n i)
unfolding receive_at
receive_at-Received n i l v = elim (Bool-cases ((queue_at n i).count == 0)) [
  | inl e ↦ rw e (nothing n (no_entries (queue_at n i) (ground arith)) refl refl)
  | inr e ↦
      let q = queue_at n i in
      let some_left : 0 < q.count = ground arith in
      let n' : Nng = record n { recv_queues = set n.recv_queues i (dequeued q) } in
      let s = set-IsQueueStep n n' i (dequeued q) l refl in
      rw e (
        oldest (get_or q.messages q.head 0) (waiting (dequeued q)) n'
          (waiting-dequeued q v some_left) (ap waiting s.this)
          (subst IsQueue (sym s.this) (dequeued-IsQueue q v some_left)) s.others refl)
]

Received-from :
    (n m : Nng) (i : ℕ) (out : ℤ × ℕ × Nng)
    → m.recv_queues ≡ n.recv_queues
    → m.msgs ≡ n.msgs
    → Received m i out
    → Received n i out
Received-from n m i out eq em (nothing n' w k ms) =
    nothing n' (sym (ap (λ qs. waiting (get_or qs i empty_queue)) eq) ∙ w) (k ∙ eq) (ms ∙ em)
Received-from n m i out eq em (oldest x rest n' w w' v o k) =
    oldest x rest n' (sym (ap (λ qs. waiting (get_or qs i empty_queue)) eq) ∙ w) w' v
      (λ j ne. o j ne ∙ ap (λ qs. get_or qs j empty_queue) eq) (k ∙ em)

-- A receive on a valid socket gives the message that has waited longest and takes it alone from
-- the queue; with none waiting it times out. No other queue and no message changes.
pub nng_recv-Received :
    (n : Nng) (sock : Socket) (i : ℕ)
    → socket_valid n sock.id ≡ some i
    → i < length n.recv_queues
    → IsQueue (queue_at n i)
    → Received n i (nng_recv n sock)
unfolding nng_recv
nng_recv-Received n sock i valid l v =
    let (eq, em) = expire_kept n i in
    rw (valid, nng_recv)
      (Received-from n (expire n i) i (receive_at (expire n i) i) eq em (
        receive_at-Received (expire n i) i (subst (λ qs. i < length qs) (sym eq) l)
          (subst (λ qs. IsQueue (get_or qs i empty_queue)) (sym eq) v)))

-- A message is put behind those that wait, unless 16 wait already.
pub data Enqueued (n : Nng) (i msg : ℕ) : ℤ × Nng → Type 0 where
  no_room : (queue_at n i).count ≡ max_queued_msgs → Enqueued n i msg (nng_enomem, n)
  stored :
      (queue_at n i).count < max_queued_msgs
      → Enqueued n i msg
          (nng_ok, record n { recv_queues = set n.recv_queues i (enqueued (queue_at n i) msg) })

pub enqueue_incoming-Enqueued :
    (n : Nng) (i msg : ℕ) → IsQueue (queue_at n i) → Enqueued n i msg (enqueue_incoming n i msg)
unfolding enqueue_incoming
enqueue_incoming-Enqueued n i msg v = elim (Bool-cases (leb max_queued_msgs (queue_at n i).count)) [
  | inl full ↦ rw full (no_room (ground (arith, v.bound)))
  | inr space ↦ rw space (stored (ground arith))
]
