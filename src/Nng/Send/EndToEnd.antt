-- ===== src/Nng/Send/EndToEnd.antt =====
-- kernel/nngcompat.c: a send on a socket and the receive at its peer.
use lugh_os.Base.{
  ℕ, suc, ◌<◌, ltb, if◌then◌else◌, ℤ, pos, negsuc, is_ok, true, false, ◌&&◌, List, [], ◌∷◌, length,
  get_or, set, none, some, ◌≡◌, ◌≢◌, refl, sym, ap, ap₂, subst, ◌∙◌, arith, ==_ne, length-set,
}
use lugh_os.Ipc.{Socket}
use lugh_os.Memory.Blocks.Placed.{IsPlaced}
use lugh_os.Nng.{
  Nng, pair1, queue_at, no_socket, max_sockets, max_queued_msgs, socket_at, socket_valid, is_id,
  speaks, nng_ok,
}
use lugh_os.Nng.Messages.{nng_msg_free}
use lugh_os.Nng.Sockets.{nng_recv}
use lugh_os.Nng.Sockets.Fifo.{IsQueue, waiting, enqueued, enqueued-IsQueue, waiting-enqueued}
use lugh_os.Nng.Sockets.Receive.{set-IsQueueStep, Received, nothing, oldest, nng_recv-Received}
use lugh_os.Nng.Send.{collect_peers, deliver_copy, send_pair, route, nng_send}
use lugh_os.Nng.Messages.Alloc.{IsHeld}
use lugh_os.Nng.Send.Success.{IsRoom, deliver_copy_ok}
use lugh_os.Nng.Send.Delivery.{Delivered, dropped, queued, deliver_copy-Delivered, freed}

is_id-pos : (x : ℤ) (i : ℕ) → is_id x i ≡ true → x ≡ pos i
is_id-pos (pos k) i h = ap pos (ground (arith, h))
is_id-pos (negsuc k) i h = absurd (let z : false ≡ true = h in cc)

route_pair :
    (n : Nng) (id msg : ℕ)
    → speaks (socket_at n id) pair1 ≡ true
    → route n id msg ≡ send_pair n id msg
unfolding route
route_pair n id msg h = let e = is_id-pos (socket_at n id).protocol 1 h in rw e refl

-- A PAIR socket `s`, whose first peer is the socket `d` with an empty queue, and a message that the
-- allocator has given out.
pub record IsPair (n : Nng) (s d : Socket) (id j msg : ℕ) : Type 0 where
  pub sender : socket_valid n s.id ≡ some id
  pub pair : speaks (socket_at n id) pair1 ≡ true
  pub peers : (rest : List ℕ) × (collect_peers n id pair1 ≡ j ∷ rest)
  pub receiver : socket_valid n d.id ≡ some j
  pub queue_known : j < length n.recv_queues
  pub queue : IsQueue (queue_at n j)
  pub empty : (queue_at n j).count ≡ 0
  pub heap : IsPlaced n.heap
  pub held : IsHeld n.heap msg
  pub nonnull : msg ≢ 0

pair_sent :
    (n : Nng) (s d : Socket) (id j msg : ℕ)
    → IsPair n s d id j msg
    → nng_send n s msg ≡ ((deliver_copy n j msg).0, (nng_msg_free (deliver_copy n j msg).1 msg).1)
unfolding nng_send send_pair
pair_sent n s d id j msg v =
    let (rest, peers) = v.peers in
    rw (==_ne msg 0 v.nonnull) (
      rw (v.sender, nng_send)
        (let routed : route n id msg ≡ deliver_copy n j msg =
            route_pair n id msg v.pair
            ∙ rw (peers, ==_ne (suc (length rest)) 0 (λ e. omega (arith, e))) refl in
          rw routed refl))

valid_same :
    (n m : Nng) (x : ℤ) → m.socket_pool ≡ n.socket_pool → socket_valid m x ≡ socket_valid n x
unfolding socket_valid
valid_same n m (pos i) e =
    ap (λ pool. if ltb i max_sockets && is_id (get_or pool i no_socket).id i then some i else none)
      e
valid_same n m (negsuc i) e = refl

head_or : List ℕ → ℕ
head_or [] = 0
head_or (x ∷ xs) = x

-- A receive where one message waits gives that one.
the_one :
    (n : Nng) (j p : ℕ) (out : ℤ × ℕ × Nng)
    → Received n j out
    → waiting (queue_at n j) ≡ p ∷ []
    → (out.0 ≡ nng_ok) × (out.1 ≡ p) × (out.2.msgs ≡ n.msgs)
unfolding head_or
the_one n j p out (nothing n' w k ms) one = absurd (let z : [] ≡ p ∷ [] = sym w ∙ one in cc)
the_one n j p out (oldest x rest n' w _ _ _ k) one = (refl, ap head_or (sym w ∙ one), k)

-- The peer receives a message with the bytes sent.
pub record Arrives (n : Nng) (msg : ℕ) (out : ℤ × ℕ × Nng) : Type 0 where
  pub received : out.0 ≡ nng_ok
  pub same : (out.2.msgs out.1).bytes ≡ (n.msgs msg).bytes

arrives :
    (n n' nf : Nng) (s d : Socket) (id j msg p : ℕ)
    → IsPair n s d id j msg
    → (n'.msgs p).bytes ≡ (n.msgs msg).bytes
    → nf.recv_queues ≡ set n.recv_queues j (enqueued (queue_at n j) p)
    → nf.socket_pool ≡ n.socket_pool
    → nf.msgs ≡ n'.msgs
    → Arrives n msg (nng_recv nf d)
arrives n n' nf s d id j msg p v b rq sp ms =
    let q = queue_at n j in
    let step = set-IsQueueStep n nf j (enqueued q p) v.queue_known rq in
    let few : q.count < max_queued_msgs = omega (arith, v.empty) in
    let one : waiting (queue_at nf j) ≡ p ∷ [] =
      ap waiting step.this ∙ waiting-enqueued q p v.queue few ∙ rw v.empty refl in
    let there =
      nng_recv-Received nf d j (valid_same n nf d.id sp ∙ v.receiver)
        (omega (arith, ap length rq, length-set n.recv_queues j (enqueued q p), v.queue_known))
        (subst IsQueue (sym step.this) (enqueued-IsQueue q p v.queue few)) in
    let (ok, which, kept) = the_one nf j p (nng_recv nf d) there one in
    record {
      received = ok;
      same = ap₂ (λ m x. (m x).bytes) kept which ∙ ap (λ m. (m p).bytes) ms ∙ b;
    }

pair_delivered :
    (n : Nng) (s d : Socket) (id j msg : ℕ) (out : ℤ × Nng)
    → IsPair n s d id j msg
    → Delivered n j msg out
    → out.0 ≡ nng_ok
    → Arrives n msg (nng_recv (nng_msg_free out.1 msg).1 d)
pair_delivered n s d id j msg out v (dropped rv n' bad _ _) ok =
    absurd (let z : true ≡ false = sym (ap is_ok ok) ∙ bad in cc)
pair_delivered n s d id j msg out v (queued p n' b o l rq sp) ok =
    let (h, slots, e) = freed n' msg in
    subst (λ m. Arrives n msg (nng_recv m d)) (sym e)
      (arrives n n' (record n' { heap = h; msg_slots = slots }) s d id j msg p v b rq sp refl)

-- A send on a PAIR socket, where a message can be allocated, the access checks pass and the body
-- is of at most 64 bytes, the block that the copy gets, succeeds, and the receive at its peer, whose queue was empty, gives a message with the
-- bytes sent.
pub nng_recv-nng_send :
    (n : Nng) (s d : Socket) (id j msg : ℕ)
    → IsPair n s d id j msg
    → IsRoom n j msg
    → ((nng_send n s msg).0 ≡ nng_ok) × Arrives n msg (nng_recv (nng_send n s msg).1 d)
nng_recv-nng_send n s d id j msg v r =
    let e = pair_sent n s d id j msg v in
    let ok = deliver_copy_ok n j msg v.heap v.held r in
    (
      ap (λ x. x.0) e ∙ ok,
      subst (λ m. Arrives n msg (nng_recv m d)) (sym (ap (λ x. x.1) e))
          (pair_delivered n s d id j msg (deliver_copy n j msg) v
            (deliver_copy-Delivered n j msg v.heap v.held v.queue r.short) ok),
    )
