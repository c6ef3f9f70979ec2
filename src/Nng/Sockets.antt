-- ===== src/Nng/Sockets.antt =====
-- kernel/nngcompat.c: the life of a socket, its pipes, its topics and its queue.
pub mod Fifo
pub mod Receive
use lugh_os.Base.{
  ℕ, zero, suc, ◌+◌, ◌-◌, ◌%◌, ◌^◌, ltb, leb, ◌==◌, if◌then◌else◌, ℤ, pos, negsuc, neg, Bool, true,
  false, not, ◌&&◌, ◌||◌, List, [], ◌∷◌, length, get_or, set, replicate, take, drop, Option, none,
  some, bit_and,
}
use lugh_os.Base.Search.{first_where}
use lugh_os.Ipc.{Socket}
use lugh_os.Nng.{
  MsgSlot, IncomingQueue, SocketState, Pipe, Nng, close_sockets, drop_pipes, sub0, surveyor0,
  empty_queue, no_state, max_queued_msgs, max_topic_len, max_subs, queue_at, state_at, socket_at,
  with_queue, with_state, speaks, socket_valid, nng_ok, nng_enomem, nng_einval, nng_etimedout,
  nng_enoent,
}
use lugh_os.Memory.Blocks.{Heap, free_memory}
use lugh_os.Nng.Messages.{nng_msg_free, plain_copy}

abbrev pub is_unused : Socket → Bool
is_unused s = elim s.id [ pos i ↦ false | negsuc i ↦ true ]

-- The result, `*sock` and the state.
unfoldable pub nng_socket_create : Nng → Socket → ℤ → ℤ × Socket × Nng
nng_socket_create n sock protocol = elim (first_where is_unused n.socket_pool) [
  | none ↦ (nng_enomem, sock, n)
  | some i ↦
      (let s : Socket = record { id = pos i; protocol = protocol; flags = 0 } in
        (
          nng_ok,
          s,
          record n {
            socket_pool = set n.socket_pool i s;
            sock_state = set n.sock_state i (record (state_at n i) {
              rr_idx = 0;
              reply_src = none;
              respondent_src = none;
              survey_active = false;
              num_topics = 0;
            });
          },
        ))
]

-- Every message in the queue's array is freed.
pub free_all : Nng → List ℕ → Nng
free_all n [] = n
free_all n (m ∷ ms) = free_all (if m == 0 then n else (nng_msg_free n m).1) ms

abbrev pub touches : ℕ → Pipe → Bool
touches i p = p.in_use && (p.src == i || p.dst == i)

pub cut_pipes : ℕ → List Pipe → List Pipe
cut_pipes i [] = []
cut_pipes i (p ∷ ps) = (if touches i p then record p { in_use = false } else p) ∷ cut_pipes i ps

-- The result, `*sock` and the state.
unfoldable pub nng_socket_close : Nng → Socket → ℤ × Socket × Nng
nng_socket_close n sock = elim (socket_valid n sock.id) [
  | none ↦ (nng_einval, sock, n)
  | some i ↦
      (let n' = free_all n (queue_at n i).messages in
        (
          nng_ok,
          record sock { id = neg 1 },
          record n' {
            recv_queues = set n'.recv_queues i empty_queue;
            pipes = cut_pipes i n'.pipes;
            socket_pool = set n'.socket_pool i (record (socket_at n' i) { id = neg 1 });
          },
        ))
]

-- What the used slots hold is given back to the allocator.
pub free_slots : Heap → List MsgSlot → Heap
free_slots h [] = h
free_slots h (s ∷ ss) =
    let h1 = if s.buffer == 0 then h else free_memory h s.buffer in
    let h2 = if s.msg == 0 then h1 else free_memory h1 s.msg in
    free_slots (if s.in_use then h2 else h) ss

pub release_slots : List MsgSlot → List MsgSlot
release_slots [] = []
release_slots (s ∷ ss) = record s { in_use = false } ∷ release_slots ss

pub empty_queues : Nng → List IncomingQueue → Nng × List IncomingQueue
empty_queues n [] = (n, [])
empty_queues n (q ∷ qs) =
    let (n', rest) = empty_queues (free_all n q.messages) qs in
    (n', record q { messages = replicate max_queued_msgs 0 } ∷ rest)

unfoldable pub nng_shutdown : Nng → Nng
nng_shutdown n =
    let n1 = record n {
      heap = free_slots n.heap n.msg_slots;
      msg_slots = release_slots n.msg_slots;
    } in
    let (n2, queues) = empty_queues n1 n1.recv_queues in
    record n2 {
      recv_queues = queues;
      socket_pool = close_sockets n2.socket_pool;
      pipes = drop_pipes n2.pipes;
    }

abbrev pub is_unused_pipe : Pipe → Bool
is_unused_pipe p = not p.in_use

unfoldable pub nng_connect : Nng → Socket → Socket → ℤ × Nng
nng_connect n src dst = elim (socket_valid n src.id) [
  | none ↦ (nng_einval, n)
  | some s ↦ (elim (socket_valid n dst.id) [
    | none ↦ (nng_einval, n)
    | some d ↦ (elim (first_where is_unused_pipe n.pipes) [
      | none ↦ (nng_enomem, n)
      | some k ↦
          (nng_ok, record n { pipes = set n.pipes k (record { src = s; dst = d; in_use = true }) })
    ])
  ])
]

unfoldable pub enqueue_incoming : Nng → ℕ → ℕ → ℤ × Nng
enqueue_incoming n i msg =
    let q = queue_at n i in
    if leb max_queued_msgs q.count then (nng_enomem, n) else (
      nng_ok,
      with_queue n i (record {
        messages = set q.messages q.tail msg;
        head = q.head;
        tail = bit_and (suc q.tail) (max_queued_msgs - 1);
        count = suc q.count;
      }),
    )

-- The survey of a SURVEYOR ends when its deadline has passed.
abbrev pub expire : Nng → ℕ → Nng
expire n i =
    let s = state_at n i in
    if speaks (socket_at n i) surveyor0 && s.survey_active && ltb s.survey_deadline n.jiffies
    then with_state n i (record s { survey_active = false })
    else n

-- The oldest message of the queue of socket `i`.
unfoldable pub receive_at : Nng → ℕ → ℤ × ℕ × Nng
receive_at n i =
    let q = queue_at n i in
    if q.count == 0 then (nng_etimedout, 0, n) else (
      nng_ok,
      get_or q.messages q.head 0,
      with_queue n i (record {
        messages = set q.messages q.head 0;
        head = bit_and (suc q.head) (max_queued_msgs - 1);
        tail = q.tail;
        count = q.count - 1;
      }),
    )

-- The result, `*msgp` where it is written, and the state. `flags` changes nothing.
unfoldable pub nng_recv : Nng → Socket → ℤ × ℕ × Nng
nng_recv n sock = elim (socket_valid n sock.id) [
  | none ↦ (nng_einval, 0, n)
  | some i ↦ receive_at (expire n i) i
]
