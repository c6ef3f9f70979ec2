-- ===== src/Nng.antt =====
-- kernel/nngcompat.c: sockets, pipes and messages inside the kernel. A pointer is an address, 0 is
-- NULL; the structs behind message pointers are kept in a map. The code answers a NULL socket or
-- result pointer with NNG_EINVAL; those are taken as given here.
pub mod Messages
pub mod Sockets
pub mod Topics
pub mod Send
pub mod Instance
mod Tests
use lugh_os.Base.{
  ℕ, zero, suc, ◌+◌, ltb, ◌==◌, if◌then◌else◌, ℤ, pos, negsuc, neg, Bool, true, false, not, ◌&&◌,
  List, [], ◌∷◌, get_or, set, replicate, Option, none, some,
}
use lugh_os.Ipc.{Socket}
use lugh_os.Memory.Blocks.{Heap}
use lugh_os.Checksum.{init_crc32_table}

abbrev pub max_messages : ℕ
max_messages = 64

abbrev pub max_sockets : ℕ
max_sockets = 16

abbrev pub max_pipes : ℕ
max_pipes = 64

abbrev pub max_queued_msgs : ℕ
max_queued_msgs = 16

abbrev pub msg_buffer_size : ℕ
msg_buffer_size = 256

abbrev pub max_subs : ℕ
max_subs = 8

abbrev pub max_topic_len : ℕ
max_topic_len = 32

abbrev pub surveyor_timeout_ticks : ℕ
surveyor_timeout_ticks = 100

abbrev pub nng_ok : ℤ
nng_ok = pos 0

abbrev pub nng_enomem : ℤ
nng_enomem = pos 1

abbrev pub nng_einval : ℤ
nng_einval = pos 2

abbrev pub nng_etimedout : ℤ
nng_etimedout = pos 4

abbrev pub nng_enotsup : ℤ
nng_enotsup = pos 5

abbrev pub nng_enoent : ℤ
nng_enoent = pos 6

-- `NNG_PROTO_*`
pub data Protocol : Type 0 where
  pair1 : Protocol
  pub0 : Protocol
  sub0 : Protocol
  req0 : Protocol
  rep0 : Protocol
  push0 : Protocol
  pull0 : Protocol
  bus0 : Protocol
  surveyor0 : Protocol
  respondent0 : Protocol

abbrev pub protocol_code : Protocol → ℕ
protocol_code pair1 = 1
protocol_code pub0 = 2
protocol_code sub0 = 3
protocol_code req0 = 4
protocol_code rep0 = 5
protocol_code push0 = 6
protocol_code pull0 = 7
protocol_code bus0 = 8
protocol_code surveyor0 = 9
protocol_code respondent0 = 10

-- `nng_msg_t`: `bytes` are the `body_len` bytes at `body`. The header is always empty. `capacity` is
-- the size of the block behind `body`, which the code does not keep.
pub record NngMsg : Type 0 where
  pub body : ℕ
  pub bytes : List ℕ
  pub flags : ℕ
  pub checksum : ℕ
  pub capacity : ℕ

-- `msg_slot_t`
pub record MsgSlot : Type 0 where
  pub msg : ℕ
  pub buffer : ℕ
  pub in_use : Bool

-- `incoming_queue_t`
pub record IncomingQueue : Type 0 where
  pub messages : List ℕ
  pub head : ℕ
  pub tail : ℕ
  pub count : ℕ

-- `socket_state_t`; `none` is -1. The cursor never falls below 0.
pub record SocketState : Type 0 where
  pub rr_idx : ℕ
  pub reply_src : Option ℕ
  pub respondent_src : Option ℕ
  pub survey_deadline : ℕ
  pub survey_active : Bool
  pub topics : List (List ℕ)
  pub topic_len : List ℕ
  pub num_topics : ℕ

-- `pipe_t`; both ends are ids of sockets.
pub record Pipe : Type 0 where
  pub src : ℕ
  pub dst : ℕ
  pub in_use : Bool

-- The statics of nngcompat.c and what it uses of the kernel: the block allocator, the ticks, and
-- the verdict of the access checks on a message and on the bytes to append. `overrun` turns true
-- when bytes are written behind the end of a block; the block behind it may belong to any other
-- message, so what the others hold then is not known, and is `after_overrun`.
pub record Nng : Type 0 where
  pub crc32_table : List ℕ
  pub msg_slots : List MsgSlot
  pub recv_queues : List IncomingQueue
  pub sock_state : List SocketState
  pub socket_pool : List Socket
  pub pipes : List Pipe
  pub msgs : ℕ → NngMsg
  pub heap : Heap
  pub jiffies : ℕ
  pub access : ℕ → List ℕ → Bool
  pub overrun : Bool
  pub after_overrun : ℕ → NngMsg

abbrev pub free_slot : MsgSlot
free_slot = record { msg = 0; buffer = 0; in_use = false }

abbrev pub empty_queue : IncomingQueue
empty_queue = record { messages = replicate max_queued_msgs 0; head = 0; tail = 0; count = 0 }

abbrev pub no_state : SocketState
no_state = record {
  rr_idx = 0;
  reply_src = none;
  respondent_src = none;
  survey_deadline = 0;
  survey_active = false;
  topics = replicate max_subs (replicate max_topic_len 0);
  topic_len = replicate max_subs 0;
  num_topics = 0;
}

abbrev pub no_socket : Socket
no_socket = record { id = neg 1; protocol = pos 0; flags = 0 }

abbrev pub no_pipe : Pipe
no_pipe = record { src = 0; dst = 0; in_use = false }

abbrev pub queue_at : Nng → ℕ → IncomingQueue
queue_at n i = get_or n.recv_queues i empty_queue

abbrev pub state_at : Nng → ℕ → SocketState
state_at n i = get_or n.sock_state i no_state

abbrev pub socket_at : Nng → ℕ → Socket
socket_at n i = get_or n.socket_pool i no_socket

abbrev pub with_queue : Nng → ℕ → IncomingQueue → Nng
with_queue n i q = record n { recv_queues = set n.recv_queues i q }

abbrev pub with_state : Nng → ℕ → SocketState → Nng
with_state n i s = record n { sock_state = set n.sock_state i s }

-- `x == (int)i`
abbrev pub is_id : ℤ → ℕ → Bool
is_id (pos k) i = k == i
is_id (negsuc k) i = false

abbrev pub speaks : Socket → Protocol → Bool
speaks s p = is_id s.protocol (protocol_code p)

abbrev pub is_socket : Nng → ℕ → Bool
is_socket n i = ltb i max_sockets && is_id (socket_at n i).id i

-- The id that `socket_valid` accepts.
unfoldable pub socket_valid : Nng → ℤ → Option ℕ
socket_valid n (pos i) = if is_socket n i then some i else none
socket_valid n (negsuc i) = none

abbrev reset_state : SocketState → SocketState
reset_state s = record s {
  rr_idx = 0;
  reply_src = none;
  respondent_src = none;
  survey_active = false;
  num_topics = 0;
}

abbrev reset_states : List SocketState → List SocketState
reset_states [] = []
reset_states (s ∷ ss) = reset_state s ∷ reset_states ss

abbrev pub close_sockets : List Socket → List Socket
close_sockets [] = []
close_sockets (s ∷ ss) = record s { id = neg 1 } ∷ close_sockets ss

abbrev pub drop_pipes : List Pipe → List Pipe
drop_pipes [] = []
drop_pipes (p ∷ ps) = record p { in_use = false } ∷ drop_pipes ps

unfoldable pub nng_init : Nng → Nng
nng_init n = record n {
  crc32_table = init_crc32_table;
  msg_slots = replicate max_messages free_slot;
  recv_queues = replicate max_sockets empty_queue;
  sock_state = reset_states n.sock_state;
  socket_pool = close_sockets n.socket_pool;
  pipes = drop_pipes n.pipes;
}
