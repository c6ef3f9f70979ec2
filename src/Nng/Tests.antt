-- ===== src/Nng/Tests.antt =====
-- Runs of kernel/nngcompat.c: two PAIR sockets with a pipe between them.
use lugh_os.Base.{ℕ, ◌≤◌, pos, neg, true, false, [], ◌∷◌, ◌≡◌, refl, arith, replicate, none, some}
use lugh_os.Messages.{Message, blank}
use lugh_os.Memory.Blocks.{
  Heap, memory_init, init_rows, init_row, find_size_class, alloc_in, alloc_memory,
}
use lugh_os.Memory.Blocks.Placed.{IsPlaced, memory_init_lem}
use lugh_os.Memory.Blocks.Boot.{fresh, fresh-IsFresh}
use lugh_os.Memory.Blocks.Runs.{alloc, run, step, run-IsPlaced}
use lugh_os.Ipc.{Socket, World, empty_channel}
use lugh_os.Ipc.Transfer.{ipc_recv, recv_on, receive, unpack}
use lugh_os.Telemetry.{auditor_boot}
use lugh_os.Tasks.{Tasks, task_init}
use lugh_os.Domains.{domain_edges_init}
use lugh_os.Checksum.{calculate_checksum, crc_loop}
use lugh_os.Nng.Instance.{payload_checksum, kernel_transport, IsVouched, ipc_recv-IsVouched}
use lugh_os.Nng.{NngMsg, Nng, free_slot, empty_queue, no_state, nng_ok, socket_valid}
use lugh_os.Nng.Messages.{
  nng_msg_free, nng_msg_alloc, alloc_into, lugh_message_to_nng, nng_message_to_lugh, string_length,
  plain_copy,
}
use lugh_os.Nng.Messages.Alloc.{IsHeld}
use lugh_os.Nng.Messages.Strings.{IsPayload}
use lugh_os.Nng.Messages.Wire.{IsPacked, lugh_message_to_nng-IsPacked}
use lugh_os.Nng.Messages.RoundTrip.{IsSent, nng_message_to_lugh-lugh_message_to_nng}
use lugh_os.Nng.Sockets.{nng_recv, receive_at}
use lugh_os.Nng.Sockets.Fifo.{IsQueue}
use lugh_os.Nng.Sockets.Receive.{Received, nng_recv-Received}
use lugh_os.Nng.Send.{collect_peers, peers_from, nng_send}
use lugh_os.Nng.Send.Success.{IsRoom}
use lugh_os.Nng.Send.EndToEnd.{IsPair, Arrives, nng_recv-nng_send}

-- The heap after the struct and the buffer of one message.
abbrev heap_used : Heap
heap_used = run (memory_init fresh) (alloc 24 ∷ alloc 8 ∷ [])

heap_used-IsPlaced : IsPlaced heap_used
heap_used-IsPlaced =
    run-IsPlaced (memory_init fresh) (alloc 24 ∷ alloc 8 ∷ [])
      (memory_init_lem fresh fresh-IsFresh).0

heap_used-IsHeld : IsHeld heap_used 0x800000
unfolding run step memory_init init_rows init_row find_size_class alloc_in alloc_memory
heap_used-IsHeld = record { place = (0, 0, ((omega arith, omega arith), refl, refl)) }

abbrev pair_socket : ℕ → Socket
pair_socket i = record { id = pos i; protocol = pos 1; flags = 0 }

abbrev greeting : NngMsg
greeting = record {
  body = 0x800040;
  bytes = 104 ∷ 105 ∷ [];
  flags = 0;
  checksum = 0;
  capacity = 64;
}

abbrev net : Nng
net = record {
  crc32_table = [];
  msg_slots = record { msg = 0x800000; buffer = 0x800040; in_use = true } ∷ free_slot ∷ [];
  recv_queues = empty_queue ∷ empty_queue ∷ [];
  sock_state = no_state ∷ no_state ∷ [];
  socket_pool = pair_socket 0 ∷ pair_socket 1 ∷ [];
  pipes = record { src = 0; dst = 1; in_use = true } ∷ [];
  msgs = λ p. greeting;
  heap = heap_used;
  jiffies = 0;
  access = λ p bs. true;
  overrun = false;
  after_overrun = λ p. greeting;
}

empty-IsQueue : IsQueue empty_queue
empty-IsQueue = record { room = refl; head_in = omega arith; bound = omega arith; tail_at = refl }

allocates : (nng_msg_alloc net 0).0 ≡ nng_ok
unfolding nng_msg_alloc alloc_into run step memory_init init_rows init_row find_size_class alloc_in
    alloc_memory
allocates = refl

net-IsPair : IsPair net (pair_socket 0) (pair_socket 1) 0 1 0x800000
unfolding socket_valid collect_peers peers_from
net-IsPair = record {
  sender = refl;
  pair = refl;
  peers = ([], refl);
  receiver = refl;
  queue_known = omega arith;
  queue = empty-IsQueue;
  empty = refl;
  heap = heap_used-IsPlaced;
  held = heap_used-IsHeld;
  nonnull = λ e. omega (arith, e);
}

net-IsRoom : IsRoom net 1 0x800000
net-IsRoom = record {
  allocates = allocates;
  access = λ p bs. refl;
  short = omega arith;
  queue_open = omega arith;
}

nng_recv-nng_send_example :
    ((nng_send net (pair_socket 0) 0x800000).0 ≡ nng_ok)
    × Arrives net 0x800000 (nng_recv (nng_send net (pair_socket 0) 0x800000).1 (pair_socket 1))
nng_recv-nng_send_example =
    nng_recv-nng_send net (pair_socket 0) (pair_socket 1) 0 1 0x800000 net-IsPair net-IsRoom

nng_recv-Received_example : Received net 1 (nng_recv net (pair_socket 1))
unfolding socket_valid
nng_recv-Received_example = nng_recv-Received net (pair_socket 1) 1 refl (omega arith) empty-IsQueue

-- "hi", operation 4.
abbrev hi : Message
hi = record blank { operation = 4; payload = 104 ∷ 105 ∷ replicate 126 0 }

hi-IsPayload : IsPayload hi.payload
unfolding string_length
hi-IsPayload = record { full_size = refl; short = omega arith }

lugh_message_to_nng-IsPacked_example : IsPacked net hi (lugh_message_to_nng net hi)
lugh_message_to_nng-IsPacked_example =
    lugh_message_to_nng-IsPacked net hi heap_used-IsPlaced allocates (λ p bs. refl) hi-IsPayload

nng_message_to_lugh-lugh_message_to_nng_example :
    IsSent hi
      (nng_message_to_lugh (lugh_message_to_nng net hi).2 (lugh_message_to_nng net hi).1 blank)
    × (string_length hi.payload ≤ 58
        → net.overrun ≡ false
        → (lugh_message_to_nng net hi).2.overrun ≡ false)
nng_message_to_lugh-lugh_message_to_nng_example =
    nng_message_to_lugh-lugh_message_to_nng net hi blank heap_used-IsPlaced allocates (λ p bs. refl)
      (omega arith) hi-IsPayload refl

-- The greeting as a packet, waiting at socket 1.
abbrev packet : NngMsg
packet = record greeting { bytes = 0 ∷ 4 ∷ 0 ∷ 0 ∷ 0 ∷ 104 ∷ 105 ∷ 0 ∷ [] }

abbrev loaded : Nng
loaded = record net {
  msgs = λ p. packet;
  recv_queues =
      empty_queue
      ∷ record { messages = 0x800000 ∷ replicate 15 0; head = 0; tail = 1; count = 1 }
      ∷ [];
}

abbrev boot : Tasks
boot = record { tasks = []; current = none; next_task_id = 1; stacks = 0x1000 }

-- One channel, over socket 1, that may receive.
abbrev world : World Nng
world = record {
  channels = record empty_channel { in_use = true; cap_mask = 2; socket = pair_socket 1 } ∷ [];
  net = loaded;
  auditor = auditor_boot;
  tasks = task_init boot;
  domains = domain_edges_init;
}

-- A buffer that already holds the checksum of the string.
abbrev prepared : Message
prepared = record blank { checksum = payload_checksum loaded hi.payload }

prepared_accepted : (ipc_recv kernel_transport world (pos 0) (some prepared) true).rv ≡ pos 0
unfolding ipc_recv recv_on receive unpack nng_recv receive_at socket_valid nng_message_to_lugh
    calculate_checksum crc_loop string_length plain_copy nng_msg_free
prepared_accepted = refl

blank_refused : (ipc_recv kernel_transport world (pos 0) (some blank) true).rv ≡ neg 6
unfolding ipc_recv recv_on receive unpack nng_recv receive_at socket_valid nng_message_to_lugh
    calculate_checksum crc_loop string_length plain_copy nng_msg_free
blank_refused = refl

ipc_recv-IsVouched_example :
    IsVouched prepared (ipc_recv kernel_transport world (pos 0) (some prepared) true)
ipc_recv-IsVouched_example = ipc_recv-IsVouched world (pos 0) prepared true prepared_accepted
