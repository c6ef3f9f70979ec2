-- ===== src/Nng/Messages.antt =====
-- kernel/nngcompat.c: the pool of messages and their conversion from and to `message_t`.
pub mod Alloc
pub mod Strings
pub mod Wire
pub mod RoundTrip
use lugh_os.Base.{
  ℕ, zero, suc, ◌+◌, ◌-◌, ◌*◌, ◌/◌, ◌%◌, ◌^◌, ltb, leb, ◌==◌, if◌then◌else◌, ℤ, is_ok, Bool, true,
  false, not, ◌&&◌, ◌||◌, List, [], ◌∷◌, ◌++◌, length, get_or, set, take, drop, Option, none, some,
}
use lugh_os.Base.Search.{first_where}
use lugh_os.Messages.{Message, max_msg_size}
use lugh_os.Memory.Blocks.{Heap, alloc_memory, free_memory, find_size_class, block_sizes}
use lugh_os.Checksum.{calculate_checksum}
use lugh_os.Nng.{NngMsg, MsgSlot, Nng, free_slot, msg_buffer_size, nng_ok, nng_enomem, nng_einval}

-- `sizeof(nng_msg_t)` with pointers of 32 bits.
abbrev pub nng_msg_size : ℕ
nng_msg_size = 24

abbrev pub is_free_slot : MsgSlot → Bool
is_free_slot s = not s.in_use

abbrev pub holds : ℕ → MsgSlot → Bool
holds msg s = s.in_use && s.msg == msg

-- `*p = m` for the struct at a message pointer.
abbrev pub write_msg : (ℕ → NngMsg) → ℕ → NngMsg → ℕ → NngMsg
write_msg msgs p m x = if x == p then m else msgs x

-- The size of the block that the allocator gives for a request.
abbrev pub block_size : ℕ → ℕ
block_size size = elim (find_size_class size) [ none ↦ 0 | some c ↦ get_or block_sizes c 0 ]

abbrev pub buffer_request : ℕ → ℕ
buffer_request size = if ltb 0 size then size else 8

-- The struct and the buffer of a message, for the slot found.
unfoldable pub alloc_into : Nng → ℕ → ℕ → ℤ × ℕ × Nng
alloc_into n size slot =
    let (msg, h) = alloc_memory n.heap nng_msg_size in
    let (buf, h') = alloc_memory h (buffer_request size) in
    let fresh : NngMsg = record {
      body = buf;
      bytes = [];
      flags = 0;
      checksum = 0;
      capacity = block_size (buffer_request size);
    } in
    if ltb msg_buffer_size size
    then (nng_einval, 0, n)
    else if msg == 0
    then (nng_enomem, 0, record n { heap = h })
    else if buf == 0
    then (nng_enomem, 0, record n { heap = free_memory h' msg })
    else (
      nng_ok,
      msg,
      record n {
        heap = h';
        msgs = write_msg n.msgs msg fresh;
        msg_slots = set n.msg_slots slot (record { msg = msg; buffer = buf; in_use = true });
      },
    )

-- The result, `*msgp` where it is written, and the state.
unfoldable pub nng_msg_alloc : Nng → ℕ → ℤ × ℕ × Nng
nng_msg_alloc n size = elim (first_where is_free_slot n.msg_slots) [
  | none ↦ (nng_enomem, 0, n)
  | some slot ↦ alloc_into n size slot
]

unfoldable pub nng_msg_free : Nng → ℕ → ℤ × Nng
nng_msg_free n msg =
    if msg == 0 then (nng_einval, n) else elim (first_where (holds msg) n.msg_slots) [
      | none ↦ (nng_einval, n)
      | some i ↦ (
        nng_ok,
        record n {
          heap = free_memory (free_memory n.heap (get_or n.msg_slots i free_slot).buffer) msg;
          msg_slots = set n.msg_slots i free_slot;
        },
      )
    ]

-- The other messages once `body` is written to the block of `msg`.
abbrev pub others : Nng → ℕ → List ℕ → ℕ → NngMsg
others n msg body = if ltb (n.msgs msg).capacity (length body) then n.after_overrun else n.msgs

-- `bytes` stand for `data` and `size`. The table's checksum covers the whole body.
unfoldable pub nng_msg_append : Nng → ℕ → List ℕ → ℤ × Nng
nng_msg_append n msg bytes =
    let m = n.msgs msg in
    if msg == 0
    then (nng_einval, n)
    else if not (n.access msg bytes)
    then (nng_einval, n)
    else if ltb msg_buffer_size (length m.bytes + length bytes)
    then (nng_enomem, n)
    else (let body = m.bytes ++ bytes in
        let m' : NngMsg = record m {
          bytes = body;
          checksum = calculate_checksum n.crc32_table (n.access msg body) body;
        } in
        (
          nng_ok,
          record n {
            msgs = write_msg (others n msg body) msg m';
            overrun = n.overrun || ltb m.capacity (length body);
          },
        ))

-- `strlen` of a payload in its array.
unfoldable pub string_length : List ℕ → ℕ
string_length [] = 0
string_length (b ∷ bs) = let rest = string_length bs in if b == 0 then 0 else suc rest

-- The four bytes of a word, the lowest first.
abbrev pub word_bytes : ℕ → List ℕ
word_bytes x = x % 2 ^ 8 ∷ x / 2 ^ 8 % 2 ^ 8 ∷ x / 2 ^ 16 % 2 ^ 8 ∷ x / 2 ^ 24 % 2 ^ 8 ∷ []

abbrev pub word_at : List ℕ → ℕ → ℕ
word_at bs i =
    get_or bs i 0
    + get_or bs (1 + i) 0 * 2 ^ 8
    + get_or bs (2 + i) 0 * 2 ^ 16
    + get_or bs (3 + i) 0 * 2 ^ 24

-- The appends in turn; the first that fails ends them.
pub append_all : Nng → ℕ → List (List ℕ) → ℤ × Nng
append_all n msg [] = (nng_ok, n)
append_all n msg (bs ∷ rest) =
    let (rv, n') = nng_msg_append n msg bs in
    let (rv', n'') = append_all n' msg rest in if is_ok rv then (rv', n'') else (rv, n')

abbrev pub wire_parts : Message → List (List ℕ)
wire_parts m =
    (m.priority % 2 ^ 8 ∷ [])
    ∷ word_bytes m.operation
    ∷ take (suc (string_length m.payload)) m.payload
    ∷ []

-- What `lugh_message_to_nng` does with the result of its allocation.
pub pack_into : Message → ℤ × ℕ × Nng → ℤ × ℕ × Nng
pack_into m (rv, msg, n) =
    let (rv', n') = append_all n msg (wire_parts m) in
    if not (is_ok rv)
    then (rv, msg, n)
    else if not (is_ok rv')
    then (rv', msg, (nng_msg_free n' msg).1)
    else (nng_ok, msg, n')

unfoldable pub lugh_message_to_nng : Nng → Message → ℤ × ℕ × Nng
lugh_message_to_nng n m = pack_into m (nng_msg_alloc n 0)

-- `plain_copy` over the front of an array.
unfoldable pub plain_copy : List ℕ → List ℕ → List ℕ
plain_copy [] old = old
plain_copy (b ∷ bs) [] = []
plain_copy (b ∷ bs) (x ∷ old) = b ∷ plain_copy bs old

abbrev pub clamp_payload : ℕ → ℕ
clamp_payload n = if leb max_msg_size n then max_msg_size - 1 else n

unfoldable pub nng_message_to_lugh : Nng → ℕ → Message → ℤ × Message
nng_message_to_lugh n msg m =
    let b = (n.msgs msg).bytes in
    if msg == 0 || (n.msgs msg).body == 0 || ltb (length b) 5
    then (nng_einval, m)
    else (let plen = clamp_payload (length b - 5) in
        (
          nng_ok,
          record m {
            priority = get_or b 0 0;
            operation = word_at b 1;
            payload = set (plain_copy (take plen (drop 5 b)) m.payload) plen 0;
          },
        ))
