-- ===== src/Checkpoints.antt =====
-- services/storage/transactions.c: buffers registered under a key, and checkpoints that copy them.
pub mod Acquire
pub mod Bytes
pub mod RoundTrip
mod Tests
use lugh_os.Base.{
  ℕ, zero, suc, ◌+◌, ◌-◌, leb, ltb, ◌==◌, if◌then◌else◌, ℤ, pos, neg, Bool, true, false, not, ◌||◌,
  ◌&&◌, List, [], ◌∷◌, ◌++◌, get_or, set, length, take, drop, replicate, Option, none, some,
}
use lugh_os.Base.Search.{first_where}
use lugh_os.TxnLog.{TxnEntry, log_transaction}
use lugh_os.Task.{op_write, op_delete}
use lugh_os.Security.{Regions}
use lugh_os.Security.Copies.{may_copy}
use lugh_os.Workflow.{Kernel, generate_transaction_id}

abbrev pub max_checkpoints : ℕ
max_checkpoints = 16

abbrev pub checkpoint_size : ℕ
checkpoint_size = 4096

-- `registered_buffer_t`: `data_ptr` is the address of the caller's region, in its field `data`.
pub record RegisteredBuffer : Type 0 where
  pub key : List ℕ
  pub data_ptr : ℕ
  pub size : ℕ
  pub in_use : Bool

-- `checkpoint_slot_t`: `data_bytes` is its field `data`.
pub record CheckpointSlot : Type 0 where
  pub key : List ℕ
  pub data_bytes : List ℕ
  pub size : ℕ
  pub in_use : Bool

-- The memory of the machine, byte by byte, the two static tables, the address of the data of each
-- checkpoint slot, and the protected regions of kernel/security.c, which `memcpy` asks. The data of
-- the slots stand in the table and not in `bytes`: a registered buffer is taken to lie outside it.
pub record Store : Type 0 where
  pub bytes : ℕ → ℕ
  pub slot_data : ℕ → ℕ
  pub regions : Regions
  pub registered_buffers : List RegisteredBuffer
  pub checkpoint_slots : List CheckpointSlot

abbrev pub empty_buffer : RegisteredBuffer
empty_buffer = record { key = []; data_ptr = 0; size = 0; in_use = false }

abbrev pub empty_slot : CheckpointSlot
empty_slot = record { key = []; data_bytes = []; size = 0; in_use = false }

-- Two strings, without their terminators, compared over at most `n` bytes.
pub key_equal : ℕ → List ℕ → List ℕ → Bool
key_equal zero a b = true
key_equal (suc n) [] [] = true
key_equal (suc n) [] (y ∷ b) = false
key_equal (suc n) (x ∷ a) [] = false
key_equal (suc n) (x ∷ a) (y ∷ b) = let rest = key_equal n a b in if x == y then rest else false

abbrev pub buffer_matches : List ℕ → RegisteredBuffer → Bool
buffer_matches key b = b.in_use && key_equal 64 b.key key

abbrev pub slot_matches : List ℕ → CheckpointSlot → Bool
slot_matches key s = s.in_use && key_equal 64 s.key key

abbrev pub find_registered : Store → List ℕ → Option ℕ
find_registered s key = first_where (buffer_matches key) s.registered_buffers

abbrev pub find_slot : Store → List ℕ → Option ℕ
find_slot s key = first_where (slot_matches key) s.checkpoint_slots

abbrev pub is_free_buffer : RegisteredBuffer → Bool
is_free_buffer b = not b.in_use

abbrev pub is_free_slot : CheckpointSlot → Bool
is_free_slot s = not s.in_use

-- A key not registered yet takes the first free entry.
unfoldable pub register_new : Store → List ℕ → ℕ → ℕ → ℤ × Store
register_new s key ptr size = elim (first_where is_free_buffer s.registered_buffers) [
  | none ↦ (neg 1, s)
  | some i ↦ (
    pos 0,
    record s {
      registered_buffers =
          set s.registered_buffers i
            (record { key = key; data_ptr = ptr; size = size; in_use = true });
    },
  )
]

-- An address of 0 is NULL.
unfoldable pub storage_register_buffer : Store → Option (List ℕ) → ℕ → ℕ → ℤ × Store
storage_register_buffer s none ptr size = (neg 1, s)
storage_register_buffer s (some key) ptr size =
    if ptr == 0 || size == 0 || ltb checkpoint_size size
    then (neg 1, s)
    else if leb 64 (length key)
    then (neg 1, s)
    else elim (find_registered s key) [
      | none ↦ register_new s key ptr size
      | some i ↦ (
        pos 0,
        record s {
          registered_buffers =
              set s.registered_buffers i (record (get_or s.registered_buffers i empty_buffer) {
                data_ptr = ptr;
                size = size;
              });
        },
      )
    ]

-- The slot of this key, or the first free one claimed for it, and the store after.
unfoldable pub acquire_slot : Store → List ℕ → Option ℕ × Store
acquire_slot s key = elim (find_slot s key) [
  | some i ↦ (some i, s)
  | none ↦ elim (first_where is_free_slot s.checkpoint_slots) [
    | none ↦ (none, s)
    | some i ↦ if leb 64 (length key) then (none, s) else (
      some i,
      record s {
        checkpoint_slots =
            set s.checkpoint_slots i
              (record (get_or s.checkpoint_slots i empty_slot) { key = key; in_use = true });
      },
    )
  ]
]

-- The `n` bytes from an address on.
abbrev pub read_bytes : (ℕ → ℕ) → ℕ → ℕ → List ℕ
read_bytes m a zero = []
read_bytes m a (suc n) = m a ∷ read_bytes m (a + 1) n

-- The bytes of a `memcpy` to an address, once it is allowed.
abbrev pub write_bytes : (ℕ → ℕ) → ℕ → List ℕ → ℕ → ℕ
write_bytes m a bs x = if leb a x && ltb x (a + length bs) then get_or bs (x - a) 0 else m x

abbrev pub emit_txn : Kernel Store → ℕ → ℕ → List ℕ → List ℕ → Kernel Store
emit_txn k id op src dst =
    let e : TxnEntry = record {
      txn_id = id;
      task_id = 0;
      operation = op;
      key = take 63 src;
      value = take 255 dst;
      checksum = 0;
    } in
    let logged = log_transaction k.auditor k.log k.current (some e) in
    record k { log = logged.log; auditor = logged.auditor }

-- The entry logged at the end of an operation; `none` is a halted CPU.
unfoldable pub log_and_return : Kernel Store → ℕ → List ℕ → List ℕ → Option (ℤ × Kernel Store)
log_and_return k op src dst = elim (generate_transaction_id k) [
  | none ↦ none
  | some (id, k') ↦ some (pos 0, emit_txn k' id op src dst)
]

-- The copy of a registered buffer into a slot. The size is set even where `memcpy` refuses.
abbrev pub fill_slot : Store → ℕ → ℕ → Store
fill_slot s i j =
    let b = get_or s.registered_buffers i empty_buffer in
    let c = get_or s.checkpoint_slots j empty_slot in
    record s {
      checkpoint_slots = set s.checkpoint_slots j (record c {
        data_bytes =
            if may_copy s.regions (s.slot_data j) b.data_ptr b.size
            then read_bytes s.bytes b.data_ptr b.size ++ drop b.size c.data_bytes
            else c.data_bytes;
        size = b.size;
      });
    }

unfoldable pub create_checkpoint :
    Kernel Store → Option (List ℕ) → Option (List ℕ) → Option (ℤ × Kernel Store)
create_checkpoint k none dst = some (neg 1, k)
create_checkpoint k (some src) none = some (neg 1, k)
create_checkpoint k (some src) (some dst) = elim (find_registered k.memory src) [
  | none ↦ some (neg 1, k)
  | some i ↦
      (let (slot, s) = acquire_slot k.memory dst in
        elim slot [
          | none ↦ some (neg 1, record k { memory = s })
          | some j ↦ log_and_return (record k { memory = fill_slot s i j }) op_write src dst
        ])
]

-- The memory after the `memcpy` of a slot, whose data are at `place`, to a registered buffer.
abbrev pub copied_back : Store → ℕ → CheckpointSlot → RegisteredBuffer → ℕ → ℕ
copied_back s place c b =
    if may_copy s.regions b.data_ptr place c.size
    then write_bytes s.bytes b.data_ptr (take c.size c.data_bytes)
    else s.bytes

-- The copy of a slot back into a registered buffer, if it is not larger. The result is 0 even where
-- `memcpy` refuses.
unfoldable pub copy_back :
    Kernel Store
    → ℕ
    → CheckpointSlot
    → RegisteredBuffer
    → List ℕ
    → List ℕ
    → Option (ℤ × Kernel Store)
copy_back k place c b src dst =
    if ltb b.size c.size
    then some (neg 1, k)
    else (let s = k.memory in
        log_and_return (record k { memory = record s { bytes = copied_back s place c b } }) op_write
          src dst)

unfoldable pub restore_checkpoint :
    Kernel Store → Option (List ℕ) → Option (List ℕ) → Option (ℤ × Kernel Store)
restore_checkpoint k none dst = some (neg 1, k)
restore_checkpoint k (some src) none = some (neg 1, k)
restore_checkpoint k (some src) (some dst) = elim (find_slot k.memory src) [
  | none ↦ some (neg 1, k)
  | some j ↦ elim (find_registered k.memory dst) [
    | none ↦ some (neg 1, k)
    | some i ↦
        (let s = k.memory in
          copy_back k (s.slot_data j) (get_or s.checkpoint_slots j empty_slot)
            (get_or s.registered_buffers i empty_buffer) src dst)
  ]
]

unfoldable pub remove_checkpoint : Kernel Store → Option (List ℕ) → Option (ℤ × Kernel Store)
remove_checkpoint k none = some (neg 1, k)
remove_checkpoint k (some key) = elim (find_slot k.memory key) [
  | none ↦ some (neg 1, k)
  | some j ↦
      (let s = k.memory in
        let c = get_or s.checkpoint_slots j empty_slot in
        let s' : Store = record s {
          checkpoint_slots = set s.checkpoint_slots j (record c { in_use = false; size = 0 });
        } in
        log_and_return (record k { memory = s' }) op_delete key [])
]
