-- ===== src/Checkpoints/RoundTrip.antt =====
-- `create_checkpoint` and `restore_checkpoint` of services/storage/transactions.c, one after the
-- other.
use lugh_os.Base.{
  ℕ, ◌+◌, ◌<◌, ltb, ◌==◌, if◌then◌else◌, pos, true, false, List, ◌++◌, get_or, length,
  get_or-set_self, take, drop, some, ◌≡◌, refl, sym, ap, ap₂, ◌∙◌, arith,
}
use lugh_os.Base.Search.{first_where, first_where-lt, first_where-set, first_where-holds}
use lugh_os.Task.{op_write}
use lugh_os.Security.Copies.{may_copy}
use lugh_os.Workflow.{Kernel, generate_transaction_id}
use lugh_os.Checkpoints.{
  RegisteredBuffer, CheckpointSlot, Store, empty_buffer, empty_slot, slot_matches, buffer_matches,
  find_registered, find_slot, is_free_slot, acquire_slot, read_bytes, write_bytes, emit_txn,
  log_and_return, fill_slot, create_checkpoint, copied_back, copy_back, restore_checkpoint,
}
use lugh_os.Checkpoints.Acquire.{acquire_slot_lem}
use lugh_os.Checkpoints.Bytes.{inside, read-length, take-append, write_lem}

generate-ok :
    (k : Kernel Store)
    → k.next_txn < 0xFFFFFFFFFFFFFFFF
    → generate_transaction_id k ≡ some (k.next_txn, record k { next_txn = k.next_txn + 1 })
unfolding generate_transaction_id
generate-ok k l = let ne : (k.next_txn == 0xFFFFFFFFFFFFFFFF) ≡ false = ground arith in rw ne refl

log_and_return-ok :
    (k : Kernel Store) (op : ℕ) (src dst : List ℕ)
    → k.next_txn < 0xFFFFFFFFFFFFFFFF
    → log_and_return k op src dst
      ≡ some (pos 0, emit_txn (record k { next_txn = k.next_txn + 1 }) k.next_txn op src dst)
unfolding log_and_return
log_and_return-ok k op src dst l = rw (generate-ok k l, log_and_return) refl

create_checkpoint-ok :
    (k : Kernel Store) (src dst : List ℕ) (i j : ℕ) (t : Store)
    → find_registered k.memory src ≡ some i
    → acquire_slot k.memory dst ≡ (some j, t)
    → create_checkpoint k (some src) (some dst)
      ≡ log_and_return (record k { memory = fill_slot t i j }) op_write src dst
unfolding create_checkpoint
create_checkpoint-ok k src dst i j t e f =
    rw (e, f, create_checkpoint)
      (ap (λ x. log_and_return (record k { memory = fill_slot x i j }) op_write src dst)
        (ap (λ p. p.1) f))

restore_checkpoint-ok :
    (k : Kernel Store) (src dst : List ℕ) (i j : ℕ)
    → find_slot k.memory src ≡ some j
    → find_registered k.memory dst ≡ some i
    → restore_checkpoint k (some src) (some dst)
      ≡ copy_back k
          (k.memory.slot_data j)
          (get_or k.memory.checkpoint_slots j empty_slot)
          (get_or k.memory.registered_buffers i empty_buffer)
          src
          dst
unfolding restore_checkpoint
restore_checkpoint-ok k src dst i j e f = rw (e, f, restore_checkpoint) refl

-- The buffer that a store has registered under a key.
abbrev pub buffer_of : Store → ℕ → RegisteredBuffer
buffer_of s i = get_or s.registered_buffers i empty_buffer

-- A slot filled from a buffer: still found, and holding the buffer's bytes.
filled :
    (t : Store) (key : List ℕ) (i j : ℕ)
    → find_slot t key ≡ some j
    → may_copy t.regions (t.slot_data j) (buffer_of t i).data_ptr (buffer_of t i).size ≡ true
    → (find_slot (fill_slot t i j) key ≡ some j)
      × ((get_or (fill_slot t i j).checkpoint_slots j empty_slot).size ≡ (buffer_of t i).size)
      × (take
            (buffer_of t i).size
            (get_or (fill_slot t i j).checkpoint_slots j empty_slot).data_bytes
          ≡ read_bytes t.bytes (buffer_of t i).data_ptr (buffer_of t i).size)
filled t key i j e ok =
    let b = buffer_of t i in
    let c = get_or t.checkpoint_slots j empty_slot in
    let kept = read_bytes t.bytes b.data_ptr b.size in
    let v : CheckpointSlot = record c {
      data_bytes =
          if may_copy t.regions (t.slot_data j) b.data_ptr b.size
          then kept ++ drop b.size c.data_bytes
          else c.data_bytes;
      size = b.size;
    } in
    let here =
      get_or-set_self t.checkpoint_slots j v empty_slot
        (first_where-lt (slot_matches key) t.checkpoint_slots j e) in
    (
      first_where-set (slot_matches key) t.checkpoint_slots j v e
          (first_where-holds (slot_matches key) t.checkpoint_slots j empty_slot e),
      ap (λ x. x.size) here,
      ap (λ x. take b.size x.data_bytes) here
          ∙ ap (λ t. take b.size (if t then kept ++ drop b.size c.data_bytes else c.data_bytes)) ok
          ∙ take-append kept (drop b.size c.data_bytes) b.size
              (read-length t.bytes b.data_ptr b.size),
    )

allowed :
    (s : Store) (place : ℕ) (c : CheckpointSlot) (b : RegisteredBuffer)
    → may_copy s.regions b.data_ptr place c.size ≡ true
    → copied_back s place c b ≡ write_bytes s.bytes b.data_ptr (take c.size c.data_bytes)
allowed s place c b ok = rw ok refl

copy_back-ok :
    (k : Kernel Store) (place : ℕ) (c : CheckpointSlot) (b : RegisteredBuffer)
    (src dst kept : List ℕ)
    → k.next_txn < 0xFFFFFFFFFFFFFFFF
    → may_copy k.memory.regions b.data_ptr place b.size ≡ true
    → c.size ≡ b.size
    → take b.size c.data_bytes ≡ kept
    → (l : Kernel Store) × (copy_back k place c b src dst ≡ some (pos 0, l))
      × (l.memory.bytes ≡ write_bytes k.memory.bytes b.data_ptr kept)
unfolding copy_back
copy_back-ok k place c b src dst kept l ok e h =
    let fits : ltb b.size c.size ≡ false = ground (arith, e) in
    let s = k.memory in
    let k' : Kernel Store = record k { memory = record s { bytes = copied_back s place c b } } in
    (
      emit_txn (record k' { next_txn = k.next_txn + 1 }) k.next_txn op_write src dst,
      rw fits (log_and_return-ok k' op_write src dst l),
      allowed s place c b (ap (λ n. may_copy s.regions b.data_ptr place n) e ∙ ok)
          ∙ ap (write_bytes s.bytes b.data_ptr) (ap (λ n. take n c.data_bytes) e ∙ h),
    )

-- A store whose memory has been changed to `m`, the tables as they were.
abbrev pub with_bytes : Kernel Store → (ℕ → ℕ) → Kernel Store
with_bytes k m = let s = k.memory in record k { memory = record s { bytes = m } }

-- A restore of a slot that holds `old`'s bytes of the buffer.
restored :
    (k : Kernel Store) (src dst : List ℕ) (i j : ℕ) (old : ℕ → ℕ) (b : RegisteredBuffer)
    → find_slot k.memory dst ≡ some j
    → find_registered k.memory src ≡ some i
    → buffer_of k.memory i ≡ b
    → (get_or k.memory.checkpoint_slots j empty_slot).size ≡ b.size
    → take b.size (get_or k.memory.checkpoint_slots j empty_slot).data_bytes
      ≡ read_bytes old b.data_ptr b.size
    → k.next_txn < 0xFFFFFFFFFFFFFFFF
    → may_copy k.memory.regions b.data_ptr (k.memory.slot_data j) b.size ≡ true
    → (l : Kernel Store) × (restore_checkpoint k (some dst) (some src) ≡ some (pos 0, l))
      × ((x : ℕ) → l.memory.bytes x ≡ (if inside b x then old x else k.memory.bytes x))
restored k src dst i j old b slot reg same sized held ids ok =
    let c = get_or k.memory.checkpoint_slots j empty_slot in
    let (l, e, f) =
      copy_back-ok k (k.memory.slot_data j) c b dst src (read_bytes old b.data_ptr b.size) ids ok
        sized held in
    (
      l,
      restore_checkpoint-ok k dst src i j slot reg
          ∙ ap (λ d. copy_back k (k.memory.slot_data j) c d dst src) same
          ∙ e,
      λ x. ap (λ w. w x) f ∙ write_lem k.memory.bytes old b x,
    )

-- The access checks let a buffer be copied to every slot and back.
pub record IsCopyable (s : Store) (b : RegisteredBuffer) : Type 0 where
  pub out :
      (j : ℕ)
      → j < length s.checkpoint_slots
      → may_copy s.regions (s.slot_data j) b.data_ptr b.size ≡ true
  pub back :
      (j : ℕ)
      → j < length s.checkpoint_slots
      → may_copy s.regions b.data_ptr (s.slot_data j) b.size ≡ true

-- Take a buffer registered as `src` that the access checks let `memcpy` copy to the checkpoint slots
-- and back, a key `dst` shorter than 64 bytes, a free checkpoint slot, and two transaction ids left.
-- Then `create_checkpoint` from `src` to `dst` returns 0, and after
-- any change of the memory, `restore_checkpoint` from `dst` to `src` returns 0 with the buffer's
-- bytes as they were when the checkpoint was made and every other byte as the change left it.
pub restore_checkpoint-create_checkpoint :
    (k : Kernel Store) (src dst : List ℕ) (i free : ℕ)
    → find_registered k.memory src ≡ some i
    → first_where is_free_slot k.memory.checkpoint_slots ≡ some free
    → length dst < 64
    → k.next_txn + 1 < 0xFFFFFFFFFFFFFFFF
    → IsCopyable k.memory (buffer_of k.memory i)
    → (saved : Kernel Store) × (create_checkpoint k (some src) (some dst) ≡ some (pos 0, saved))
      × ((m : ℕ → ℕ)
          → (l : Kernel Store) × (restore_checkpoint (with_bytes saved m) (some dst) (some src)
              ≡ some (pos 0, l))
            × (let b = buffer_of k.memory i in
                (x : ℕ) → l.memory.bytes x ≡ (if inside b x then k.memory.bytes x else m x)))
restore_checkpoint-create_checkpoint k src dst i free e fr short ids copyable =
    let (j, t, f, a) = acquire_slot_lem k.memory dst free fr short in
    let k' : Kernel Store = record k { memory = fill_slot t i j } in
    let c = get_or k'.memory.checkpoint_slots j empty_slot in
    let same : buffer_of t i ≡ buffer_of k.memory i =
      ap (λ bs. get_or bs i empty_buffer) a.same_buffers in
    let may =
      ap₂ (λ g d. may_copy g (d j) (buffer_of t i).data_ptr (buffer_of t i).size) a.same_regions
        a.same_data
      ∙ ap (λ b. may_copy k.memory.regions (k.memory.slot_data j) b.data_ptr b.size) same
      ∙ copyable.out j a.within in
    let (slot, size, held) = filled t dst i j a.finds may in
    let saved = emit_txn (record k' { next_txn = k.next_txn + 1 }) k.next_txn op_write src dst in
    (
      saved,
      create_checkpoint-ok k src dst i j t e f
          ∙ log_and_return-ok k' op_write src dst (omega arith),
      λ m.
          restored (with_bytes saved m) src dst i j k.memory.bytes (buffer_of k.memory i) slot
            (ap (first_where (buffer_matches src)) a.same_buffers ∙ e) same
            (size ∙ ap (λ b. b.size) same)
            (ap (λ b. take b.size c.data_bytes) (sym same)
              ∙ held
              ∙ ap₂ (λ w b. read_bytes w b.data_ptr b.size) a.same_bytes same)
            (omega arith)
            (ap₂
                (λ g d.
                  may_copy g (buffer_of k.memory i).data_ptr (d j) (buffer_of k.memory i).size)
                a.same_regions a.same_data
              ∙ copyable.back j a.within),
    )
