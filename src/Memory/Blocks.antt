-- ===== src/Memory/Blocks.antt =====
-- kernel/mm/memory.c and include/memory.h: the block allocator, four classes of 32 blocks over the
-- kernel heap.
pub mod Layout
pub mod Placed
pub mod Marks
pub mod Alloc
pub mod Free
pub mod Runs
pub mod Boot
mod Tests
use lugh_os.Base.{
  ℕ, zero, suc, ◌+◌, ◌-◌, ◌*◌, ◌%◌, ◌^◌, ltb, leb, ◌==◌, if◌then◌else◌, Bool, true, false, not,
  ◌||◌, ◌&&◌, List, [], ◌∷◌, get_or, set, Option, none, some, replicate,
}
use lugh_os.Base.Search.{first_where}

-- `MM_HEAP_START` and `MM_HEAP_END` on x86 and ARM.
abbrev pub heap_start : ℕ
heap_start = 0x800000

abbrev pub heap_end : ℕ
heap_end = 0x900000

abbrev pub mem_block_sizes : ℕ
mem_block_sizes = 4

abbrev pub mem_blocks_per_size : ℕ
mem_blocks_per_size = 32

abbrev pub mem_max_alloc_size : ℕ
mem_max_alloc_size = 4096

abbrev pub block_sizes : List ℕ
block_sizes = 64 ∷ 256 ∷ 1024 ∷ 4096 ∷ []

-- `mem_block_t`; an address of 0 is NULL.
pub record Block : Type 0 where
  pub address : ℕ
  pub in_use : Bool
  pub size : ℕ

abbrev pub empty_block : Block
empty_block = record { address = 0; in_use = false; size = 0 }

-- The statics of memory.c, and the memory of the machine byte by byte.
pub record Heap : Type 0 where
  pub memory_blocks : List (List Block)
  pub current_heap_ptr : ℕ
  pub remaining_heap : ℕ
  pub bytes : ℕ → ℕ

abbrev pub block_at : Heap → ℕ → ℕ → Block
block_at h c i = get_or (get_or h.memory_blocks c []) i empty_block

-- The pointers after a block is taken from the heap.
abbrev pub take_block : Heap → ℕ → Heap
take_block h size = record h {
  current_heap_ptr = (h.current_heap_ptr + size) % 2 ^ 32;
  remaining_heap = h.remaining_heap - size;
}

-- One size class of `memory_init`: its blocks, the heap after, and whether it went to its end.
unfoldable pub init_row : ℕ → Heap → List Block → List Block × Heap × Bool
init_row size h [] = ([], h, true)
init_row size h (b ∷ bs) =
    let (rest, h', done) = init_row size (take_block h size) bs in
    if ltb h.remaining_heap size
    then (b ∷ bs, h, false)
    else (record { address = h.current_heap_ptr; in_use = false; size = size } ∷ rest, h', done)

-- The size classes in turn; a class that does not fit ends the initialisation.
unfoldable pub init_rows : List ℕ → Heap → List (List Block) → List (List Block) × Heap
init_rows [] h rows = (rows, h)
init_rows (size ∷ sizes) h [] = ([], h)
init_rows (size ∷ sizes) h (row ∷ rows) =
    let (row', h', done) = init_row size h row in
    let (rows', h'') = init_rows sizes h' rows in
    if done then (row' ∷ rows', h'') else (row' ∷ rows, h')

unfoldable pub memory_init : Heap → Heap
unfolding init_rows
memory_init h =
    let (rows, h') = init_rows block_sizes h h.memory_blocks in record h' { memory_blocks = rows }

unfoldable pub find_size_class : ℕ → Option ℕ
find_size_class size = first_where (leb size) block_sizes

-- `memset(ptr, 0, size)` of kernel/mm/memory_utils.c, without its access check: the blocks lie in
-- the heap, a region that kernel/security.c lets the kernel write.
abbrev pub clear : (ℕ → ℕ) → ℕ → ℕ → ℕ → ℕ
clear m ptr size x = if leb ptr x && ltb x (ptr + size) then 0 else m x

abbrev pub with_use : Heap → ℕ → ℕ → Bool → List (List Block)
with_use h c i used =
    set h.memory_blocks c
      (set (get_or h.memory_blocks c []) i (record (block_at h c i) { in_use = used }))

abbrev pub is_free_block : Block → Bool
is_free_block b = not b.in_use

-- The search of a class for a free block, which is marked and cleared.
unfoldable pub alloc_in : Heap → ℕ → ℕ × Heap
alloc_in h c = elim (first_where is_free_block (get_or h.memory_blocks c [])) [
  | none ↦ (0, h)
  | some i ↦
      (let b = block_at h c i in
        (
          b.address,
          record h { memory_blocks = with_use h c i true; bytes = clear h.bytes b.address b.size },
        ))
]

unfoldable pub alloc_memory : Heap → ℕ → ℕ × Heap
alloc_memory h size =
    if size == 0
    then (0, h)
    else if ltb mem_max_alloc_size size
    then (0, h)
    else elim (find_size_class size) [ none ↦ (0, h) | some c ↦ alloc_in h c ]

abbrev pub is_live : ℕ → Block → Bool
is_live ptr b = b.address == ptr && b.in_use

-- The class and the index of the first block in use at this address, from class `c` on.
pub find_live : ℕ → ℕ → List (List Block) → Option (ℕ × ℕ)
find_live ptr c [] = none
find_live ptr c (row ∷ rows) =
    let rest = find_live ptr (suc c) rows in
    elim (first_where (is_live ptr) row) [ none ↦ rest | some i ↦ some (c, i) ]

unfoldable pub free_memory : Heap → ℕ → Heap
unfolding find_live
free_memory h ptr =
    if ptr == 0
    then h
    else if ltb ptr heap_start || leb heap_end ptr
    then h
    else elim (find_live ptr 0 h.memory_blocks) [
      | none ↦ h
      | some (c, i) ↦ record h {
        memory_blocks = with_use h c i false;
        bytes = clear h.bytes ptr (block_at h c i).size;
      }
    ]
