-- ===== src/Memory/Blocks/Placed.antt =====
-- kernel/mm/memory.c: the table of blocks that `memory_init` leaves and the calls keep.
use lugh_os.Base.{
  ℕ, zero, suc, ◌+◌, ◌-◌, ◌*◌, ◌≤◌, ◌<◌, false, List, [], ◌∷◌, get_or, ◌≡◌, sym, subst, arith, inl,
  inr, ◌⊎◌,
}
use lugh_os.Memory.Blocks.{
  Heap, block_at, memory_init, heap_start, heap_end, block_sizes, mem_block_sizes,
  mem_blocks_per_size,
}
use lugh_os.Memory.Blocks.Layout.{IsTable, init_rows-IsLaid, prefix}

abbrev pub size_of : ℕ → ℕ
size_of c = get_or block_sizes c 0

-- The addresses that the table gives to class `c` and to its block `i`.
abbrev pub class_start : ℕ → ℕ
class_start c = heap_start + mem_blocks_per_size * prefix block_sizes c

abbrev pub address_of : ℕ → ℕ → ℕ
address_of c i = class_start c + i * size_of c

-- Block `i` of class `c` is one of the table's.
abbrev pub Index : ℕ → ℕ → Type 0
Index c i = (c < mem_block_sizes) × (i < mem_blocks_per_size)

pub record IsPlaced (h : Heap) : Type 0 where
  pub table : IsTable mem_block_sizes mem_blocks_per_size h.memory_blocks
  pub placed : (c i : ℕ) → Index c i → (block_at h c i).address ≡ address_of c i
  pub sized : (c i : ℕ) → Index c i → (block_at h c i).size ≡ size_of c

-- The statics as the C declarations set them, whatever the uninitialised table holds.
pub record IsFresh (h : Heap) : Type 0 where
  pub table : IsTable mem_block_sizes mem_blocks_per_size h.memory_blocks
  pub pointer : h.current_heap_ptr ≡ heap_start
  pub left : h.remaining_heap ≡ heap_end - heap_start

-- From the statics' first values `memory_init` gives each of the 128 blocks its place, behind
-- the block before it and with its class's size; no block is in use, and the heap's pointer and
-- the bytes left stand behind the last one.
pub memory_init_lem :
    (h : Heap)
    → IsFresh h
    → IsPlaced (memory_init h)
      × ((c i : ℕ) → Index c i → (block_at (memory_init h) c i).in_use ≡ false)
      × ((memory_init h).current_heap_ptr ≡ class_start mem_block_sizes)
      × ((memory_init h).current_heap_ptr + (memory_init h).remaining_heap ≡ heap_end)
unfolding memory_init
memory_init_lem h f =
    let laid =
      init_rows-IsLaid block_sizes mem_blocks_per_size h h.memory_blocks f.table
        (omega (arith, f.left)) (omega (arith, f.pointer)) in
    (
      record {
        table = record { classes = laid.rows; blocks = laid.full };
        placed = λ c. λ i. λ (lc, li).
            omega (arith, (laid.row c lc).placed i (omega (arith, laid.full c lc)), f.pointer);
        sized = λ c. λ i. λ (lc, li). (laid.row c lc).sized i (omega (arith, laid.full c lc));
      },
      λ c. λ i. λ (lc, li). (laid.row c lc).unused i (omega (arith, laid.full c lc)),
      omega (arith, laid.end_ptr, f.pointer),
      omega (arith, laid.end_ptr, laid.end_left, f.pointer, f.left),
    )

lt_cases : (a b : ℕ) → (a < b) ⊎ (b < a) ⊎ (a ≡ b)
lt_cases a b = ground arith

-- The end of a class is where the next begins.
class_end : (c i : ℕ) → Index c i → address_of c i + size_of c ≤ class_start (suc c)
class_end zero i l = omega arith
class_end (suc zero) i l = omega arith
class_end (suc (suc zero)) i l = omega arith
class_end (suc (suc (suc zero))) i l = omega arith
class_end (suc (suc (suc (suc c)))) i l = absurd (omega arith)

prefix_mono : (ss : List ℕ) (c d : ℕ) → c ≤ d → prefix ss c ≤ prefix ss d
prefix_mono [] c d l = omega arith
prefix_mono (s ∷ ss) zero d l = omega arith
prefix_mono (s ∷ ss) (suc c) zero l = absurd (omega arith)
prefix_mono (s ∷ ss) (suc c) (suc d) l = omega (arith, prefix_mono ss c d (omega arith))

pub size_pos : (c : ℕ) → c < mem_block_sizes → 64 ≤ size_of c
size_pos zero l = omega arith
size_pos (suc zero) l = omega arith
size_pos (suc (suc zero)) l = omega arith
size_pos (suc (suc (suc zero))) l = omega arith
size_pos (suc (suc (suc (suc c)))) l = absurd (omega arith)

pub in_order :
    (c i d j : ℕ) → Index c i → Index d j → c < d → address_of c i + size_of c ≤ address_of d j
in_order c i d j p q l =
    omega (arith, class_end c i p, prefix_mono block_sizes (suc c) d (omega arith))

same_class :
    (c i j : ℕ) → Index c i → Index c j → i < j → address_of c i + size_of c ≤ address_of c j
same_class zero i j p q l = omega arith
same_class (suc zero) i j p q l = omega arith
same_class (suc (suc zero)) i j p q l = omega arith
same_class (suc (suc (suc zero))) i j p q l = omega arith
same_class (suc (suc (suc (suc c)))) i j p q l = absurd (omega arith)

-- Two blocks of the table, or one and the same.
pub apart :
    (c i d j : ℕ)
    → Index c i
    → Index d j
    → ((c ≡ d) × (i ≡ j))
      ⊎ (address_of c i + size_of c ≤ address_of d j)
      ⊎ (address_of d j + size_of d ≤ address_of c i)
apart c i d j p q = elim (lt_cases c d) [
  | inl l ↦ inr (inl (in_order c i d j p q l))
  | inr (inl l) ↦ inr (inr (in_order d j c i q p l))
  | inr (inr e) ↦ (elim (lt_cases i j) [
    | inl l ↦ inr (
        inl (
          subst (λ x. address_of c i + size_of c ≤ address_of x j) e
            (same_class c i j p (subst (λ x. Index x j) (sym e) q) l)))
    | inr (inl l) ↦ inr (
        inr (
          subst (λ x. address_of x j + size_of x ≤ address_of c i) e
            (same_class c j i (subst (λ x. Index x j) (sym e) q) p l)))
    | inr (inr e') ↦ inl (e, e')
  ])
]

-- Two blocks at one address are one block.
pub address_of-injective :
    (c i d j : ℕ) → Index c i → Index d j → address_of c i ≡ address_of d j → (c ≡ d) × (i ≡ j)
address_of-injective c i d j p q e = elim (apart c i d j p q) [
  | inl same ↦ same
  | inr (inl l) ↦ absurd (omega (arith, size_pos c p.0))
  | inr (inr l) ↦ absurd (omega (arith, size_pos d q.0))
]

-- A block lies between the heap's bounds.
pub in_heap :
    (c i : ℕ) → Index c i → (heap_start ≤ address_of c i) × (address_of c i + size_of c ≤ heap_end)
in_heap c i p = (
  omega arith,
  omega (arith, class_end c i p, prefix_mono block_sizes (suc c) mem_block_sizes (omega arith)),
)
