-- ===== src/Memory/Blocks/Alloc.antt =====
-- kernel/mm/memory.c: `alloc_memory` on every branch.
use lugh_os.Base.{
  ℕ, ◌+◌, ◌≤◌, ◌<◌, ltb, leb, ◌==◌, true, false, List, [], get_or, ◌≡◌, ◌≢◌, refl, sym, subst,
  arith, inl, inr, ltb-false, ◌⊎◌, ==_ne, some, Option-cases,
}
use lugh_os.Base.Search.{
  first_where, first_where-lt, first_where-holds, first_where-before, first_where-none,
}
use lugh_os.Memory.Blocks.{
  Block, empty_block, Heap, block_at, block_sizes, mem_block_sizes, mem_blocks_per_size,
  mem_max_alloc_size, find_size_class, clear, with_use, is_free_block, alloc_in, alloc_memory,
}
use lugh_os.Memory.Blocks.Placed.{IsPlaced, Index, size_of, address_of}
use lugh_os.Memory.Blocks.Marks.{IsMarked, with_use-IsMarked}

-- The smallest class whose blocks hold this many bytes.
pub record IsClass (size c : ℕ) : Type 0 where
  pub known : c < mem_block_sizes
  pub enough : size ≤ size_of c
  pub least : (d : ℕ) → d < c → size_of d < size

find_size_class-IsClass :
    (size : ℕ)
    → size ≤ mem_max_alloc_size
    → (c : ℕ) × IsClass size c × (find_size_class size ≡ some c)
unfolding find_size_class
find_size_class-IsClass size l = elim (Option-cases (find_size_class size)) [
  | inl miss ↦
      absurd (ground (arith, first_where-none (leb size) block_sizes 3 0 miss (omega arith)))
  | inr (c, found) ↦ (
    c,
    record {
      known = first_where-lt (leb size) block_sizes c found;
      enough = ground (arith, first_where-holds (leb size) block_sizes c 0 found);
      least = λ d. λ m. ground (arith, first_where-before (leb size) block_sizes c d 0 found m);
    },
    found,
  )
]

-- `m'` is `m` with `size` bytes from `ptr` on set to 0.
pub record IsCleared (m m' : ℕ → ℕ) (ptr size : ℕ) : Type 0 where
  pub inside : (x : ℕ) → ptr ≤ x → x < ptr + size → m' x ≡ 0
  pub outside : (x : ℕ) → (x < ptr) ⊎ (ptr + size ≤ x) → m' x ≡ m x

pub clear-IsCleared : (m : ℕ → ℕ) (ptr size : ℕ) → IsCleared m (clear m ptr size) ptr size
clear-IsCleared m ptr size = record {
  inside = λ x. λ a. λ b. ground arith;
  outside = λ x. λ c. ground arith;
}

size_cases :
    (size : ℕ)
    → ((size ≡ 0) ⊎ (mem_max_alloc_size < size)) ⊎ ((size ≢ 0) × (size ≤ mem_max_alloc_size))
size_cases size = ground arith

-- What a request for `size` bytes may come to.
pub data Request (h : Heap) (size : ℕ) : ℕ × Heap → Type 0 where
  refused : (size ≡ 0) ⊎ (mem_max_alloc_size < size) → Request h size (0, h)
  full :
      (c : ℕ)
      → IsClass size c
      → ((i : ℕ) → i < mem_blocks_per_size → (block_at h c i).in_use ≡ true)
      → Request h size (0, h)
  given :
      (c i : ℕ) (h' : Heap)
      → IsClass size c
      → Index c i
      → (block_at h c i).in_use ≡ false
      → ((j : ℕ) → j < i → (block_at h c j).in_use ≡ true)
      → IsMarked h h' c i true
      → IsCleared h.bytes h'.bytes (address_of c i) (size_of c)
      → Request h size (address_of c i, h')

not_free : (b : Block) → is_free_block b ≡ false → b.in_use ≡ true
not_free b e = ground arith

is_free : (b : Block) → is_free_block b ≡ true → b.in_use ≡ false
is_free b e = ground arith

-- The block found is marked and cleared.
taken :
    (h : Heap) (size c i : ℕ)
    → IsPlaced h
    → IsClass size c
    → first_where is_free_block (get_or h.memory_blocks c []) ≡ some i
    → Request h size (
      (block_at h c i).address,
      record h {
        memory_blocks = with_use h c i true;
        bytes = clear h.bytes (block_at h c i).address (block_at h c i).size;
      },
    )
taken h size c i p k e =
    subst (λ a. Request h size (a, h')) (sym place)
      (given c i h' k at
        (is_free (block_at h c i) (first_where-holds is_free_block row i empty_block e))
        (λ j.
          λ l. not_free (block_at h c j) (first_where-before is_free_block row i j empty_block e l))
        (with_use-IsMarked h h' c i true p.table at refl)
        (subst (λ a. IsCleared h.bytes h'.bytes a (size_of c)) place
          (subst (λ n. IsCleared h.bytes h'.bytes (block_at h c i).address n) (p.sized c i at)
            (clear-IsCleared h.bytes _ _))))
  where
    row : List Block
    row = get_or h.memory_blocks c []

    h' : Heap
    h' = record h {
      memory_blocks = with_use h c i true;
      bytes = clear h.bytes (block_at h c i).address (block_at h c i).size;
    }

    at : Index c i
    at = (k.known, omega (arith, first_where-lt is_free_block row i e, p.table.blocks c k.known))

    place : (block_at h c i).address ≡ address_of c i
    place = p.placed c i at

alloc_in-Request :
    (h : Heap) (size c : ℕ) → IsPlaced h → IsClass size c → Request h size (alloc_in h c)
unfolding alloc_in
alloc_in-Request h size c p k =
    let row = get_or h.memory_blocks c [] in
    elim (Option-cases (first_where is_free_block row)) [
      | inl e ↦
          rw (e, alloc_in)
            (full c k (λ i. λ l. not_free (block_at h c i) (
              first_where-none is_free_block row i empty_block e
                (omega (arith, p.table.blocks c k.known)))))
      | inr (i, e) ↦ rw (e, alloc_in) (taken h size c i p k e)
    ]

==_true : (a : ℕ) → a ≡ 0 → (a == 0) ≡ true
==_true a e = ground arith

ltb-true : (a b : ℕ) → a < b → ltb a b ≡ true
ltb-true a b l = ground arith

-- A request is refused, or finds its class full, or gets the first free block of the smallest
-- class that is large enough: that block is marked and cleared, and no other block or byte changes.
pub alloc_memory_lem : (h : Heap) (size : ℕ) → IsPlaced h → Request h size (alloc_memory h size)
unfolding alloc_memory
alloc_memory_lem h size p = elim (size_cases size) [
  | inl (inl e) ↦ rw (==_true size e) (refused (inl e))
  | inl (inr l) ↦
      rw (==_ne size 0 (λ e. omega (arith, e)))
        (rw (ltb-true mem_max_alloc_size size l) (refused (inr l)))
  | inr (n, l) ↦
      let (c, k, found) = find_size_class-IsClass size l in
      rw (==_ne size 0 n) (
        rw (ltb-false mem_max_alloc_size size l)
          (rw (found, alloc_memory) (alloc_in-Request h size c p k)))
]
