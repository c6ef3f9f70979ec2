-- ===== src/Memory/Blocks/Free.antt =====
-- kernel/mm/memory.c: `free_memory` on every branch.
use lugh_os.Base.{
  ℕ, zero, suc, ◌+◌, ◌≤◌, ◌<◌, ltb, leb, true, false, ◌||◌, List, [], ◌∷◌, get_or, length, ◌≡◌, ◌≢◌,
  refl, sym, ap, subst, ◌∙◌, arith, Bool-cases, inl, inr, ◌⊎◌, ==_ne, Option, none, some,
  Option-cases,
}
use lugh_os.Base.Search.{first_where, first_where-lt, first_where-holds, first_where-none}
use lugh_os.Memory.Blocks.{
  Block, empty_block, Heap, block_at, heap_start, heap_end, mem_block_sizes, mem_blocks_per_size,
  clear, with_use,
}
use lugh_os.Memory.Blocks.Placed.{IsPlaced, Index, size_of, address_of}
use lugh_os.Memory.Blocks.{find_live, is_live, free_memory}
use lugh_os.Memory.Blocks.Marks.{IsMarked, with_use-IsMarked, entry}
use lugh_os.Memory.Blocks.Alloc.{IsCleared, clear-IsCleared}
use lugh_os.Memory.Blocks.Placed.{in_heap, size_pos}

abbrev place : ℕ → ℕ → ℕ × ℕ
place a b = (a, b)

some_pair : (a b c d : ℕ) → some (place a b) ≡ some (place c d) → (a ≡ c) × (b ≡ d)
some_pair a b c d e = (ap (pair_or (λ x. x.0)) e, ap (pair_or (λ x. x.1)) e)
  where
    pair_or : (ℕ × ℕ → ℕ) → Option (ℕ × ℕ) → ℕ
    pair_or f none = 0
    pair_or f (some x) = f x

-- The place that the search names holds a block in use at the address.
find_live-some :
    (ptr k : ℕ) (rows : List (List Block)) (c i : ℕ)
    → find_live ptr k rows ≡ some (c, i)
    → (d : ℕ) × (c ≡ k + d)
      × (d < length rows)
      × (i < length (get_or rows d []))
      × (is_live ptr (entry rows d i) ≡ true)
unfolding find_live
find_live-some ptr k [] c i e = cc
find_live-some ptr k (row ∷ rows) c i e = elim (Option-cases (first_where (is_live ptr) row)) [
  | inl miss ↦
      let (d, at, ld, li, live) =
        find_live-some ptr (suc k) rows c i (sym (rw (miss, find_live) refl) ∙ e) in
      (suc d, omega (arith, at), omega arith, li, live)
  | inr (j, found) ↦
      let same : some (place k j) ≡ some (place c i) = sym (rw (found, find_live) refl) ∙ e in
      let (ek, ej) = some_pair k j c i same in
      (
        0,
        omega (arith, ek),
        omega arith,
        omega (arith, ej, first_where-lt (is_live ptr) row j found),
        ap (λ n. is_live ptr (get_or row n empty_block)) (sym ej)
            ∙ first_where-holds (is_live ptr) row j empty_block found,
      )
]

-- A property of the rows behind and of the first one.
row_cases :
    (ptr : ℕ) (row : List Block) (rows : List (List Block)) (d i : ℕ)
    → d < suc (length rows)
    → i < length (get_or (row ∷ rows) d [])
    → first_where (is_live ptr) row ≡ none
    → ((c : ℕ)
        → c < length rows
        → i < length (get_or rows c [])
        → is_live ptr (entry rows c i) ≡ false)
    → is_live ptr (entry (row ∷ rows) d i) ≡ false
row_cases ptr row rows zero i ld li miss f =
    first_where-none (is_live ptr) row i empty_block miss li
row_cases ptr row rows (suc d) i ld li miss f = f d (omega arith) li

find_live-none :
    (ptr k : ℕ) (rows : List (List Block)) (d i : ℕ)
    → find_live ptr k rows ≡ none
    → d < length rows
    → i < length (get_or rows d [])
    → is_live ptr (entry rows d i) ≡ false
unfolding find_live
find_live-none ptr k [] d i e ld li = absurd (omega arith)
find_live-none ptr k (row ∷ rows) d i e ld li =
    elim (Option-cases (first_where (is_live ptr) row)) [
      | inr (j, found) ↦
          absurd (let z : some (place k j) ≡ none = sym (rw (found, find_live) refl) ∙ e in cc)
      | inl miss ↦ row_cases ptr row rows d i ld li miss (λ c.
          λ l. λ m. find_live-none ptr (suc k) rows c i (sym (rw (miss, find_live) refl) ∙ e) l m)
    ]

-- What a release of the address `ptr` may come to.
pub data Release (h : Heap) (ptr : ℕ) : Heap → Type 0 where
  ignored :
      ((c i : ℕ) → Index c i → (block_at h c i).in_use ≡ true → ptr ≢ address_of c i)
      → Release h ptr h
  released :
      (c i : ℕ) (h' : Heap)
      → Index c i
      → ptr ≡ address_of c i
      → (block_at h c i).in_use ≡ true
      → IsMarked h h' c i false
      → IsCleared h.bytes h'.bytes ptr (size_of c)
      → Release h ptr h'

-- Outside the heap there is no block.
outside : (h : Heap) (ptr : ℕ) → (ptr < heap_start) ⊎ (heap_end ≤ ptr) → Release h ptr h
outside h ptr o =
    ignored (λ c. λ i. λ at. λ used. λ e. grind (arith, o, in_heap c i at, e, size_pos c at.0))

not_live :
    (h : Heap) (ptr c i : ℕ)
    → IsPlaced h
    → Index c i
    → is_live ptr (block_at h c i) ≡ false
    → (block_at h c i).in_use ≡ true
    → ptr ≢ address_of c i
not_live h ptr c i p at miss used e = ground (arith, p.placed c i at)

live_parts : (ptr : ℕ) (b : Block) → is_live ptr b ≡ true → (b.address ≡ ptr) × (b.in_use ≡ true)
live_parts ptr b e = ground arith

free_at :
    (h : Heap) (ptr c i : ℕ)
    → IsPlaced h
    → Index c i
    → is_live ptr (block_at h c i) ≡ true
    → Release h ptr (record h {
      memory_blocks = with_use h c i false;
      bytes = clear h.bytes ptr (block_at h c i).size;
    })
free_at h ptr c i p at live =
    let (place, used) = live_parts ptr (block_at h c i) live in
    released c i _ at (sym place ∙ p.placed c i at) used
      (with_use-IsMarked h _ c i false p.table at refl)
      (subst (λ n. IsCleared h.bytes (clear h.bytes ptr (block_at h c i).size) ptr n)
        (p.sized c i at) (clear-IsCleared h.bytes ptr _))

free_found :
    (h : Heap) (ptr c i : ℕ)
    → IsPlaced h
    → find_live ptr 0 h.memory_blocks ≡ some (c, i)
    → Index c i × (is_live ptr (block_at h c i) ≡ true)
free_found h ptr c i p found =
    let (d, same, ld, li, live) = find_live-some ptr 0 h.memory_blocks c i found in
    let e : d ≡ c = omega (arith, same) in
    let lc : c < mem_block_sizes = omega (arith, e, ld, p.table.classes) in
    let len : length (get_or h.memory_blocks d []) ≡ mem_blocks_per_size =
      p.table.blocks d (omega (arith, e, lc)) in
    (
      (lc, omega (arith, li, len)),
      subst (λ x. is_live ptr (entry h.memory_blocks x i) ≡ true) e live,
    )

free_searched :
    (h : Heap) (ptr : ℕ)
    → IsPlaced h
    → ptr ≢ 0
    → (ltb ptr heap_start || leb heap_end ptr) ≡ false
    → Release h ptr (free_memory h ptr)
unfolding free_memory
free_searched h ptr p n inside = elim (Option-cases (find_live ptr 0 h.memory_blocks)) [
  | inl miss ↦ rw (==_ne ptr 0 n) (
      rw inside (
        rw miss (
          ignored (λ c. λ i. λ at. not_live h ptr c i p at (
            find_live-none ptr 0 h.memory_blocks c i miss (omega (arith, p.table.classes, at.0))
              (omega (arith, p.table.blocks c at.0, at.1)))))))
  | inr ((c, i), found) ↦
      let (at, live) = free_found h ptr c i p found in
      rw (==_ne ptr 0 n) (rw inside (rw found (free_at h ptr c i p at live)))
]

-- A release of an address where a block in use stands frees that block alone and clears its
-- bytes alone. NULL, an address outside the heap and one where no block in use stands change nothing.
pub free_memory_lem : (h : Heap) (ptr : ℕ) → IsPlaced h → Release h ptr (free_memory h ptr)
unfolding free_memory
free_memory_lem h zero p = outside h 0 (inl (omega arith))
free_memory_lem h (suc a) p = elim (Bool-cases (ltb (suc a) heap_start || leb heap_end (suc a))) [
  | inl out ↦
      rw (==_ne (suc a) 0 (λ e. omega (arith, e))) (rw out (outside h (suc a) (ground arith)))
  | inr inside ↦ free_searched h (suc a) p (λ e. omega (arith, e)) inside
]
