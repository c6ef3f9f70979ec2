-- ===== src/Memory/Blocks/Runs.antt =====
-- kernel/mm/memory.c: sequences of calls of the block allocator.
use lugh_os.Base.{
  ℕ, ◌+◌, ◌≤◌, ◌<◌, Bool, true, false, List, [], ◌∷◌, ◌≡◌, ◌≢◌, refl, sym, ap, subst, ◌∙◌, arith,
  inl, inr, ◌⊎◌,
}
use lugh_os.Memory.Blocks.{
  Block, Heap, block_at, heap_start, heap_end, memory_init, alloc_memory, free_memory,
}
use lugh_os.Memory.Blocks.Placed.{
  IsPlaced, IsFresh, Index, size_of, address_of, address_of-injective, apart, in_heap,
  memory_init_lem,
}
use lugh_os.Memory.Blocks.Marks.{IsMarked, IsMarked-IsPlaced, place_cases, unmarked}
use lugh_os.Memory.Blocks.Alloc.{Request, refused, full, given, alloc_memory_lem}
use lugh_os.Memory.Blocks.Free.{Release, ignored, released, free_memory_lem}

pub data Call : Type 0 where
  alloc : ℕ → Call
  release : ℕ → Call

unfoldable pub step : Heap → Call → Heap
step h (alloc size) = (alloc_memory h size).1
step h (release ptr) = free_memory h ptr

unfoldable pub run : Heap → List Call → Heap
run h [] = h
run h (c ∷ cs) = run (step h c) cs

request-IsPlaced :
    (h : Heap) (size : ℕ) (out : ℕ × Heap) → Request h size out → IsPlaced h → IsPlaced out.1
request-IsPlaced h size out (refused _) p = p
request-IsPlaced h size out (full _ _ _) p = p
request-IsPlaced h size out (given c i h' _ _ _ _ m _) p = IsMarked-IsPlaced h h' c i true m p

release-IsPlaced : (h : Heap) (ptr : ℕ) (h' : Heap) → Release h ptr h' → IsPlaced h → IsPlaced h'
release-IsPlaced h ptr h' (ignored _) p = p
release-IsPlaced h ptr h' (released c i _ _ _ _ m _) p = IsMarked-IsPlaced h h' c i false m p

pub run-IsPlaced : (h : Heap) (cs : List Call) → IsPlaced h → IsPlaced (run h cs)
unfolding run step
run-IsPlaced h [] p = p
run-IsPlaced h (alloc size ∷ cs) p =
    run-IsPlaced (alloc_memory h size).1 cs
      (request-IsPlaced h size (alloc_memory h size) (alloc_memory_lem h size p) p)
run-IsPlaced h (release ptr ∷ cs) p =
    run-IsPlaced (free_memory h ptr) cs
      (release-IsPlaced h ptr (free_memory h ptr) (free_memory_lem h ptr p) p)

-- What the caller of `alloc_memory` may rely on.
pub record IsOwn (h : Heap) (size ptr : ℕ) (h' : Heap) : Type 0 where
  pub from_start : heap_start ≤ ptr
  pub to_end : ptr + size ≤ heap_end
  pub cleared : (x : ℕ) → ptr ≤ x → x < ptr + size → h'.bytes x ≡ 0
  pub disjoint :
      (c i : ℕ)
      → Index c i
      → (block_at h c i).in_use ≡ true
      → ((block_at h c i).address + (block_at h c i).size ≤ ptr)
        ⊎ (ptr + size ≤ (block_at h c i).address)
  pub still :
      (c i : ℕ) → Index c i → (block_at h c i).in_use ≡ true → block_at h' c i ≡ block_at h c i
  pub untouched :
      (c i x : ℕ)
      → Index c i
      → (block_at h c i).in_use ≡ true
      → (block_at h c i).address ≤ x
      → x < (block_at h c i).address + (block_at h c i).size
      → h'.bytes x ≡ h.bytes x

free_not_used : (b : Bool) → b ≡ false → b ≡ true → ⊥
free_not_used b e f = cc

-- A block in use is another one than the block given.
other_block :
    (h : Heap) (c i d j : ℕ)
    → (block_at h c i).in_use ≡ false
    → (block_at h d j).in_use ≡ true
    → (c ≡ d) × (i ≡ j)
    → ⊥
other_block h c i d j f u (ec, ei) = free_not_used (block_at h c i).in_use f (
    subst (λ x. (block_at h x i).in_use ≡ true) (sym ec)
      (subst (λ y. (block_at h d y).in_use ≡ true) (sym ei) u))

-- A block in use lies apart from the block given.
clear_of :
    (h : Heap) (c i d j : ℕ)
    → IsPlaced h
    → Index c i
    → Index d j
    → (block_at h c i).in_use ≡ false
    → (block_at h d j).in_use ≡ true
    → ((block_at h d j).address + (block_at h d j).size ≤ address_of c i)
      ⊎ (address_of c i + size_of c ≤ (block_at h d j).address)
clear_of h c i d j p at at' f u = elim (apart c i d j at at') [
  | inl same ↦ absurd (other_block h c i d j f u same)
  | inr (inl l) ↦ inr (omega (arith, p.placed d j at', l))
  | inr (inr l) ↦ inl (omega (arith, p.placed d j at', p.sized d j at', l))
]

request-IsOwn :
    (h : Heap) (size : ℕ) (out : ℕ × Heap)
    → Request h size out
    → IsPlaced h
    → out.0 ≢ 0
    → IsOwn h size out.0 out.1
request-IsOwn h size out (refused _) p n = absurd (n refl)
request-IsOwn h size out (full _ _ _) p n = absurd (n refl)
request-IsOwn h size out (given c i h' k at free _ m z) p n = record {
  from_start = (in_heap c i at).0;
  to_end = omega (arith, (in_heap c i at).1, k.enough);
  cleared = λ x. λ l. λ r. z.inside x l (omega (arith, r, k.enough));
  disjoint = λ d. λ j. λ at'. λ u. grind (arith, away d j at' u, k.enough);
  still = λ d. λ j. λ at'. λ u. m.others d j (other_block h c i d j free u);
  untouched =
      λ d. λ j. λ x. λ at'. λ u. λ l. λ r. z.outside x (grind (arith, away d j at' u, l, r));
}
  where
    away :
        (d j : ℕ)
        → Index d j
        → (block_at h d j).in_use ≡ true
        → ((block_at h d j).address + (block_at h d j).size ≤ address_of c i)
          ⊎ (address_of c i + size_of c ≤ (block_at h d j).address)
    away d j at' u = clear_of h c i d j p at at' free u

-- After `memory_init` and any calls, the bytes of an allocation that succeeds lie in the heap,
-- hold 0 and overlap no block in use; those blocks and their bytes stay as they were.
pub alloc_memory-IsOwn :
    (h : Heap) (cs : List Call) (size : ℕ)
    → IsFresh h
    → (alloc_memory (run (memory_init h) cs) size).0 ≢ 0
    → IsOwn
        (run (memory_init h) cs)
        size
        (alloc_memory (run (memory_init h) cs) size).0
        (alloc_memory (run (memory_init h) cs) size).1
alloc_memory-IsOwn h cs size f n =
    let p = run-IsPlaced (memory_init h) cs (memory_init_lem h f).0 in
    request-IsOwn _ size (alloc_memory (run (memory_init h) cs) size)
      (alloc_memory_lem (run (memory_init h) cs) size p) p n

remark : (b : Block) → b.in_use ≡ false → record b { in_use = false } ≡ b
remark b e = ap (λ u. let y : Block = record b { in_use = u } in y) (sym e)

-- Two marks of one block, the second as the block stood before the first.
marked_back :
    (h h' h'' : Heap) (c i d j : ℕ)
    → (block_at h c i).in_use ≡ false
    → IsMarked h h' c i true
    → IsMarked h' h'' c i false
    → block_at h'' d j ≡ block_at h d j
marked_back h h' h'' c i d j f m m' = elim (place_cases c i d j) [
  | inr n ↦ m'.others d j n ∙ m.others d j n
  | inl (ec, ei) ↦
      subst (λ x. block_at h'' x j ≡ block_at h x j) ec
        (subst (λ y. block_at h'' c y ≡ block_at h c y) ei
          (m'.this ∙ ap unmarked m.this ∙ remark (block_at h c i) f))
]

restored :
    (h : Heap) (size : ℕ) (out : ℕ × Heap) (h'' : Heap)
    → Request h size out
    → Release out.1 out.0 h''
    → IsPlaced h
    → out.0 ≢ 0
    → (d j : ℕ) → Index d j
    → block_at h'' d j ≡ block_at h d j
restored h size out h'' (refused _) r p n d j at' = absurd (n refl)
restored h size out h'' (full _ _ _) r p n d j at' = absurd (n refl)
restored h size out h'' (given c i h' k at free _ m z) (ignored none_used) p n d j at' =
    absurd (none_used c i at (ap (λ b. b.in_use) m.this) refl)
restored h size out h'' (given c i h' k at free _ m z) (released c' i' _ at'' e _ m' _) p n d j
      at' =
    let (ec, ei) = address_of-injective c i c' i' at at'' e in
    marked_back h h' h'' c i d j free m (
      subst (λ x. IsMarked h' h'' x i false) (sym ec)
        (subst (λ y. IsMarked h' h'' c' y false) (sym ei) m'))

-- An allocation that succeeds and the release of its pointer leave every block as it was.
pub free_memory-alloc_memory :
    (h : Heap) (size : ℕ)
    → IsPlaced h
    → (alloc_memory h size).0 ≢ 0
    → (c i : ℕ) → Index c i
    → block_at (free_memory (alloc_memory h size).1 (alloc_memory h size).0) c i ≡ block_at h c i
free_memory-alloc_memory h size p n =
    let request = alloc_memory_lem h size p in
    let out = alloc_memory h size in
    restored h size out _ request
      (free_memory_lem out.1 out.0 (request-IsPlaced h size out request p)) p n
