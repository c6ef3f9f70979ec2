-- ===== src/Memory/Blocks/Layout.antt =====
-- kernel/mm/memory.c: where `memory_init` puts the blocks.
use lugh_os.Base.{
  ℕ, zero, suc, ◌+◌, ◌-◌, ◌*◌, ◌%◌, ◌^◌, ◌≤◌, ◌<◌, Bool, true, false, List, [], ◌∷◌, get_or, length,
  ◌≡◌, refl, ap, subst, ◌∙◌, arith, ltb-false,
}
use lugh_os.Memory.Blocks.{Block, empty_block, Heap, take_block, init_row, init_rows}

-- A row of blocks of one size, from `p` on.
pub record IsRow (size p : ℕ) (row : List Block) : Type 0 where
  pub placed : (i : ℕ) → i < length row → (get_or row i empty_block).address ≡ p + i * size
  pub sized : (i : ℕ) → i < length row → (get_or row i empty_block).size ≡ size
  pub unused : (i : ℕ) → i < length row → (get_or row i empty_block).in_use ≡ false

record IsInit (size : ℕ) (h : Heap) (row : List Block) (out : List Block × Heap × Bool)
    : Type 0 where
  row_placed : IsRow size h.current_heap_ptr out.0
  same_length : length out.0 ≡ length row
  pointer : out.1.current_heap_ptr ≡ h.current_heap_ptr + length row * size
  rest : out.1.remaining_heap ≡ h.remaining_heap - length row * size
  done : out.2 ≡ true

-- The sum of the first `c` sizes.
abbrev pub prefix : List ℕ → ℕ → ℕ
prefix [] c = 0
prefix (s ∷ ss) zero = 0
prefix (s ∷ ss) (suc c) = s + prefix ss c

IsRow-cons :
    (size p q : ℕ) (b : Block) (row : List Block)
    → b.address ≡ p
    → b.size ≡ size
    → b.in_use ≡ false
    → q ≡ p + size
    → IsRow size q row
    → IsRow size p (b ∷ row)
IsRow-cons size p q b row ea es eu eq r = record {
  placed = λ i. λ l. place i l;
  sized = λ i. λ l. sizes i l;
  unused = λ i. λ l. uses i l;
}
  where
    place : (i : ℕ) → i < suc (length row) → (get_or (b ∷ row) i empty_block).address ≡ p + i * size
    place zero l = omega (arith, ea)
    place (suc i) l = omega (arith, r.placed i (omega arith), eq)

    sizes : (i : ℕ) → i < suc (length row) → (get_or (b ∷ row) i empty_block).size ≡ size
    sizes zero l = es
    sizes (suc i) l = r.sized i (omega arith)

    uses : (i : ℕ) → i < suc (length row) → (get_or (b ∷ row) i empty_block).in_use ≡ false
    uses zero l = eu
    uses (suc i) l = r.unused i (omega arith)

init_row-IsInit :
    (size : ℕ) (h : Heap) (row : List Block)
    → length row * size ≤ h.remaining_heap
    → h.current_heap_ptr + length row * size < 2 ^ 32
    → IsInit size h row (init_row size h row)
unfolding init_row
init_row-IsInit size h [] f w = record {
  row_placed = record {
    placed = λ i. λ l. absurd (omega arith);
    sized = λ i. λ l. absurd (omega arith);
    unused = λ i. λ l. absurd (omega arith);
  };
  same_length = refl;
  pointer = omega arith;
  rest = omega arith;
  done = refl;
}
init_row-IsInit size h (b ∷ row) f w =
    let next : (h.current_heap_ptr + size) % 2 ^ 32 ≡ h.current_heap_ptr + size = omega arith in
    let r = init_row-IsInit size (take_block h size) row (omega arith) (omega (arith, next)) in
    rw (ltb-false h.remaining_heap size (omega arith)) record {
      row_placed = IsRow-cons size h.current_heap_ptr _ _ _ refl refl refl next r.row_placed;
      same_length = ap suc r.same_length;
      pointer = omega (arith, r.pointer, next);
      rest = omega (arith, r.rest);
      done = r.done;
    }

-- The rows of blocks of several sizes, one after the other from `p` on.
pub record IsLaid (sizes : List ℕ) (n p left : ℕ) (out : List (List Block) × Heap) : Type 0 where
  pub rows : length out.0 ≡ length sizes
  pub full : (c : ℕ) → c < length sizes → length (get_or out.0 c []) ≡ n
  pub row :
      (c : ℕ)
      → c < length sizes
      → IsRow (get_or sizes c 0) (p + n * prefix sizes c) (get_or out.0 c [])
  pub end_ptr : out.1.current_heap_ptr ≡ p + n * prefix sizes (length sizes)
  pub end_left : out.1.remaining_heap ≡ left - n * prefix sizes (length sizes)

IsRow-at : (size p q : ℕ) (row : List Block) → p ≡ q → IsRow size p row → IsRow size q row
IsRow-at size p q row e r = subst (λ x. IsRow size x row) e r

IsLaid-cons :
    (size : ℕ) (sizes : List ℕ) (n p left : ℕ) (h' : Heap) (row : List Block)
    (out : List (List Block) × Heap)
    → IsRow size p row
    → length row ≡ n
    → h'.current_heap_ptr ≡ p + n * size
    → h'.remaining_heap ≡ left - n * size
    → IsLaid sizes n h'.current_heap_ptr h'.remaining_heap out
    → IsLaid (size ∷ sizes) n p left (row ∷ out.0, out.1)
IsLaid-cons size sizes n p left h' row out r len ep el s = record {
  rows = ap suc s.rows;
  full = fulls;
  row = each;
  end_ptr = omega (arith, s.end_ptr, ep);
  end_left = omega (arith, s.end_left, el);
}
  where
    fulls : (c : ℕ) → c < suc (length sizes) → length (get_or (row ∷ out.0) c []) ≡ n
    fulls zero l = len
    fulls (suc c) l = s.full c (omega arith)

    each :
        (c : ℕ)
        → c < suc (length sizes)
        → IsRow
            (get_or (size ∷ sizes) c 0)
            (p + n * prefix (size ∷ sizes) c)
            (get_or (row ∷ out.0) c [])
    each zero l = IsRow-at size p _ row (omega arith) r
    each (suc c) l = IsRow-at _ _ _ _ (omega (arith, ep)) (s.row c (omega arith))

-- A table of this many rows of `n` blocks each.
pub record IsTable (k n : ℕ) (rows : List (List Block)) : Type 0 where
  pub classes : length rows ≡ k
  pub blocks : (c : ℕ) → c < k → length (get_or rows c []) ≡ n

pub init_rows-IsLaid :
    (sizes : List ℕ) (n : ℕ) (h : Heap) (rows : List (List Block))
    → IsTable (length sizes) n rows
    → n * prefix sizes (length sizes) ≤ h.remaining_heap
    → h.current_heap_ptr + n * prefix sizes (length sizes) < 2 ^ 32
    → IsLaid sizes n h.current_heap_ptr h.remaining_heap (init_rows sizes h rows)
unfolding init_rows
init_rows-IsLaid [] n h rows t f w = record {
  rows = t.classes;
  full = λ c. λ l. absurd (omega arith);
  row = λ c. λ l. absurd (omega arith);
  end_ptr = omega arith;
  end_left = omega arith;
}
init_rows-IsLaid (size ∷ sizes) n h [] t f w = absurd (omega (arith, t.classes))
init_rows-IsLaid (size ∷ sizes) n h (row ∷ rows) t f w =
    let len : length row ≡ n = t.blocks 0 (omega arith) in
    let same : length row * size ≡ n * size = ap (λ x. x * size) len in
    let r = init_row-IsInit size h row (omega (arith, same)) (omega (arith, same)) in
    let tail : IsTable (length sizes) n rows = record {
      classes = omega (arith, t.classes);
      blocks = λ c. λ l. t.blocks (suc c) (omega arith);
    } in
    let h' = (init_row size h row).1 in
    let ep : h'.current_heap_ptr ≡ h.current_heap_ptr + n * size = omega (arith, r.pointer, same) in
    let el : h'.remaining_heap ≡ h.remaining_heap - n * size = omega (arith, r.rest, same) in
    rw r.done (
      IsLaid-cons size sizes n h.current_heap_ptr h.remaining_heap h' _ _ r.row_placed
        (r.same_length ∙ len) ep el
        (init_rows-IsLaid sizes n h' rows tail (omega (arith, el)) (omega (arith, ep))))
