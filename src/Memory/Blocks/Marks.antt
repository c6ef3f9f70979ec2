-- ===== src/Memory/Blocks/Marks.antt =====
-- kernel/mm/memory.c: one mark of the table of blocks changes.
use lugh_os.Base.{
  ℕ, zero, suc, ◌<◌, ◌==◌, if◌then◌else◌, Bool, false, List, [], ◌∷◌, get_or, set, length, ◌≡◌, ◌≢◌,
  refl, sym, ap, subst, ◌∙◌, arith, inl, inr, ◌⊎◌, ==_refl, ==_ne, get_or-set_self, get_or-set_ne,
  get_or-set, length-set,
}
use lugh_os.Memory.Blocks.{
  Block, empty_block, Heap, block_at, mem_block_sizes, mem_blocks_per_size, with_use,
}
use lugh_os.Memory.Blocks.Layout.{IsTable}
use lugh_os.Memory.Blocks.Placed.{IsPlaced, Index}

eq_cases : (a b : ℕ) → (a ≡ b) ⊎ (a ≢ b)
eq_cases a b = ground arith

-- Two places of the table, the same or not.
pub place_cases : (c i d j : ℕ) → ((c ≡ d) × (i ≡ j)) ⊎ ((c ≡ d) × (i ≡ j) → ⊥)
place_cases c i d j = ground arith

abbrev pub entry : List (List Block) → ℕ → ℕ → Block
entry rows c i = get_or (get_or rows c []) i empty_block

-- A write of one element in a table of rows.
abbrev write : List (List Block) → ℕ → ℕ → Block → List (List Block)
write rows c i b = set rows c (set (get_or rows c []) i b)

entry-write_self :
    (rows : List (List Block)) (c i j : ℕ) (b : Block)
    → c < length rows
    → i < length (get_or rows c [])
    → entry (write rows c i b) c j ≡ (if i == j then b else entry rows c j)
entry-write_self rows c i j b lc li =
    ap (λ r. get_or r j empty_block) (get_or-set_self rows c (set (get_or rows c []) i b) [] lc)
    ∙ get_or-set (get_or rows c []) i j b empty_block li

entry-write_ne :
    (rows : List (List Block)) (c i d j : ℕ) (b : Block)
    → c ≢ d
    → entry (write rows c i b) d j ≡ entry rows d j
entry-write_ne rows c i d j b n =
    ap (λ r. get_or r j empty_block) (get_or-set_ne rows c d (set (get_or rows c []) i b) [] n)

length-write :
    (rows : List (List Block)) (c i d : ℕ) (b : Block)
    → length (get_or (write rows c i b) d []) ≡ length (get_or rows d [])
length-write [] c i d b = refl
length-write (r ∷ rows) zero i zero b = length-set r i b
length-write (r ∷ rows) zero i (suc d) b = refl
length-write (r ∷ rows) (suc c) i zero b = refl
length-write (r ∷ rows) (suc c) i (suc d) b = length-write rows c i d b

write-IsTable :
    (k n : ℕ) (rows : List (List Block)) (c i : ℕ) (b : Block)
    → IsTable k n rows
    → IsTable k n (write rows c i b)
write-IsTable k n rows c i b t = record {
  classes = length-set rows c (set (get_or rows c []) i b) ∙ t.classes;
  blocks = λ d. λ m. length-write rows c i d b ∙ t.blocks d m;
}

-- The table after one mark has changed: a block keeps its address and its size, and its mark
-- unless it is the one.
pub record IsMarked (h h' : Heap) (c i : ℕ) (used : Bool) : Type 0 where
  pub table : IsTable mem_block_sizes mem_blocks_per_size h'.memory_blocks
  pub this : block_at h' c i ≡ record (block_at h c i) { in_use = used }
  pub others : (d j : ℕ) → ((c ≡ d) × (i ≡ j) → ⊥) → block_at h' d j ≡ block_at h d j

pub with_use-IsMarked :
    (h h' : Heap) (c i : ℕ) (used : Bool)
    → IsTable mem_block_sizes mem_blocks_per_size h.memory_blocks
    → Index c i
    → h'.memory_blocks ≡ with_use h c i used
    → IsMarked h h' c i used
with_use-IsMarked h h' c i used t (lc, li) e = record {
  table =
      subst (IsTable mem_block_sizes mem_blocks_per_size) (sym e) (write-IsTable _ _ rows c i b t);
  this =
      ap (λ r. entry r c i) e ∙ entry-write_self rows c i i b in_rows in_row ∙ rw (==_refl i) refl;
  others = λ d. λ j. λ n. ap (λ r. entry r d j) e ∙ other d j n;
}
  where
    rows : List (List Block)
    rows = h.memory_blocks

    b : Block
    b = record (block_at h c i) { in_use = used }

    in_rows : c < length rows
    in_rows = omega (arith, t.classes)

    in_row : i < length (get_or rows c [])
    in_row = omega (arith, t.blocks c lc)

    other : (d j : ℕ) → ((c ≡ d) × (i ≡ j) → ⊥) → entry (write rows c i b) d j ≡ entry rows d j
    other d j n = elim (eq_cases c d) [
      | inr ne ↦ entry-write_ne rows c i d j b ne
      | inl e ↦
          subst (λ x. entry (write rows c i b) x j ≡ entry rows x j) e
            (entry-write_self rows c i j b in_rows in_row ∙ rw (==_ne i j (λ e'. n (e, e'))) refl)
    ]

abbrev pub unmarked : Block → Block
unmarked b = record b { in_use = false }

pub IsMarked-IsPlaced :
    (h h' : Heap) (c i : ℕ) (used : Bool) → IsMarked h h' c i used → IsPlaced h → IsPlaced h'
IsMarked-IsPlaced h h' c i used m p = record {
  table = m.table;
  placed = λ d. λ j. λ x. ap (λ b. b.address) (kept d j) ∙ p.placed d j x;
  sized = λ d. λ j. λ x. ap (λ b. b.size) (kept d j) ∙ p.sized d j x;
}
  where
    kept : (d j : ℕ) → unmarked (block_at h' d j) ≡ unmarked (block_at h d j)
    kept d j = elim (place_cases c i d j) [
      | inr n ↦ ap unmarked (m.others d j n)
      | inl (ec, ei) ↦
          subst (λ x. kept_at x j) ec (subst (λ y. kept_at c y) ei (ap unmarked m.this))
    ]
      where
        kept_at : ℕ → ℕ → Type 0
        kept_at x y = unmarked (block_at h' x y) ≡ unmarked (block_at h x y)
