-- ===== src/Memory/Blocks/Tests.antt =====
-- Runs of the block allocator (kernel/mm/memory.c) on a fresh heap.
use lugh_os.Base.{ℕ, ◌+◌, false, [], ◌∷◌, ◌≡◌, refl, arith}
use lugh_os.Memory.Blocks.{
  block_at, heap_end, init_row, init_rows, memory_init, find_size_class, alloc_in, alloc_memory,
  find_live, free_memory,
}
use lugh_os.Memory.Blocks.Placed.{IsPlaced, Index, class_start, memory_init_lem}
use lugh_os.Memory.Blocks.Alloc.{Request, alloc_memory_lem}
use lugh_os.Memory.Blocks.Runs.{
  IsOwn, alloc, release, run, step, alloc_memory-IsOwn, free_memory-alloc_memory,
}
use lugh_os.Memory.Blocks.Boot.{fresh, fresh-IsFresh, booted-IsPlaced}

-- The second block of 256 bytes stands behind the 32 blocks of 64 bytes and the first of 256.
second_block : (alloc_memory (run (memory_init fresh) (alloc 200 ∷ [])) 100).0 ≡ 0x800900
unfolding memory_init init_rows init_row alloc_memory find_size_class alloc_in run step
second_block = refl

freed_block :
    (alloc_memory (run (memory_init fresh) (alloc 200 ∷ release 0x800800 ∷ [])) 100).0 ≡ 0x800800
unfolding memory_init init_rows init_row alloc_memory find_size_class alloc_in run step free_memory
    find_live
freed_block = refl

too_large : (alloc_memory (memory_init fresh) 4097).0 ≡ 0
unfolding alloc_memory
too_large = refl

memory_init_lem_example :
    IsPlaced (memory_init fresh)
    × ((c i : ℕ) → Index c i → (block_at (memory_init fresh) c i).in_use ≡ false)
    × ((memory_init fresh).current_heap_ptr ≡ class_start 4)
    × ((memory_init fresh).current_heap_ptr + (memory_init fresh).remaining_heap ≡ heap_end)
memory_init_lem_example = memory_init_lem fresh fresh-IsFresh

alloc_memory_lem_example : Request (memory_init fresh) 100 (alloc_memory (memory_init fresh) 100)
alloc_memory_lem_example = alloc_memory_lem (memory_init fresh) 100 booted-IsPlaced

alloc_memory-IsOwn_example :
    IsOwn
      (run (memory_init fresh) (alloc 200 ∷ []))
      100
      (alloc_memory (run (memory_init fresh) (alloc 200 ∷ [])) 100).0
      (alloc_memory (run (memory_init fresh) (alloc 200 ∷ [])) 100).1
alloc_memory-IsOwn_example =
    alloc_memory-IsOwn fresh (alloc 200 ∷ []) 100 fresh-IsFresh
      (λ e. omega (arith, e, second_block))

first_block : (alloc_memory (memory_init fresh) 100).0 ≡ 0x800800
unfolding memory_init init_rows init_row alloc_memory find_size_class alloc_in
first_block = refl

free_memory-alloc_memory_example :
    block_at
      (free_memory
        (alloc_memory (memory_init fresh) 100).1
        (alloc_memory (memory_init fresh) 100).0)
      1
      0
    ≡ block_at (memory_init fresh) 1 0
free_memory-alloc_memory_example =
    free_memory-alloc_memory (memory_init fresh) 100 booted-IsPlaced
      (λ e. omega (arith, e, first_block)) 1 0 (omega arith, omega arith)
