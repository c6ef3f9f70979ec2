-- ===== src/Memory/Blocks/Boot.antt =====
-- A heap as the C declarations of kernel/mm/memory.c set it, for runs.
use lugh_os.Base.{ℕ, zero, suc, ◌-◌, ◌<◌, [], ◌≡◌, refl, arith, replicate, length, get_or}
use lugh_os.Memory.Blocks.{Heap, empty_block, heap_start, heap_end, memory_init}
use lugh_os.Memory.Blocks.Layout.{IsTable}
use lugh_os.Memory.Blocks.Placed.{IsPlaced, IsFresh, memory_init_lem}

abbrev pub fresh : Heap
fresh = record {
  memory_blocks = replicate 4 (replicate 32 empty_block);
  current_heap_ptr = heap_start;
  remaining_heap = heap_end - heap_start;
  bytes = λ x. 7;
}

fresh-IsTable : IsTable 4 32 (replicate 4 (replicate 32 empty_block))
fresh-IsTable = record { classes = refl; blocks = λ c. λ l. row c l }
  where
    row : (c : ℕ) → c < 4 → length (get_or (replicate 4 (replicate 32 empty_block)) c []) ≡ 32
    row zero l = refl
    row (suc zero) l = refl
    row (suc (suc zero)) l = refl
    row (suc (suc (suc zero))) l = refl
    row (suc (suc (suc (suc c)))) l = absurd (omega arith)

pub fresh-IsFresh : IsFresh fresh
fresh-IsFresh = record { table = fresh-IsTable; pointer = refl; left = refl }

pub booted-IsPlaced : IsPlaced (memory_init fresh)
booted-IsPlaced = (memory_init_lem fresh fresh-IsFresh).0
