-- ===== src/Memory/Frames/Tests.antt =====
-- Runs of kernel/mm/frames.c on small cases.
use lugh_os.Base.{◌+◌, ◌≡◌, ◌≢◌, refl, [], ◌∷◌, arith}
use lugh_os.Memory.Frames.{
  pool_base, frame_size, frame_allocator_init, alloc_from, mark, alloc_frame, free_frame,
  frame_count_free,
}
use lugh_os.Memory.Frames.Accounting.{
  IsValid, Allocated, frame_allocator_init-IsValid, alloc_frame_lem,
}
use lugh_os.Memory.Frames.Calls.{alloc, release, run, run_init-IsValid, free_frame-alloc_frame}

first_frame : (alloc_frame frame_allocator_init).0 ≡ pool_base
unfolding frame_allocator_init alloc_frame alloc_from
first_frame = refl

second_frame : (alloc_frame (alloc_frame frame_allocator_init).1).0 ≡ pool_base + frame_size
unfolding frame_allocator_init alloc_frame alloc_from mark
second_frame = refl

one_used : frame_count_free (alloc_frame frame_allocator_init).1 ≡ 1023
unfolding frame_allocator_init alloc_frame alloc_from mark frame_count_free
one_used = refl

init_free : frame_allocator_init.free ≢ 0
unfolding frame_allocator_init
init_free e = absurd (omega arith)

alloc_frame_lem_example : Allocated frame_allocator_init (alloc_frame frame_allocator_init)
alloc_frame_lem_example = alloc_frame_lem frame_allocator_init frame_allocator_init-IsValid

run_init-IsValid_example :
    IsValid (run frame_allocator_init (alloc ∷ release 5 ∷ release pool_base ∷ []))
run_init-IsValid_example = run_init-IsValid (alloc ∷ release 5 ∷ release pool_base ∷ [])

free_frame-alloc_frame_example :
    free_frame (alloc_frame frame_allocator_init).1 (alloc_frame frame_allocator_init).0
    ≡ frame_allocator_init
free_frame-alloc_frame_example =
    free_frame-alloc_frame frame_allocator_init frame_allocator_init-IsValid init_free
