-- ===== src/Memory.antt =====
-- kernel/mm: the page frame allocator of kernel/mm/frames.c.
pub mod Blocks
pub mod Frames
