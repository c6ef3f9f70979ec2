-- ===== src/Memory/Frames.antt =====
-- kernel/mm/frames.c: 1024 page frames behind a bitmap of 32-bit words, one bit to a frame.
pub mod Scan
pub mod Accounting
pub mod Calls
mod Tests
use lugh_os.Base.{
  ℕ, zero, suc, ◌+◌, ◌-◌, ◌*◌, ◌/◌, ◌%◌, ◌^◌, ltb, leb, ◌==◌, if◌then◌else◌, Bool, not, ◌&&◌, List,
  get_or, set, replicate, bit_and, bit_or,
}
use lugh_os.Base.Bits.{bit, complement}

abbrev pub pool_base : ℕ
pool_base = 0x200000

abbrev pub pool_frames : ℕ
pool_frames = 1024

abbrev pub frame_size : ℕ
frame_size = 4096

abbrev pub bitmap_words : ℕ
bitmap_words = (pool_frames + 31) / 32

-- `frame_bitmap` and `frames_free`
pub record Frames : Type 0 where
  pub bitmap : List ℕ
  pub free : ℕ

pub frame_allocator_init : Frames
frame_allocator_init = record { bitmap = replicate bitmap_words 0; free = pool_frames }

abbrev pub word_at : Frames → ℕ → ℕ
word_at s i = get_or s.bitmap (i / 32) 0

-- `(frame_bitmap[word] & (1u << bit)) == 0u`
abbrev pub is_clear : Frames → ℕ → Bool
is_clear s i = bit_and (word_at s i) (2 ^ (i % 32)) == 0

pub mark : Frames → ℕ → Frames
mark s i = record {
  bitmap = set s.bitmap (i / 32) (bit_or (word_at s i) (2 ^ (i % 32)));
  free = (s.free + 2 ^ 32 - 1) % 2 ^ 32;
}

pub unmark : Frames → ℕ → Frames
unmark s i = record {
  bitmap = set s.bitmap (i / 32) (bit_and (word_at s i) (complement 32 (2 ^ (i % 32))));
  free = (s.free + 1) % 2 ^ 32;
}

abbrev pub address : ℕ → ℕ
address i = (pool_base + i * frame_size) % 2 ^ 32

-- The scan of `alloc_frame` from frame `i`, with `n` frames to go.
pub alloc_from : ℕ → ℕ → Frames → ℕ × Frames
alloc_from zero i s = (0, s)
alloc_from (suc n) i s =
    let rest = alloc_from n (suc i) s in if is_clear s i then (address i, mark s i) else rest

pub alloc_frame : Frames → ℕ × Frames
alloc_frame s = alloc_from pool_frames 0 s

-- Each refused address leaves the bitmap alone.
pub free_frame : Frames → ℕ → Frames
free_frame s addr =
    let idx = (addr - pool_base) / frame_size in
    if ltb addr pool_base
    then s
    else if not (bit_and addr (frame_size - 1) == 0)
    then s
    else if leb pool_frames idx
    then s
    else if is_clear s idx
    then s
    else unmark s idx

pub frame_count_free : Frames → ℕ
frame_count_free s = s.free

-- Frame `i` is handed out: its bit is set.
abbrev pub is_used : Frames → ℕ → Bool
is_used s i = bit (word_at s i) (i % 32)
