-- ===== src/Memory/Frames/Calls.antt =====
-- Sequences of calls of the frame allocator (kernel/mm/frames.c).
use lugh_os.Base.{
  ℕ, ◌+◌, ◌*◌, ◌/◌, ◌%◌, ◌<◌, true, false, get_or, List, [], ◌∷◌, ◌≡◌, ◌≢◌, inl, inr, ◌∙◌, arith,
  get_or_ext,
}
use lugh_os.Base.Count.{count_none}
use native.Mathlib.Decide.{dec_lt}
use lugh_os.Base.Bits.{bit, bit_ext}
use lugh_os.Base.Masks.{bit_high}
use lugh_os.Memory.Frames.{
  Frames, is_used, mark, unmark, address, alloc_frame, free_frame, pool_frames,
  frame_allocator_init,
}
use lugh_os.Memory.Frames.Scan.{
  IsSized, is_used-mark, is_used-unmark, mark-IsSized, unmark-IsSized, alloc_from-Scanned,
}
use lugh_os.Memory.Frames.Accounting.{
  IsValid, frame_allocator_init-IsValid, alloc_frame-IsValid, mark-IsValid, unmark-IsValid,
  free_frame-Freed, free-mark, free-unmark,
}

pub data Call : Type 0 where
  alloc : Call
  release : ℕ → Call

pub step : Frames → Call → Frames
step s alloc = (alloc_frame s).1
step s (release addr) = free_frame s addr

pub run : Frames → List Call → Frames
run s [] = s
run s (c ∷ cs) = run (step s c) cs

-- `free_frame` keeps the counter equal to the number of clear bits, whatever address it is given.
pub free_frame-IsValid : (s : Frames) (addr : ℕ) → IsValid s → IsValid (free_frame s addr)
free_frame-IsValid s addr v = elim (free_frame-Freed s addr) [
  | inl (_, e) ↦ rw e v
  | inr (k, l, _, u, e) ↦ rw e (unmark-IsValid s k v l u)
]

run-IsValid : (s : Frames) (cs : List Call) → IsValid s → IsValid (run s cs)
unfolding run step
run-IsValid s [] v = v
run-IsValid s (alloc ∷ cs) v = run-IsValid (alloc_frame s).1 cs (alloc_frame-IsValid s v)
run-IsValid s (release addr ∷ cs) v =
    run-IsValid (free_frame s addr) cs (free_frame-IsValid s addr v)

-- After any sequence of allocations and releases, also of bad addresses, `frames_free` is the
-- number of frames whose bit is clear.
pub run_init-IsValid : (cs : List Call) → IsValid (run frame_allocator_init cs)
run_init-IsValid cs = run-IsValid _ cs frame_allocator_init-IsValid

same_bit :
    (s t : Frames)
    → IsSized s
    → IsSized t
    → ((i : ℕ) → is_used s i ≡ is_used t i)
    → (j i : ℕ) → bit (get_or s.bitmap j 0) i ≡ bit (get_or t.bitmap j 0) i
same_bit s t v w h j i = elim (dec_lt i 32) [
  | yes l ↦
      let word : (j * 32 + i) / 32 ≡ j = omega arith in
      let index : (j * 32 + i) % 32 ≡ i = omega arith in ground (arith, h (j * 32 + i), word, index)
  | no l ↦ ground (arith, bit_high 32 _ i (v.small j), bit_high 32 _ i (w.small j))
]

-- Two sized bitmaps that agree on each frame are the same bitmap.
bitmap_ext :
    (s t : Frames)
    → IsSized s
    → IsSized t
    → ((i : ℕ) → is_used s i ≡ is_used t i)
    → s.bitmap ≡ t.bitmap
bitmap_ext s t v w h =
    get_or_ext 0 s.bitmap t.bitmap (omega (arith, v.words, w.words))
      (λ j. bit_ext _ _ (same_bit s t v w h j))

unmark-mark :
    (s : Frames) (k : ℕ)
    → IsValid s
    → k < pool_frames
    → is_used s k ≡ false
    → unmark (mark s k) k ≡ s
unmark-mark s k v l f =
    let m = mark s k in
    let sized = mark-IsSized s k v.sized l in
    let set_bit : is_used m k ≡ true = ground (arith, is_used-mark s k k v.sized l) in
    let bits =
      bitmap_ext (unmark m k) s (unmark-IsSized m k sized l) v.sized
        (λ i. ground (arith, is_used-unmark m k i sized l, is_used-mark s k i v.sized l)) in
    let number : (unmark m k).free ≡ s.free =
      omega (arith, free-unmark m k (mark-IsValid s k v l f) l set_bit, free-mark s k v l f) in
    λ i. record { bitmap = bits i; free = number i }

-- In a valid state with a free frame, giving back the frame that `alloc_frame` returned restores
-- the allocator exactly, bitmap and counter.
pub free_frame-alloc_frame :
    (s : Frames) → IsValid s → s.free ≢ 0 → free_frame (alloc_frame s).1 (alloc_frame s).0 ≡ s
unfolding alloc_frame
free_frame-alloc_frame s v some_free = elim (alloc_from-Scanned pool_frames 0 s) [
  | inl (all, e) ↦ absurd (
      some_free
        (v.counted ∙ count_none _ pool_frames (λ j m. rw (all j (omega arith) (omega arith)))))
  | inr (k, l, u, f, below, e) ↦ rw e (elim (free_frame-Freed (mark s k) (address k)) [
    | inl (h, _) ↦
        ground (arith, h k (omega arith) (omega arith), is_used-mark s k k v.sized (omega arith))
    | inr (j, lj, ej, uj, ef) ↦
        let same : j ≡ k = omega (arith, ej) in rw (ef, same) (unmark-mark s k v (omega arith) f)
  ])
]
