-- ===== src/Memory/Frames/Accounting.antt =====
-- The counter `frames_free` against the bitmap (kernel/mm/frames.c).
use lugh_os.Base.{
  ℕ, suc, ◌+◌, ◌-◌, ◌*◌, ◌/◌, ◌%◌, ◌<◌, ◌==◌, if◌then◌else◌, Bool, true, false, not, get_or,
  replicate, get_or-replicate, length-replicate, bit_and, ◌≡◌, sym, refl, ◌⊎◌, inl, inr, ◌∙◌,
  Bool-cases, arith, ltb, leb,
}
use lugh_os.Base.Bits.{bit-zero}
use lugh_os.Base.Masks.{bit_and-mask}
use lugh_os.Base.Count.{count, count_flip, count-le, count_full, count_none}
use lugh_os.Memory.Frames.{
  Frames, is_clear, is_used, mark, unmark, alloc_frame, free_frame, pool_frames,
  frame_allocator_init, bitmap_words, pool_base, frame_size,
}
use lugh_os.Memory.Frames.Scan.{
  IsSized, is_clear-used, is_used-mark, is_used-unmark, mark-IsSized, unmark-IsSized,
  alloc_from-Scanned,
}

abbrev pub unused : Frames → ℕ → Bool
unused s i = not (is_used s i)

pub record IsValid (s : Frames) : Type 0 where
  pub sized : IsSized s
  pub counted : s.free ≡ count (unused s) pool_frames

fresh_unused : (i : ℕ) → unused frame_allocator_init i ≡ true
unfolding frame_allocator_init
fresh_unused i =
    let e : get_or (replicate bitmap_words 0) (i / 32) 0 ≡ 0 =
      get_or-replicate {A = ℕ} bitmap_words (i / 32) 0 in
    rw (e, bit-zero (i % 32))

pub frame_allocator_init-IsValid : IsValid frame_allocator_init
unfolding frame_allocator_init
frame_allocator_init-IsValid = record {
  sized = record {
    words = length-replicate {A = ℕ} bitmap_words 0;
    small = λ j. omega (arith, get_or-replicate {A = ℕ} bitmap_words j 0);
  };
  counted = sym (count_full _ pool_frames (λ i h. fresh_unused i));
}

-- Marking a frame takes one off the count of unused frames, unmarking it puts one back.
count-mark :
    (s : Frames) (k : ℕ)
    → IsSized s
    → k < pool_frames
    → is_used s k ≡ false
    → count (unused s) pool_frames ≡ suc (count (unused (mark s k)) pool_frames)
count-mark s k v l f =
    count_flip (unused s) (unused (mark s k)) k pool_frames l
      (λ i m ne. ground (arith, is_used-mark s k i v l)) (rw f)
      (ground (arith, is_used-mark s k k v l))

count-unmark :
    (s : Frames) (k : ℕ)
    → IsSized s
    → k < pool_frames
    → is_used s k ≡ true
    → count (unused (unmark s k)) pool_frames ≡ suc (count (unused s) pool_frames)
count-unmark s k v l f =
    count_flip (unused (unmark s k)) (unused s) k pool_frames l
      (λ i m ne. ground (arith, is_used-unmark s k i v l))
      (ground (arith, is_used-unmark s k k v l)) (rw f)

pub free-mark :
    (s : Frames) (k : ℕ)
    → IsValid s
    → k < pool_frames
    → is_used s k ≡ false
    → suc (mark s k).free ≡ s.free
unfolding mark
free-mark s k v l f =
    ground (arith, v.counted, count-le (unused s) pool_frames, count-mark s k v.sized l f)

pub free-unmark :
    (s : Frames) (k : ℕ)
    → IsValid s
    → k < pool_frames
    → is_used s k ≡ true
    → (unmark s k).free ≡ suc s.free
unfolding unmark
free-unmark s k v l f =
    ground
      (arith, v.counted, count-le (unused (unmark s k)) pool_frames, count-unmark s k v.sized l f)

pub mark-IsValid :
    (s : Frames) (k : ℕ) → IsValid s → k < pool_frames → is_used s k ≡ false → IsValid (mark s k)
mark-IsValid s k v l f = record {
  sized = mark-IsSized s k v.sized l;
  counted = omega (arith, v.counted, free-mark s k v l f, count-mark s k v.sized l f);
}

pub unmark-IsValid :
    (s : Frames) (k : ℕ) → IsValid s → k < pool_frames → is_used s k ≡ true → IsValid (unmark s k)
unmark-IsValid s k v l f = record {
  sized = unmark-IsSized s k v.sized l;
  counted = omega (arith, v.counted, free-unmark s k v l f, count-unmark s k v.sized l f);
}

-- What a call of `alloc_frame` tells the client, and what it changes.
abbrev pub Allocated : Frames → ℕ × Frames → Type 0
Allocated s out =
    ((s.free ≡ 0) × (out ≡ (0, s)))
    ⊎ ((k : ℕ) × (k < pool_frames)
        × (out.0 ≡ pool_base + k * frame_size)
        × (is_used s k ≡ false)
        × ((j : ℕ) → j < k → is_used s j ≡ true)
        × ((j : ℕ) → is_used out.1 j ≡ (if k == j then true else is_used s j))
        × (suc out.1.free ≡ s.free))

-- `alloc_frame` on an allocator in a valid state: it returns 0 and changes nothing exactly when no
-- frame is free; otherwise it returns the address of the lowest free frame, that frame and no
-- other becomes used, and the count of free frames falls by one.
pub alloc_frame_lem : (s : Frames) → IsValid s → Allocated s (alloc_frame s)
unfolding alloc_frame
alloc_frame_lem s v = elim (alloc_from-Scanned pool_frames 0 s) [
  | inl (all, e) ↦
      inl (v.counted ∙ count_none _ pool_frames (λ j m. rw (all j (omega arith) (omega arith))), e)
  | inr (k, l, u, f, below, e) ↦ rw e (
      inr (
        k,
        omega arith,
        omega arith,
        f,
        λ j m. below j (omega arith) m,
        λ j. is_used-mark s k j v.sized (omega arith),
        free-mark s k v (omega arith) f,
      ))
]

-- `frame_count_free` reports the number of clear bits of the bitmap, and a call of `alloc_frame`
-- keeps the state valid.
pub alloc_frame-IsValid : (s : Frames) → IsValid s → IsValid (alloc_frame s).1
unfolding alloc_frame
alloc_frame-IsValid s v = elim (alloc_from-Scanned pool_frames 0 s) [
  | inl (all, e) ↦ rw e v
  | inr (k, l, u, f, below, e) ↦ rw e (mark-IsValid s k v (omega arith) f)
]

-- The frame that an address names is given back, if it is in use; else nothing changes.
abbrev pub Freed : Frames → ℕ → Frames → Type 0
Freed s addr t =
    (((k : ℕ) → k < pool_frames → addr ≡ pool_base + k * frame_size → is_used s k ≡ false)
      × (t ≡ s))
    ⊎ ((k : ℕ) × (k < pool_frames)
        × (addr ≡ pool_base + k * frame_size)
        × (is_used s k ≡ true)
        × (t ≡ unmark s k))

-- `free_frame` clears the one frame that its address names, if that frame is in use; for any other
-- address, a free frame's or one that names no frame, it changes nothing.
pub free_frame-Freed : (s : Frames) (addr : ℕ) → Freed s addr (free_frame s addr)
unfolding free_frame
free_frame-Freed s addr =
    let k = (addr - pool_base) / frame_size in
    elim (Bool-cases (ltb addr pool_base)) [
      | inl a ↦ rw a (inl (λ j l e. ground arith, refl))
      | inr a ↦ elim (Bool-cases (bit_and addr (frame_size - 1) == 0)) [
        | inr b ↦ rw (a, b) (inl (λ j l e. ground (arith, bit_and-mask 12 addr), refl))
        | inl b ↦ elim (Bool-cases (leb pool_frames k)) [
          | inl c ↦ rw (a, b, c) (inl (λ j l e. ground arith, refl))
          | inr c ↦ elim (Bool-cases (is_clear s k)) [
            | inl d ↦
                rw (a, b, c, d)
                  (inl (
                    λ j l e.
                        let same : k ≡ j = omega (arith, e) in
                        ground (arith, same, is_clear-used s k),
                    refl,
                  ))
            | inr d ↦
                rw (a, b, c, d)
                  (inr (
                    k,
                    ground arith,
                    ground (arith, bit_and-mask 12 addr),
                    ground (arith, is_clear-used s k),
                    refl,
                  ))
          ]
        ]
      ]
    ]
