-- ===== src/Memory/Frames/Scan.antt =====
-- The scan of `alloc_frame` and the bits that it tests and sets (kernel/mm/frames.c).
use lugh_os.Base.{
  ℕ, zero, suc, ◌+◌, ◌/◌, ◌%◌, ◌^◌, ◌≤◌, ◌<◌, ◌==◌, if◌then◌else◌, true, false, not, get_or, length,
  get_or-set, bit_or, bit_and, ◌≡◌, refl, ◌⊎◌, inl, inr, Bool-cases, arith, length-set,
}
use native.Mathlib.Nat.{pow-le-pow_right}
use lugh_os.Base.Bits.{complement}
use lugh_os.Base.Masks.{bit-set, bit-clear, test-bit, bit_or-lt, bit_and-lt}
use lugh_os.Memory.Frames.{
  Frames, word_at, is_clear, is_used, mark, unmark, address, alloc_from, bitmap_words, pool_frames,
}

-- The bitmap has its words, and each is a 32-bit value.
pub record IsSized (s : Frames) : Type 0 where
  pub words : length s.bitmap ≡ bitmap_words
  pub small : (j : ℕ) → get_or s.bitmap j 0 < 2 ^ 32

pub is_clear-used : (s : Frames) (i : ℕ) → is_clear s i ≡ not (is_used s i)
is_clear-used s i = test-bit (word_at s i) (i % 32)

-- Marking sets the frame's own bit and no other.
pub is_used-mark :
    (s : Frames) (i j : ℕ)
    → IsSized s
    → i < pool_frames
    → is_used (mark s i) j ≡ (if i == j then true else is_used s j)
unfolding mark
is_used-mark s i j v h =
    let w = bit_or (word_at s i) (2 ^ (i % 32)) in
    ground (
      arith,
      v.words,
      get_or-set s.bitmap (i / 32) (j / 32) w 0,
      bit-set (word_at s i) (i % 32) (j % 32),
    )

pow-lt : (k : ℕ) → k < 32 → 2 ^ k < 2 ^ 32
pow-lt k h =
    let e : 2 ^ k ≤ 2 ^ 31 =
      pow-le-pow_right {n = 2} (omega arith) {i = k} {j = 31} (omega arith) in
    omega arith

-- Clearing clears the frame's own bit and no other.
pub is_used-unmark :
    (s : Frames) (i j : ℕ)
    → IsSized s
    → i < pool_frames
    → is_used (unmark s i) j ≡ (if i == j then false else is_used s j)
unfolding unmark
is_used-unmark s i j v h =
    let w = bit_and (word_at s i) (complement 32 (2 ^ (i % 32))) in
    ground (
      arith,
      v.words,
      get_or-set s.bitmap (i / 32) (j / 32) w 0,
      bit-clear 32 (word_at s i) (i % 32) (j % 32) (v.small (i / 32))
          (pow-lt (i % 32) (omega arith)),
    )

pub mark-IsSized : (s : Frames) (i : ℕ) → IsSized s → i < pool_frames → IsSized (mark s i)
unfolding mark
mark-IsSized s i v h =
    let w = bit_or (word_at s i) (2 ^ (i % 32)) in
    record {
      words = omega (arith, length-set s.bitmap (i / 32) w, v.words);
      small = λ j. ground (
        arith,
        v.words,
        get_or-set s.bitmap (i / 32) j w 0,
        v.small j,
        bit_or-lt 32 (word_at s i) (2 ^ (i % 32)) (v.small (i / 32))
            (pow-lt (i % 32) (omega arith)),
      );
    }

pub unmark-IsSized : (s : Frames) (i : ℕ) → IsSized s → i < pool_frames → IsSized (unmark s i)
unfolding unmark
unmark-IsSized s i v h =
    let m = complement 32 (2 ^ (i % 32)) in
    let w = bit_and (word_at s i) m in
    record {
      words = omega (arith, length-set s.bitmap (i / 32) w, v.words);
      small = λ j. ground (
        arith,
        v.words,
        get_or-set s.bitmap (i / 32) j w 0,
        v.small j,
        bit_and-lt 32 (word_at s i) m (v.small (i / 32)),
      );
    }

-- How a scan of `n` frames from `i` ends: it has passed used frames only, or it stopped at the
-- first frame that is not used.
abbrev pub Scanned : ℕ → ℕ → Frames → ℕ × Frames → Type 0
Scanned n i s out =
    (((j : ℕ) → i ≤ j → j < i + n → is_used s j ≡ true) × (out ≡ (0, s)))
    ⊎ ((k : ℕ) × (i ≤ k)
        × (k < i + n)
        × (is_used s k ≡ false)
        × ((j : ℕ) → i ≤ j → j < k → is_used s j ≡ true)
        × (out ≡ (address k, mark s k)))

pub alloc_from-Scanned : (n i : ℕ) (s : Frames) → Scanned n i s (alloc_from n i s)
unfolding alloc_from
alloc_from-Scanned zero i s = inl (λ j p q. absurd (omega arith), refl)
alloc_from-Scanned (suc n) i s = elim (Bool-cases (is_clear s i)) [
  | inl c ↦ inr (
    i,
    omega arith,
    omega arith,
    ground (arith, is_clear-used s i),
    λ j p q. absurd (omega arith),
    rw c,
  )
  | inr c ↦
      let here : is_used s i ≡ true = ground (arith, is_clear-used s i) in
      elim (alloc_from-Scanned n (suc i) s) [
        | inl (all, e) ↦ inl (λ j p q. grind (arith, all), rw c e)
        | inr (k, l, u, f, all, e) ↦
            inr (k, omega arith, omega arith, f, λ j p q. grind (arith, all), rw c e)
      ]
]
