-- ===== src/Scheduler/HotSwap.antt =====
-- services/scheduler/round_robin.c: the cursor handed to the next scheduler as the bytes of an int.
use lugh_os.Base.{
  ℕ, ◌-◌, ◌%◌, ◌^◌, ◌<◌, ltb, if◌then◌else◌, ℤ, pos, negsuc, neg, to_u32, ◌≡◌, ap, ◌∙◌, List, ◌++◌,
  take, drop, Option, none, some, arith, true, false, refl,
}
use lugh_os.Telemetry.Wire.{le_bytes, of_bytes, of_bytes-le_bytes}

-- What `rr_get_state` returns and leaves: `rv`, the bytes at `buf` and `*size`.
pub record Saved : Type 0 where
  pub rv : ℤ
  pub buffer : Option (List ℕ)
  pub size : Option ℕ

-- `sizeof(int)`
abbrev pub int_size : ℕ
int_size = 4

-- A NULL pointer is `none`; a buffer too small is answered with the size it must have.
pub rr_get_state : ℤ → Option (List ℕ) → Option ℕ → Saved
rr_get_state c none size = record { rv = neg 1; buffer = none; size = size }
rr_get_state c (some buf) none = record { rv = neg 1; buffer = some buf; size = none }
rr_get_state c (some buf) (some n) =
    if ltb n int_size
    then record { rv = neg 1; buffer = some buf; size = some int_size }
    else record {
      rv = pos 0;
      buffer = some (le_bytes int_size (to_u32 c) ++ drop int_size buf);
      size = some int_size;
    }

-- The int of a 32-bit word, in two's complement.
abbrev pub int_of : ℕ → ℤ
int_of w = if ltb w (2 ^ 31) then pos w else negsuc (2 ^ 32 - 1 - w)

-- Any four bytes are taken as the cursor.
pub rr_set_state : ℤ → Option (List ℕ) → ℕ → ℤ × ℤ
rr_set_state c none size = (neg 1, c)
rr_set_state c (some buf) size =
    if ltb size int_size then (neg 1, c) else (pos 0, int_of (of_bytes (take int_size buf)))

-- The values of a C int.
abbrev pub IsInt : ℤ → Type 0
IsInt (pos n) = n < 2 ^ 31
IsInt (negsuc n) = n < 2 ^ 31

int_of-to_u32 : (c : ℤ) → IsInt c → int_of (to_u32 c) ≡ c
int_of-to_u32 (pos n) h =
    let e : n % 2 ^ 32 ≡ n = omega (arith, h) in
    let t : ltb n (2 ^ 31) ≡ true = ground (arith, h) in rw e (rw t refl)
int_of-to_u32 (negsuc n) h =
    let e : n % 2 ^ 32 ≡ n = omega (arith, h) in
    let t : ltb (2 ^ 32 - 1 - n) (2 ^ 31) ≡ false = ground (arith, h) in
    let back : 2 ^ 32 - 1 - (2 ^ 32 - 1 - n) ≡ n = omega (arith, h) in rw e (rw t (ap negsuc back))

to_u32-bound : (c : ℤ) → to_u32 c < 2 ^ 32
to_u32-bound (pos n) = omega arith
to_u32-bound (negsuc n) = omega arith

-- Where the buffer has room for an int, the next scheduler, whatever its own cursor, takes over
-- the cursor that was saved, of any int value.
pub rr_set_state-rr_get_state :
    (c other : ℤ) (buf : List ℕ) (n : ℕ)
    → IsInt c
    → ltb n int_size ≡ false
    → ((rr_get_state c (some buf) (some n)).rv ≡ pos 0)
      × (rr_set_state other (rr_get_state c (some buf) (some n)).buffer int_size ≡ (pos 0, c))
unfolding rr_get_state rr_set_state
rr_set_state-rr_get_state c other buf n h room =
    let word = of_bytes-le_bytes int_size (to_u32 c) (to_u32-bound c) in
    rw room (refl, ap (λ x. (pos 0, x)) (ap int_of word ∙ int_of-to_u32 c h))
