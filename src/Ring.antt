-- ===== src/Ring.antt =====
-- kernel/ring_buffer.c and include/ring_buffer.h: the telemetry ring between the IPC path, which
-- writes at `head`, and the auditor, which reads at `tail`.
pub mod Refine
mod Tests
use lugh_os.Base.{
  ℕ, ◌+◌, ◌-◌, ◌%◌, ◌^◌, ◌==◌, if◌then◌else◌, List, get_or, set, replicate, bit_and, Option, none,
  some,
}
use lugh_os.Messages.{Message, blank}

abbrev pub ring_capacity : ℕ
ring_capacity = 256

-- `ipc_ring_t`
pub record Ring : Type 0 where
  pub head : ℕ
  pub tail : ℕ
  pub overflow : ℕ
  pub buf : List Message

-- The static storage at boot.
abbrev pub ring_boot : Ring
ring_boot = record { head = 0; tail = 0; overflow = 0; buf = replicate ring_capacity blank }

unfoldable pub ring_init : Ring → Ring
ring_init r = record r { head = 0; tail = 0; overflow = 0 }

-- `(i + 1u) & (IPC_RING_CAPACITY - 1u)`
abbrev pub bump : ℕ → ℕ
bump i = bit_and ((i + 1) % 2 ^ 32) (ring_capacity - 1)

-- The result is 0 for a dropped message and 1 for a stored one.
unfoldable pub ring_push : Ring → Message → ℕ × Ring
ring_push r m =
    let next = bump r.head in
    if next == r.tail
    then (0, record r { overflow = (r.overflow + 1) % 2 ^ 32 })
    else (1, record r { buf = set r.buf r.head m; head = next })

-- `none` is the result 0, with `*out` untouched.
unfoldable pub ring_pop : Ring → Option Message × Ring
ring_pop r =
    if r.head == r.tail
    then (none, r)
    else (some (get_or r.buf r.tail blank), record r { tail = bump r.tail })

unfoldable pub ring_len : Ring → ℕ
ring_len r = bit_and ((r.head + 2 ^ 32 - r.tail) % 2 ^ 32) (ring_capacity - 1)
