-- ===== src/Checksum.antt =====
-- kernel/nngcompat.c: the CRC-32 table and the checksum over it.
pub mod Bitwise
mod Tests
use lugh_os.Base.{
  ℕ, zero, suc, ◌+◌, ◌/◌, ◌^◌, ◌==◌, if◌then◌else◌, Bool, not, List, [], ◌∷◌, get_or, bit_and,
  bit_xor,
}

abbrev pub poly : ℕ
poly = 0xEDB88320

-- `(c & 1u) ? (poly ^ (c >> 1)) : (c >> 1)`
pub crc_bit : ℕ → ℕ
crc_bit c = if not (bit_and c 1 == 0) then bit_xor poly (c / 2) else c / 2

-- The inner loop, `n` rounds.
pub crc_bits : ℕ → ℕ → ℕ
crc_bits zero c = c
crc_bits (suc n) c = crc_bits n (crc_bit c)

-- The outer loop, `n` entries from entry `i` on.
pub table_from : ℕ → ℕ → List ℕ
table_from zero i = []
table_from (suc n) i = crc_bits 8 i ∷ table_from n (suc i)

unfoldable pub init_crc32_table : List ℕ
init_crc32_table = table_from 256 0

-- `crc32_table[(crc ^ p[i]) & 0xFFu] ^ (crc >> 8)`
abbrev pub crc_step : List ℕ → ℕ → ℕ → ℕ
crc_step table crc b = bit_xor (get_or table (bit_and (bit_xor crc b) 0xFF) 0) (crc / 2 ^ 8)

unfoldable pub crc_loop : List ℕ → ℕ → List ℕ → ℕ
crc_loop table crc [] = crc
crc_loop table crc (b ∷ bs) = crc_loop table (crc_step table crc b) bs

-- `readable` is the verdict of the access check on the bytes.
unfoldable pub calculate_checksum : List ℕ → Bool → List ℕ → ℕ
calculate_checksum table readable bytes =
    if not readable then 0 else bit_xor (crc_loop table 0xFFFFFFFF bytes) 0xFFFFFFFF
