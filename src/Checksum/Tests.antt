-- ===== src/Checksum/Tests.antt =====
-- The checksum of kernel/nngcompat.c on known values.
use lugh_os.Base.{ℕ, ◌<◌, ◌^◌, true, if◌then◌else◌, List, [], ◌∷◌, All, ◌≡◌, refl, arith}
use lugh_os.Checksum.{crc_bit, crc_bits, init_crc32_table, calculate_checksum}
use lugh_os.Checksum.Bitwise.{crc32, shift_bytes, calculate_checksum_lem}

-- "123456789", whose CRC-32 is the standard's check value.
abbrev digits : List ℕ
digits = 49 ∷ 50 ∷ 51 ∷ 52 ∷ 53 ∷ 54 ∷ 55 ∷ 56 ∷ 57 ∷ []

check_value : crc32 digits ≡ 0xCBF43926
unfolding crc32 shift_bytes crc_bits crc_bit
check_value = refl

digits_bytes : All (λ b. b < 2 ^ 8) digits
digits_bytes = (
  omega arith,
  (
    omega arith,
    (
      omega arith,
      (omega arith, (omega arith, (omega arith, (omega arith, (omega arith, (omega arith, tt)))))),
    ),
  ),
)

calculate_checksum_lem_example :
    calculate_checksum init_crc32_table true digits ≡ (if true then crc32 digits else 0)
calculate_checksum_lem_example = calculate_checksum_lem digits true digits_bytes
