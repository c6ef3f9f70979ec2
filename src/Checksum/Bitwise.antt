-- ===== src/Checksum/Bitwise.antt =====
-- kernel/nngcompat.c: the checksum against the CRC-32 taken bit by bit, without a table.
use lugh_os.Base.{
  ℕ, zero, suc, ◌+◌, ◌/◌, ◌%◌, ◌^◌, ◌<◌, ◌==◌, if◌then◌else◌, Bool, true, false, ◌&&◌, List, [],
  ◌∷◌, get_or, All, bit_and, bit_xor, ◌≡◌, refl, sym, ap, ap₂, ◌∙◌, arith, inl, inr, Bool-cases,
}
use native.Mathlib.Nat.{pow-suc, one-le-pow, div-div-eq-div-mul}
use lugh_os.Base.Bits.{bit, bit_ext}
use lugh_os.Base.Masks.{test-bit, bit_high, bit_and-mask, parity_mod, half_mod}
use lugh_os.Base.Xor.{xor, bit-bit_xor, bit_xor_assoc, bit_xor-zero}
use lugh_os.Checksum.{
  poly, crc_bit, crc_bits, table_from, init_crc32_table, crc_step, crc_loop, calculate_checksum,
}

-- The register after one byte, shifted through bit by bit.
abbrev shift_byte : ℕ → ℕ → ℕ
shift_byte crc b = crc_bits 8 (bit_xor crc b)

unfoldable pub shift_bytes : ℕ → List ℕ → ℕ
shift_bytes crc [] = crc
shift_bytes crc (b ∷ bs) = shift_bytes (shift_byte crc b) bs

-- The CRC-32 of the reversed polynomial, from all ones and complemented.
unfoldable pub crc32 : List ℕ → ℕ
crc32 bytes = bit_xor (shift_bytes 0xFFFFFFFF bytes) 0xFFFFFFFF

bit-crc_bit : (c i : ℕ) → bit (crc_bit c) i ≡ xor (bit c 0 && bit poly i) (bit c (suc i))
unfolding crc_bit
bit-crc_bit c i = elim (Bool-cases (bit c 0)) [
  | inl odd ↦ rw (test-bit c 0, odd) (bit-bit_xor poly (c / 2) i)
  | inr even ↦ rw (test-bit c 0, even) refl
]

distribute :
    (a b p x y : Bool) → xor (xor a b && p) (xor x y) ≡ xor (xor (a && p) x) (xor (b && p) y)
distribute a b p x y = ground arith

crc_bit-bit_xor : (a b : ℕ) → crc_bit (bit_xor a b) ≡ bit_xor (crc_bit a) (crc_bit b)
crc_bit-bit_xor a b = bit_ext _ _ (λ i. each i)
  where
    each : (i : ℕ) → bit (crc_bit (bit_xor a b)) i ≡ bit (bit_xor (crc_bit a) (crc_bit b)) i
    each i =
        bit-crc_bit (bit_xor a b) i
        ∙ ap₂ (λ x. λ y. xor (x && bit poly i) y) (bit-bit_xor a b 0) (bit-bit_xor a b (suc i))
        ∙ distribute (bit a 0) (bit b 0) (bit poly i) (bit a (suc i)) (bit b (suc i))
        ∙ sym (bit-bit_xor (crc_bit a) (crc_bit b) i ∙ ap₂ xor (bit-crc_bit a i) (bit-crc_bit b i))

crc_bits-bit_xor : (n a b : ℕ) → crc_bits n (bit_xor a b) ≡ bit_xor (crc_bits n a) (crc_bits n b)
unfolding crc_bits
crc_bits-bit_xor zero a b = refl
crc_bits-bit_xor (suc n) a b =
    ap (crc_bits n) (crc_bit-bit_xor a b) ∙ crc_bits-bit_xor n (crc_bit a) (crc_bit b)

-- What the low bit adds.
abbrev low_part : ℕ → ℕ
low_part p = if p == 1 then poly else 0

crc_bit-parts : (c : ℕ) → crc_bit c ≡ bit_xor (low_part (c % 2)) (c / 2)
unfolding crc_bit
crc_bit-parts c = elim (Bool-cases (c % 2 == 1)) [
  | inl odd ↦ rw (test-bit c 0, odd) refl
  | inr even ↦ rw (test-bit c 0, even) (sym (bit_xor-zero (c / 2)))
]

low_bit : (n c : ℕ) → c % 2 ^ suc n % 2 ≡ c % 2
low_bit n c = rw (pow-suc 2 n) (parity_mod c (2 ^ n) (one-le-pow n 2 (omega arith)))

upper : (n c : ℕ) → c % 2 ^ suc n / 2 ≡ c / 2 % 2 ^ n
upper n c = rw (pow-suc 2 n) (half_mod c (2 ^ n) (one-le-pow n 2 (omega arith)))

halved : (n c : ℕ) → c / 2 / 2 ^ n ≡ c / 2 ^ suc n
halved n c = div-div-eq-div-mul c 2 (2 ^ n) ∙ ap (λ x. c / x) (omega (arith, pow-suc 2 n))

-- The rounds act on the low bits alone and shift the rest down.
crc_bits-split : (n c : ℕ) → crc_bits n c ≡ bit_xor (crc_bits n (c % 2 ^ n)) (c / 2 ^ n)
unfolding crc_bits
crc_bits-split zero c =
    sym (bit_xor-zero c) ∙ ap₂ bit_xor (let e : 0 ≡ c % 1 = omega arith in e) (omega arith)
crc_bits-split (suc n) c =
    let m = c % 2 ^ suc n in
    let low : crc_bit m ≡ bit_xor (low_part (c % 2)) (c / 2 % 2 ^ n) =
      crc_bit-parts m ∙ ap₂ (λ p. λ h. bit_xor (low_part p) h) (low_bit n c) (upper n c) in
    ap (crc_bits n) (crc_bit-parts c)
    ∙ crc_bits-bit_xor n (low_part (c % 2)) (c / 2)
    ∙ ap (bit_xor (crc_bits n (low_part (c % 2)))) (crc_bits-split n (c / 2))
    ∙ sym
        (bit_xor_assoc (crc_bits n (low_part (c % 2))) (crc_bits n (c / 2 % 2 ^ n)) (c / 2 / 2 ^ n))
    ∙ ap₂ bit_xor
        (sym (ap (crc_bits n) low ∙ crc_bits-bit_xor n (low_part (c % 2)) (c / 2 % 2 ^ n)))
        (halved n c)

table_from-at : (n i j : ℕ) → j < n → get_or (table_from n i) j 0 ≡ crc_bits 8 (i + j)
unfolding table_from
table_from-at zero i j l = absurd (omega arith)
table_from-at (suc n) i zero l = ap (crc_bits 8) (omega arith)
table_from-at (suc n) i (suc j) l =
    table_from-at n (suc i) j (omega arith) ∙ ap (crc_bits 8) (omega arith)

table_lookup : (x : ℕ) → get_or init_crc32_table (bit_and x 0xFF) 0 ≡ crc_bits 8 (x % 2 ^ 8)
unfolding init_crc32_table
table_lookup x =
    rw (bit_and-mask 8 x)
      (table_from-at 256 0 (x % 2 ^ 8) (omega arith) ∙ ap (crc_bits 8) (omega arith))

-- A byte changes no bit above the eighth.
upper_byte : (crc b : ℕ) → b < 2 ^ 8 → bit_xor crc b / 2 ^ 8 ≡ crc / 2 ^ 8
upper_byte crc b l = bit_ext _ _ (λ i. each i)
  where
    down : (x i : ℕ) → bit (x / 2 ^ 8) i ≡ bit x (suc (suc (suc (suc (suc (suc (suc (suc i))))))))
    down x i = ap (λ t. bit t i) (omega arith)

    no_bit : (x : Bool) → xor x false ≡ x
    no_bit x = ground arith

    each : (i : ℕ) → bit (bit_xor crc b / 2 ^ 8) i ≡ bit (crc / 2 ^ 8) i
    each i =
        let j = suc (suc (suc (suc (suc (suc (suc (suc i))))))) in
        down (bit_xor crc b) i
        ∙ bit-bit_xor crc b j
        ∙ ap (xor (bit crc j)) (bit_high 8 b j l (omega arith))
        ∙ no_bit (bit crc j)
        ∙ sym (down crc i)

crc_step-shift_byte : (crc b : ℕ) → b < 2 ^ 8 → crc_step init_crc32_table crc b ≡ shift_byte crc b
crc_step-shift_byte crc b l =
    let x = bit_xor crc b in
    ap₂ bit_xor (table_lookup x) (sym (upper_byte crc b l)) ∙ sym (crc_bits-split 8 x)

crc_loop-shift_bytes :
    (bytes : List ℕ) (crc : ℕ)
    → All (λ b. b < 2 ^ 8) bytes
    → crc_loop init_crc32_table crc bytes ≡ shift_bytes crc bytes
unfolding crc_loop shift_bytes
crc_loop-shift_bytes [] crc a = refl
crc_loop-shift_bytes (b ∷ bs) crc (l, a) =
    ap (λ c. crc_loop init_crc32_table c bs) (crc_step-shift_byte crc b l)
    ∙ crc_loop-shift_bytes bs (shift_byte crc b) a

-- Over the table that `init_crc32_table` fills, the checksum of readable bytes is the CRC-32 that
-- is shifted through bit by bit without a table; where the bytes may not be read it is 0.
pub calculate_checksum_lem :
    (bytes : List ℕ) (readable : Bool)
    → All (λ b. b < 2 ^ 8) bytes
    → calculate_checksum init_crc32_table readable bytes ≡ (if readable then crc32 bytes else 0)
unfolding calculate_checksum crc32
calculate_checksum_lem bytes false a = refl
calculate_checksum_lem bytes true a =
    ap (λ c. bit_xor c 0xFFFFFFFF) (crc_loop-shift_bytes bytes 0xFFFFFFFF a)
