-- ===== src/Base/Xor.antt =====
-- The bits of an exclusive or.
use Prim.Native.Nat.{ℕ, ◌<◌, bit_xor, bit_xor-bitwise, differ}
use mathlib.Core.Path.{◌≡◌, refl, ap, ◌∙◌}
use mathlib.Core.Logic.{inl, inr}
use mathlib.Core.Bool.{Bool, true, false, not}
use native.Mathlib.Omega.{arith}
use lugh_os.Base.Tests.{◌==◌}
use lugh_os.Base.Bits.{bit, bit-zero, bit-digits, digit-cases, bit_ext}

abbrev pub xor : Bool → Bool → Bool
xor true b = not b
xor false b = b

differ_small : (x y : ℕ) → x < 2 → y < 2 → differ x y < 2
differ_small x y p q = elim (digit-cases x p) [
  | inl e ↦ elim (digit-cases y q) [
    | inl f ↦ rw (e, f) (omega arith)
    | inr f ↦ rw (e, f) (omega arith)
  ]
  | inr e ↦ elim (digit-cases y q) [
    | inl f ↦ rw (e, f) (omega arith)
    | inr f ↦ rw (e, f) (omega arith)
  ]
]

differ_digit : (x y : ℕ) → x < 2 → y < 2 → (differ x y == 1) ≡ xor (x == 1) (y == 1)
differ_digit x y p q = elim (digit-cases x p) [
  | inl e ↦ elim (digit-cases y q) [ inl f ↦ rw (e, f) | inr f ↦ rw (e, f) ]
  | inr e ↦ elim (digit-cases y q) [ inl f ↦ rw (e, f) | inr f ↦ rw (e, f) ]
]

pub bit-bit_xor : (a b i : ℕ) → bit (bit_xor a b) i ≡ xor (bit a i) (bit b i)
bit-bit_xor a b i =
    ap (λ t. bit t i) (bit_xor-bitwise a b)
    ∙ bit-digits (λ y. y) differ xor (λ y j. refl) differ_small differ_digit a a b i (omega arith)

xor_assoc_bool : (a b c : Bool) → xor (xor a b) c ≡ xor a (xor b c)
xor_assoc_bool a b c = ground arith

pub bit_xor_assoc : (a b c : ℕ) → bit_xor (bit_xor a b) c ≡ bit_xor a (bit_xor b c)
bit_xor_assoc a b c = bit_ext _ _ (λ i. step i)
  where
    step : (i : ℕ) → bit (bit_xor (bit_xor a b) c) i ≡ bit (bit_xor a (bit_xor b c)) i
    step i =
        rw
          (
            bit-bit_xor (bit_xor a b) c i,
            bit-bit_xor a b i,
            bit-bit_xor a (bit_xor b c) i,
            bit-bit_xor b c i,
          )
          (xor_assoc_bool (bit a i) (bit b i) (bit c i))

pub bit_xor_comm : (a b : ℕ) → bit_xor a b ≡ bit_xor b a
bit_xor_comm a b = bit_ext _ _ (λ i. ground (arith, bit-bit_xor a b i, bit-bit_xor b a i))

pub bit_xor-zero : (a : ℕ) → bit_xor 0 a ≡ a
bit_xor-zero a = bit_ext _ _ (λ i. bit-bit_xor 0 a i ∙ ap (λ x. xor x (bit a i)) (bit-zero i))
