-- ===== src/Base/Bits.antt =====
-- The bits of a number, and what C's `&`, `|`, `~` and `1u << k` do to each of them.
use Prim.Native.Nat.{
  ℕ, zero, suc, ◌+◌, ◌-◌, ◌*◌, ◌/◌, ◌%◌, ◌^◌, ◌≤◌, ◌<◌, min, max, bit_and, bit_or, digits,
  bit_and-bitwise, bit_or-bitwise,
}
use mathlib.Core.Path.{◌≡◌, refl, ap, sym, ◌∙◌}
use mathlib.Core.Logic.{◌⊎◌, inl, inr}
use mathlib.Core.Bool.{Bool, false, not, ◌&&◌, ◌||◌}
use native.Mathlib.Nat.{pow-suc}
use native.Mathlib.Omega.{arith}
use lugh_os.Base.Tests.{◌==◌}

abbrev pub bit : ℕ → ℕ → Bool
bit n zero = n % 2 == 1
bit n (suc i) = bit (n / 2) i

pub bit-zero : (i : ℕ) → bit 0 i ≡ false
bit-zero zero = refl
bit-zero (suc i) = bit-zero i

-- A digitwise operation acts on each bit by itself.
module _ (z : ℕ → ℕ) (f : ℕ → ℕ → ℕ) (op : Bool → Bool → Bool)
    (on_zero : (b i : ℕ) → bit (z b) i ≡ op false (bit b i))
    (small : (x y : ℕ) → x < 2 → y < 2 → f x y < 2)
    (on_digit : (x y : ℕ) → x < 2 → y < 2 → (f x y == 1) ≡ op (x == 1) (y == 1)) where
  bit-of_zero : (b i : ℕ) → bit (z b) i ≡ op (bit 0 i) (bit b i)
  bit-of_zero b i = on_zero b i ∙ ap (λ t. op t (bit b i)) (sym (bit-zero i))

  pub bit-digits : (n a b i : ℕ) → a ≤ n → bit (digits z f n a b) i ≡ op (bit a i) (bit b i)
  bit-digits zero zero b i h = bit-of_zero b i
  bit-digits zero (suc a) b i h = absurd (omega arith)
  bit-digits (suc n) zero b i h = bit-of_zero b i
  bit-digits (suc n) (suc a) b zero h =
      ground (arith, small (suc a % 2) (b % 2), on_digit (suc a % 2) (b % 2))
  bit-digits (suc n) (suc a) b (suc i) h =
      let q = digits z f n (suc a / 2) (b / 2) in
      let e : (q * 2 + f (suc a % 2) (b % 2)) / 2 ≡ q =
        omega (arith, small (suc a % 2) (b % 2) (omega arith) (omega arith)) in
      ap (λ t. bit t i) e ∙ bit-digits n (suc a / 2) (b / 2) i (omega arith)

pub digit-cases : (x : ℕ) → x < 2 → (x ≡ 0) ⊎ (x ≡ 1)
digit-cases x h = ground arith

min_digit : (x y : ℕ) → x < 2 → y < 2 → (min x y == 1) ≡ ((x == 1) && (y == 1))
min_digit x y p q = elim (digit-cases x p) [
  | inl e ↦ elim (digit-cases y q) [ inl f ↦ rw (e, f) | inr f ↦ rw (e, f) ]
  | inr e ↦ elim (digit-cases y q) [ inl f ↦ rw (e, f) | inr f ↦ rw (e, f) ]
]

max_digit : (x y : ℕ) → x < 2 → y < 2 → (max x y == 1) ≡ ((x == 1) || (y == 1))
max_digit x y p q = elim (digit-cases x p) [
  | inl e ↦ elim (digit-cases y q) [ inl f ↦ rw (e, f) | inr f ↦ rw (e, f) ]
  | inr e ↦ elim (digit-cases y q) [ inl f ↦ rw (e, f) | inr f ↦ rw (e, f) ]
]

pub bit-bit_and : (a b i : ℕ) → bit (bit_and a b) i ≡ (bit a i && bit b i)
bit-bit_and a b i =
    ap (λ t. bit t i) (bit_and-bitwise a b)
    ∙ bit-digits (λ y. zero) min ◌&&◌ (λ y j. bit-zero j) (λ x y p q. omega arith) min_digit a a b i
        (omega arith)

pub bit-bit_or : (a b i : ℕ) → bit (bit_or a b) i ≡ (bit a i || bit b i)
bit-bit_or a b i =
    ap (λ t. bit t i) (bit_or-bitwise a b)
    ∙ bit-digits (λ y. y) max ◌||◌ (λ y j. refl) (λ x y p q. omega arith) max_digit a a b i
        (omega arith)

pub bit-pow : (k i : ℕ) → bit (2 ^ k) i ≡ (k == i)
bit-pow zero zero = refl
bit-pow zero (suc i) = bit-zero i ∙ ground arith
bit-pow (suc k) zero = ground (arith, pow-suc 2 k)
bit-pow (suc k) (suc i) =
    let e : 2 ^ suc k / 2 ≡ 2 ^ k = omega (arith, pow-suc 2 k) in
    ap (λ t. bit t i) e ∙ bit-pow k i ∙ ground arith

-- `~x` on `w` bits.
abbrev pub complement : ℕ → ℕ → ℕ
complement w x = 2 ^ w - 1 - x

pub bit-complement : (w x i : ℕ) → x < 2 ^ w → i < w → bit (complement w x) i ≡ not (bit x i)
bit-complement zero x i p q = absurd (omega arith)
bit-complement (suc w) x zero p q = ground (arith, pow-suc 2 w)
bit-complement (suc w) x (suc i) p q =
    let e : complement (suc w) x / 2 ≡ complement w (x / 2) = omega (arith, pow-suc 2 w) in
    ap (λ t. bit t i) e ∙ bit-complement w (x / 2) i (omega (arith, pow-suc 2 w)) (omega arith)

bit_ext_fuel : (n a b : ℕ) → a ≤ n → b ≤ n → ((i : ℕ) → bit a i ≡ bit b i) → a ≡ b
bit_ext_fuel zero a b p q h = omega arith
bit_ext_fuel (suc n) a b p q h =
    let e : a / 2 ≡ b / 2 =
      bit_ext_fuel n (a / 2) (b / 2) (omega arith) (omega arith) (λ i. h (suc i)) in
    ground (arith, h 0)

-- Two numbers with the same bits are equal.
pub bit_ext : (a b : ℕ) → ((i : ℕ) → bit a i ≡ bit b i) → a ≡ b
bit_ext a b h = bit_ext_fuel (a + b) a b (omega arith) (omega arith) h
