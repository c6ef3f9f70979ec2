-- ===== src/Base/Masks.antt =====
-- Masks: one number holds another's bits, one bit tested, set or cleared, and the word's width.
use native.Mathlib.Nat.{
  pow-suc, div-add-mod, mod-lt, add-mul-mod_self_right, mod-eq_of_lt, mod-one, one-le-pow,
}
use lugh_os.Base.Tests.{ltb, ◌==◌, ==_iff, ==_ne, Bool-cases, if◌then◌else◌}
use lugh_os.Base.Bits.{
  bit, bit-zero, bit-bit_and, bit-bit_or, bit-pow, bit_ext, complement, bit-complement,
}
use Prim.Native.Nat.{ℕ, zero, suc, ◌*◌, ◌+◌, ◌-◌, ◌/◌, ◌%◌, ◌^◌, ◌≤◌, ◌<◌, bit_and, bit_or}
use mathlib.Core.Path.{◌≡◌, refl, ap, sym, ◌∙◌}
use mathlib.Core.Logic.{◌↔◌, inl, inr}
use mathlib.Core.Bool.{Bool, true, false, not, ◌&&◌, ◌||◌}
use native.Mathlib.Omega.{arith}
use native.Mathlib.Decide.{dec_lt}

-- Every bit of `m` is a bit of `g`.
abbrev pub Covers : ℕ → ℕ → Type 0
Covers g m = (i : ℕ) → bit m i ≡ true → bit g i ≡ true

and_absorb : (a b : Bool) → (b ≡ true → a ≡ true) → (a && b) ≡ b
and_absorb a true h = rw (h refl)
and_absorb true false h = refl
and_absorb false false h = refl

-- The test `(g & m) == m` of the C code.
pub Covers-iff : (g m : ℕ) → (bit_and g m ≡ m) ↔ Covers g m
Covers-iff g m = (
  λ e i h. ground (arith, bit-bit_and g m i, ap (λ t. bit t i) e),
  λ c. bit_ext _ _ (λ i. bit-bit_and g m i ∙ and_absorb (bit g i) (bit m i) (c i)),
)

pub Covers-bit_and : (g m : ℕ) → Covers g (bit_and m g)
Covers-bit_and g m i h = ground (arith, bit-bit_and m g i)

pub Covers-bit_and_left : (g m : ℕ) → Covers m (bit_and m g)
Covers-bit_and_left g m i h = ground (arith, bit-bit_and m g i)

pub Covers-trans : (a b c : ℕ) → Covers a b → Covers b c → Covers a c
Covers-trans a b c p q i h = p i (q i h)

-- The test `(w & (1u << k)) == 0`.
pub test-bit : (w k : ℕ) → (bit_and w (2 ^ k) == 0) ≡ not (bit w k)
test-bit w k = elim (Bool-cases (bit w k)) [
  | inl e ↦ rw e (
      ==_ne _ _ (λ z.
        ground (arith, ap (λ t. bit t k) z, bit-bit_and w (2 ^ k) k, bit-pow k k, bit-zero k)))
  | inr e ↦ rw e (
      (==_iff (bit_and w (2 ^ k)) 0).1
        (bit_ext _ _ (λ i. ground (arith, bit-bit_and w (2 ^ k) i, bit-pow k i, bit-zero i))))
]

-- `w |= 1u << k`
pub bit-set : (w k i : ℕ) → bit (bit_or w (2 ^ k)) i ≡ (if k == i then true else bit w i)
bit-set w k i = ground (arith, bit-bit_or w (2 ^ k) i, bit-pow k i)

pub bit_high : (w a i : ℕ) → a < 2 ^ w → w ≤ i → bit a i ≡ false
bit_high zero a i p q = rw (let e : a ≡ 0 = omega arith in e) (bit-zero i)
bit_high (suc w) a zero p q = absurd (omega arith)
bit_high (suc w) a (suc i) p q = bit_high w (a / 2) i (omega (arith, pow-suc 2 w)) (omega arith)

pub lt-pow : (w a : ℕ) → ((i : ℕ) → w ≤ i → bit a i ≡ false) → a < 2 ^ w
lt-pow zero a h =
    let e : a ≡ 0 = bit_ext a 0 (λ i. h i (omega arith) ∙ sym (bit-zero i)) in omega arith
lt-pow (suc w) a h = omega (arith, pow-suc 2 w, lt-pow w (a / 2) (λ i p. h (suc i) (omega arith)))

pub bit_or-lt : (w a b : ℕ) → a < 2 ^ w → b < 2 ^ w → bit_or a b < 2 ^ w
bit_or-lt w a b p q =
    lt-pow w _ (λ i h. ground (arith, bit-bit_or a b i, bit_high w a i p h, bit_high w b i q h))

pub bit_and-lt : (w a b : ℕ) → a < 2 ^ w → bit_and a b < 2 ^ w
bit_and-lt w a b p = lt-pow w _ (λ i h. ground (arith, bit-bit_and a b i, bit_high w a i p h))

-- `w &= ~(1u << k)` on a word of `n` bits.
pub bit-clear :
    (n w k i : ℕ)
    → w < 2 ^ n
    → 2 ^ k < 2 ^ n
    → bit (bit_and w (complement n (2 ^ k))) i ≡ (if k == i then false else bit w i)
bit-clear n w k i p q = elim (dec_lt i n) [
  | yes h ↦
      ground
        (arith, bit-bit_and w (complement n (2 ^ k)) i, bit-complement n (2 ^ k) i q h, bit-pow k i)
  | no h ↦ ground (arith, bit-bit_and w (complement n (2 ^ k)) i, bit_high n w i p)
]

pub parity_mod : (a p : ℕ) → 0 < p → a % (p * 2) % 2 ≡ a % 2
parity_mod a p h = omega (arith, div-add-mod a (p * 2))

pub half_mod : (a p : ℕ) → 0 < p → a % (p * 2) / 2 ≡ a / 2 % p
half_mod a p h =
    let r = a % (p * 2) in
    let q = a / (p * 2) in
    let e : a / 2 ≡ r / 2 + q * p = omega (arith, div-add-mod a (p * 2)) in
    let small : r / 2 < p = omega (arith, mod-lt a {m = p * 2} (omega arith)) in
    sym (ap (λ t. t % p) e ∙ add-mul-mod_self_right (r / 2) q p ∙ mod-eq_of_lt small)

bit-mod : (k a i : ℕ) → bit (a % 2 ^ k) i ≡ (ltb i k && bit a i)
bit-mod zero a i = ap (λ t. bit t i) (mod-one a) ∙ bit-zero i ∙ ground arith
bit-mod (suc k) a zero = ground (arith, pow-suc 2 k, parity_mod a (2 ^ k), one-le-pow k 2)
bit-mod (suc k) a (suc i) =
    let e : a % 2 ^ suc k / 2 ≡ a / 2 % 2 ^ k =
      rw (pow-suc 2 k) (half_mod a (2 ^ k) (one-le-pow k 2 (omega arith))) in
    ap (λ t. bit t i) e ∙ bit-mod k (a / 2) i ∙ ground arith

bit-mask : (k i : ℕ) → bit (2 ^ k - 1) i ≡ ltb i k
bit-mask k i = elim (dec_lt i k) [
  | yes h ↦ ground (arith, bit-complement k 0 i (one-le-pow k 2 (omega arith)) h, bit-zero i)
  | no h ↦ ground (arith, bit_high k (2 ^ k - 1) i, one-le-pow k 2)
]

-- `a & (2^k - 1)` is the remainder, whatever `a` is.
pub bit_and-mask : (k a : ℕ) → bit_and a (2 ^ k - 1) ≡ a % 2 ^ k
bit_and-mask k a =
    bit_ext _ _ (λ i. ground (arith, bit-bit_and a (2 ^ k - 1) i, bit-mask k i, bit-mod k a i))

bit-shifted_add : (k a b i : ℕ) → b < 2 ^ k → bit (a * 2 ^ k + b) i ≡ (bit (a * 2 ^ k) i || bit b i)
bit-shifted_add zero a b i h =
    let e : b ≡ 0 = omega arith in
    let sum : a * 2 ^ 0 + b ≡ a * 2 ^ 0 = omega arith in
    ground (arith, ap (λ t. bit t i) e, ap (λ t. bit t i) sum, bit-zero i)
bit-shifted_add (suc k) a b zero h =
    let shift = ap (λ (t : ℕ). a * t) (pow-suc 2 k) in
    let whole : (a * 2 ^ suc k + b) % 2 ≡ b % 2 = omega (arith, shift) in
    let left : a * 2 ^ suc k % 2 ≡ 0 = omega (arith, shift) in
    ap (λ t. t == 1) whole ∙ sym (ap (λ t. (t == 1) || (b % 2 == 1)) left)
bit-shifted_add (suc k) a b (suc i) h =
    let shift = ap (λ (t : ℕ). a * t) (pow-suc 2 k) in
    let sum : (a * 2 ^ suc k + b) / 2 ≡ a * 2 ^ k + b / 2 = omega (arith, shift) in
    let left : a * 2 ^ suc k / 2 ≡ a * 2 ^ k = omega (arith, shift) in
    ap (λ t. bit t i) sum
    ∙ bit-shifted_add k a (b / 2) i (omega (arith, pow-suc 2 k))
    ∙ ap (λ t. bit t i || bit (b / 2) i) (sym left)

-- `(a << k) | b` is a sum where `b` fits below the shift.
pub bit_or-shifted : (k a b : ℕ) → b < 2 ^ k → bit_or (a * 2 ^ k) b ≡ a * 2 ^ k + b
bit_or-shifted k a b h =
    bit_ext _ _ (λ i. bit-bit_or (a * 2 ^ k) b i ∙ sym (bit-shifted_add k a b i h))

pub bit_or_comm : (a b : ℕ) → bit_or a b ≡ bit_or b a
bit_or_comm a b = bit_ext _ _ (λ i. ground (arith, bit-bit_or a b i, bit-bit_or b a i))
