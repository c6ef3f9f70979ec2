-- ===== src/Base/Count.antt =====
-- How many numbers below a bound pass a test.
use Prim.Native.Nat.{ℕ, zero, suc, ◌+◌, ◌≤◌, ◌<◌}
use mathlib.Core.Path.{◌≡◌, refl}
use mathlib.Core.Logic.{◌≢◌}
use mathlib.Core.Bool.{Bool, true, false}
use native.Mathlib.Omega.{arith}
use native.Mathlib.Decide.{ℕ_discrete}
use lugh_os.Base.Tests.{if◌then◌else◌}

unfoldable pub count : (ℕ → Bool) → ℕ → ℕ
count p zero = 0
count p (suc n) = (if p n then 1 else 0) + count p n

pub count_ext : (p q : ℕ → Bool) (n : ℕ) → ((i : ℕ) → i < n → p i ≡ q i) → count p n ≡ count q n
unfolding count
count_ext p q zero h = refl
count_ext p q (suc n) h =
    ground (arith, h n (omega arith), count_ext p q n (λ i l. h i (omega arith)))

pub count-le : (p : ℕ → Bool) (n : ℕ) → count p n ≤ n
unfolding count
count-le p zero = omega arith
count-le p (suc n) = ground (arith, count-le p n)

-- Two tests that differ at one number, where the first passes.
pub count_flip :
    (p q : ℕ → Bool) (k n : ℕ)
    → k < n
    → ((i : ℕ) → i < n → i ≢ k → p i ≡ q i)
    → p k ≡ true
    → q k ≡ false
    → count p n ≡ suc (count q n)
unfolding count
count_flip p q k zero l h a b = absurd (omega arith)
count_flip p q k (suc n) l h a b = elim (ℕ_discrete k n) [
  | yes e ↦
      let same = count_ext p q n (λ i m. h i (omega arith) (omega arith)) in ground (arith, same)
  | no ne ↦
      let rest = count_flip p q k n (omega arith) (λ i m. h i (omega arith)) a b in
      ground (arith, h n (omega arith), rest)
]

-- Every number passes.
pub count_full : (p : ℕ → Bool) (n : ℕ) → ((i : ℕ) → i < n → p i ≡ true) → count p n ≡ n
unfolding count
count_full p zero h = refl
count_full p (suc n) h =
    ground (arith, h n (omega arith), count_full p n (λ i l. h i (omega arith)))

-- No number passes.
pub count_none : (p : ℕ → Bool) (n : ℕ) → ((i : ℕ) → i < n → p i ≡ false) → count p n ≡ 0
unfolding count
count_none p zero h = refl
count_none p (suc n) h =
    ground (arith, h n (omega arith), count_none p n (λ i l. h i (omega arith)))

-- Counting from the front.
pub count_front :
    (p : ℕ → Bool) (n : ℕ) → count p (suc n) ≡ (if p 0 then 1 else 0) + count (λ i. p (suc i)) n
unfolding count
count_front p zero = refl
count_front p (suc n) = ground (arith, count_front p n)
