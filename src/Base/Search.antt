-- ===== src/Base/Search.antt =====
-- The first element of an array that passes a test.
use Prim.Native.Nat.{ℕ, zero, suc, ◌<◌}
use mathlib.Core.Path.{◌≡◌, refl, sym, ap, ◌∙◌}
use mathlib.Core.Logic.{◌≢◌, inl, inr}
use mathlib.Core.Bool.{Bool, true, false}
use mathlib.Core.Option.{Option, none, some}
use mathlib.Core.List.{List, [], ◌∷◌}
use native.Mathlib.Omega.{arith}
use lugh_os.Base.Tests.{if◌then◌else◌, Bool-cases}
use lugh_os.Base.Arrays.{length, get_or, set}

abbrev pub next_slot : Option ℕ → Option ℕ
next_slot none = none
next_slot (some i) = some (suc i)

module _ {ℓ} {A : Type ℓ} (p : A → Bool) where
  abbrev pub first_where : List A → Option ℕ
  first_where [] = none
  first_where (x ∷ xs) = if p x then some 0 else next_slot (first_where xs)

  next_none : (o : Option ℕ) → next_slot o ≡ none → o ≡ none
  next_none none e = refl
  next_none (some i) e = cc

  next_some : (o : Option ℕ) (i : ℕ) → next_slot o ≡ some (suc i) → o ≡ some i
  next_some none i e = cc
  next_some (some j) i e = cc

  next_ne : (o : Option ℕ) → next_slot o ≢ some 0
  next_ne none e = cc
  next_ne (some j) e = cc

  passed : (x : A) (xs : List A) → p x ≡ false → first_where (x ∷ xs) ≡ next_slot (first_where xs)
  passed x xs miss = rw miss refl

  found : (x : A) (xs : List A) → p x ≡ true → first_where (x ∷ xs) ≡ some 0
  found x xs hit = rw hit refl

  later :
      (x : A) (xs : List A) (i : ℕ)
      → first_where (x ∷ xs) ≡ some (suc i)
      → (p x ≡ false) × (first_where xs ≡ some i)
  later x xs i e = elim (Bool-cases (p x)) [
    | inl hit ↦ absurd (let z : Option.some 0 ≡ some (suc i) = sym (found x xs hit) ∙ e in cc)
    | inr miss ↦ (miss, next_some (first_where xs) i (sym (passed x xs miss) ∙ e))
  ]

  missed :
      (x : A) (xs : List A) → first_where (x ∷ xs) ≡ none → (p x ≡ false) × (first_where xs ≡ none)
  missed x xs e = elim (Bool-cases (p x)) [
    | inl hit ↦ absurd (let z : Option.some 0 ≡ none = sym (found x xs hit) ∙ e in cc)
    | inr miss ↦ (miss, next_none (first_where xs) (sym (passed x xs miss) ∙ e))
  ]

  -- A slot that is found lies in the array.
  pub first_where-lt : (xs : List A) (i : ℕ) → first_where xs ≡ some i → i < length xs
  first_where-lt [] i e = cc
  first_where-lt (x ∷ xs) zero e = omega arith
  first_where-lt (x ∷ xs) (suc i) e = omega (arith, first_where-lt xs i (later x xs i e).1)

  -- Writing an element that passes to the slot found leaves that slot the first.
  pub first_where-set :
      (xs : List A) (i : ℕ) (v : A)
      → first_where xs ≡ some i
      → p v ≡ true
      → first_where (set xs i v) ≡ some i
  first_where-set [] i v e h = cc
  first_where-set (x ∷ xs) zero v e h = found v xs h
  first_where-set (x ∷ xs) (suc i) v e h =
      let (miss, e') = later x xs i e in
      passed x (set xs i v) miss ∙ ap next_slot (first_where-set xs i v e' h)

  -- Where none passes, an element that does becomes the first.
  pub first_where-set-none :
      (xs : List A) (i : ℕ) (v : A)
      → first_where xs ≡ none
      → i < length xs
      → p v ≡ true
      → first_where (set xs i v) ≡ some i
  first_where-set-none [] i v e l h = absurd (omega arith)
  first_where-set-none (x ∷ xs) zero v e l h = found v xs h
  first_where-set-none (x ∷ xs) (suc i) v e l h =
      let (miss, e') = missed x xs e in
      passed x (set xs i v) miss ∙ ap next_slot (first_where-set-none xs i v e' (omega arith) h)

  -- The element found passes.
  pub first_where-holds :
      (xs : List A) (i : ℕ) (d : A) → first_where xs ≡ some i → p (get_or xs i d) ≡ true
  first_where-holds [] i d e = cc
  first_where-holds (x ∷ xs) zero d e = elim (Bool-cases (p x)) [
    | inl hit ↦ hit
    | inr miss ↦ absurd (next_ne (first_where xs) (sym (passed x xs miss) ∙ e))
  ]
  first_where-holds (x ∷ xs) (suc i) d e = first_where-holds xs i d (later x xs i e).1

  -- None before the slot found passes.
  pub first_where-before :
      (xs : List A) (i j : ℕ) (d : A) → first_where xs ≡ some i → j < i → p (get_or xs j d) ≡ false
  first_where-before [] i j d e l = cc
  first_where-before (x ∷ xs) zero j d e l = absurd (omega arith)
  first_where-before (x ∷ xs) (suc i) zero d e l = (later x xs i e).0
  first_where-before (x ∷ xs) (suc i) (suc j) d e l =
      first_where-before xs i j d (later x xs i e).1 (omega arith)

  -- Where nothing is found none passes.
  pub first_where-none :
      (xs : List A) (i : ℕ) (d : A)
      → first_where xs ≡ none
      → i < length xs
      → p (get_or xs i d) ≡ false
  first_where-none [] i d e l = absurd (omega arith)
  first_where-none (x ∷ xs) zero d e l = (missed x xs e).0
  first_where-none (x ∷ xs) (suc i) d e l = first_where-none xs i d (missed x xs e).1 (omega arith)

  -- The only one that passes is found.
  pub first_where-only :
      (xs : List A) (i : ℕ) (d : A)
      → i < length xs
      → p (get_or xs i d) ≡ true
      → ((j : ℕ) → j < i → p (get_or xs j d) ≡ false)
      → first_where xs ≡ some i
  first_where-only [] i d l h f = absurd (omega arith)
  first_where-only (x ∷ xs) zero d l h f = found x xs h
  first_where-only (x ∷ xs) (suc i) d l h f =
      passed x xs (f 0 (omega arith))
      ∙ ap next_slot (first_where-only xs i d (omega arith) h (λ j. λ m. f (suc j) (omega arith)))

  pub first_where-absent :
      (xs : List A) (d : A)
      → ((j : ℕ) → j < length xs → p (get_or xs j d) ≡ false)
      → first_where xs ≡ none
  first_where-absent [] d f = refl
  first_where-absent (x ∷ xs) d f =
      passed x xs (f 0 (omega arith))
      ∙ ap next_slot (first_where-absent xs d (λ j. λ m. f (suc j) (omega arith)))
