-- ===== src/Nng/Messages/Strings.antt =====
-- kernel/nngcompat.c: payloads as strings in their arrays, and the copy of one over another.
use lugh_os.Base.{
  ℕ, zero, suc, ◌≤◌, ◌<◌, ◌==◌, true, false, List, [], ◌∷◌, length, get_or, set, take, ◌≡◌, refl,
  sym, ap, ◌∙◌, arith, inl, inr, Bool-cases, get_or-set_self, get_or-set_ne, length-set,
}
use lugh_os.Messages.{max_msg_size}
use lugh_os.Nng.Messages.{string_length, plain_copy, clamp_payload}

-- A string of at most 127 characters in an array of 128.
pub record IsPayload (p : List ℕ) : Type 0 where
  pub full_size : length p ≡ max_msg_size
  pub short : string_length p < max_msg_size

-- The same string in two arrays.
pub record SameString (p q : List ℕ) : Type 0 where
  pub same_length : string_length q ≡ string_length p
  pub chars : (i : ℕ) → i ≤ string_length p → get_or q i 0 ≡ get_or p i 0

string_length-agrees :
    (p q : List ℕ)
    → string_length p < length p
    → string_length p < length q
    → ((i : ℕ) → i ≤ string_length p → get_or q i 0 ≡ get_or p i 0)
    → string_length q ≡ string_length p
unfolding string_length
string_length-agrees [] q l m h = absurd (omega arith)
string_length-agrees (x ∷ p) [] l m h = absurd (omega arith)
string_length-agrees (x ∷ p) (y ∷ q) l m h = elim (Bool-cases (x == 0)) [
  | inl e ↦
      let first : y ≡ x = h 0 (omega arith) in
      let zero_too : (y == 0) ≡ true = ground (arith, first) in rw (e, zero_too) refl
  | inr e ↦
      let longer : string_length (x ∷ p) ≡ suc (string_length p) = rw e refl in
      let first : y ≡ x = h 0 (omega arith) in
      let next : (y == 0) ≡ false = ap (λ z. z == 0) first ∙ e in
      let rest =
        string_length-agrees p q (omega (arith, longer, l)) (omega (arith, longer, m))
          (λ i b. h (suc i) (omega (arith, longer, b))) in
      rw (e, next) (ap suc rest)
]

pub terminated : (p : List ℕ) → string_length p < length p → get_or p (string_length p) 0 ≡ 0
unfolding string_length
terminated [] l = refl
terminated (x ∷ p) l = elim (Bool-cases (x == 0)) [
  | inl e ↦ rw e (ground arith)
  | inr e ↦
      let longer : string_length (x ∷ p) ≡ suc (string_length p) = rw e refl in
      rw e (terminated p (omega (arith, longer, l)))
]

pub length-plain_copy : (bs old : List ℕ) → length (plain_copy bs old) ≡ length old
unfolding plain_copy
length-plain_copy [] old = refl
length-plain_copy (b ∷ bs) [] = refl
length-plain_copy (b ∷ bs) (x ∷ old) = ap suc (length-plain_copy bs old)

pub get_or-plain_copy :
    (bs old : List ℕ) (i : ℕ)
    → i < length bs
    → i < length old
    → get_or (plain_copy bs old) i 0 ≡ get_or bs i 0
unfolding plain_copy
get_or-plain_copy [] old i l m = absurd (omega arith)
get_or-plain_copy (b ∷ bs) [] i l m = absurd (omega arith)
get_or-plain_copy (b ∷ bs) (x ∷ old) zero l m = refl
get_or-plain_copy (b ∷ bs) (x ∷ old) (suc i) l m =
    get_or-plain_copy bs old i (omega arith) (omega arith)

pub length-take {ℓ} : {A : Type ℓ} (n : ℕ) (xs : List A) → n ≤ length xs → length (take n xs) ≡ n
length-take zero xs l = refl
length-take (suc n) [] l = absurd (omega arith)
length-take (suc n) (x ∷ xs) l = ap suc (length-take n xs (omega arith))

pub get_or-take {ℓ} :
    {A : Type ℓ} (n : ℕ) (xs : List A) (i : ℕ) (d : A)
    → i < n
    → get_or (take n xs) i d ≡ get_or xs i d
get_or-take zero xs i d l = absurd (omega arith)
get_or-take (suc n) [] i d l = refl
get_or-take (suc n) (x ∷ xs) zero d l = refl
get_or-take (suc n) (x ∷ xs) (suc i) d l = get_or-take n xs i d (omega arith)

-- What `nng_message_to_lugh` makes of the characters in a body and of the caller's payload.
abbrev pub unpacked : List ℕ → List ℕ → List ℕ
unpacked s old = let plen = clamp_payload (length s) in set (plain_copy (take plen s) old) plen 0

-- A string that is packed with its terminator and unpacked is the same string.
pub unpacked-SameString :
    (p old : List ℕ)
    → IsPayload p
    → length old ≡ max_msg_size
    → SameString p (unpacked (take (suc (string_length p)) p) old)
unpacked-SameString p old v w = record {
  same_length =
      string_length-agrees p (unpacked s old) (omega (arith, v.full_size, v.short))
        (omega (arith, v.short, size)) chars;
  chars = chars;
}
  where
    s : List ℕ
    s = take (suc (string_length p)) p

    plen : ℕ
    plen = clamp_payload (length s)

    size_s : length s ≡ suc (string_length p)
    size_s = length-take (suc (string_length p)) p (omega (arith, v.full_size, v.short))

    size : length (unpacked s old) ≡ max_msg_size
    size =
        length-set (plain_copy (take plen s) old) plen 0 ∙ length-plain_copy (take plen s) old ∙ w

    chars : (i : ℕ) → i ≤ string_length p → get_or (unpacked s old) i 0 ≡ get_or p i 0
    chars i l = elim (Bool-cases (i == plen)) [
      | inl e ↦
          let at : i ≡ plen = ground arith in
          let last : i ≡ string_length p = ground (arith, at, size_s, v.short, l) in
          ap (λ k. get_or (set front plen 0) k 0) at
          ∙ get_or-set_self front plen 0 0 (omega (arith, front_size, plen_small))
          ∙ sym (terminated p (omega (arith, v.full_size, v.short)))
          ∙ ap (λ k. get_or p k 0) (sym last)
      | inr e ↦
          let inside : i < plen = ground (arith, size_s, v.short, l) in
          get_or-set_ne front plen i 0 0 (λ f. omega (arith, f, inside))
          ∙ get_or-plain_copy (take plen s) old i
              (omega (arith, inside, length-take plen s plen_fits))
              (omega (arith, inside, plen_small, w))
          ∙ get_or-take plen s i 0 inside
          ∙ get_or-take (suc (string_length p)) p i 0 (omega (arith, l))
    ]
      where
        front : List ℕ
        front = plain_copy (take plen s) old

        front_size : length front ≡ max_msg_size
        front_size = length-plain_copy (take plen s) old ∙ w

        plen_small : plen < max_msg_size
        plen_small = ground arith

        plen_fits : plen ≤ length s
        plen_fits = ground arith
