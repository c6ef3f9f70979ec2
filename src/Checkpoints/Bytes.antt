-- ===== src/Checkpoints/Bytes.antt =====
-- Reading and writing a region of the memory.
use lugh_os.Base.{
  ℕ, zero, suc, ◌+◌, ◌-◌, ◌<◌, ◌≤◌, leb, ltb, if◌then◌else◌, Bool, false, ◌&&◌, List, [], ◌∷◌, ◌++◌,
  get_or, length, take, ◌≡◌, refl, ap, ap₂, ◌∙◌, arith, Bool-cases, inl, inr,
}
use lugh_os.Checkpoints.{RegisteredBuffer, read_bytes, write_bytes}

pub read-length : (m : ℕ → ℕ) (a n : ℕ) → length (read_bytes m a n) ≡ n
read-length m a zero = refl
read-length m a (suc n) = ap suc (read-length m (a + 1) n)

pub take-append : (xs ys : List ℕ) (n : ℕ) → length xs ≡ n → take n (xs ++ ys) ≡ xs
take-append [] ys zero e = refl
take-append [] ys (suc n) e = absurd (omega arith)
take-append (x ∷ xs) ys zero e = absurd (omega arith)
take-append (x ∷ xs) ys (suc n) e = ap (λ zs. x ∷ zs) (take-append xs ys n (omega arith))

get_or-read : (m : ℕ → ℕ) (a n i : ℕ) → i < n → get_or (read_bytes m a n) i 0 ≡ m (a + i)
get_or-read m a zero i l = absurd (omega arith)
get_or-read m a (suc n) zero l = ap m (omega arith)
get_or-read m a (suc n) (suc i) l = get_or-read m (a + 1) n i (omega arith) ∙ ap m (omega arith)

-- Two memories that agree on a region read the same there.
pub read_ext :
    (m l : ℕ → ℕ) (a n : ℕ)
    → ((x : ℕ) → a ≤ x → x < a + n → m x ≡ l x)
    → read_bytes m a n ≡ read_bytes l a n
read_ext m l a zero h = refl
read_ext m l a (suc n) h =
    ap₂ (λ x xs. x ∷ xs) (h a (omega arith) (omega arith))
      (read_ext m l (a + 1) n (λ x p q. h x (omega arith) (omega arith)))

write-inside :
    (m l : ℕ → ℕ) (a n x : ℕ) → a ≤ x → x < a + n → write_bytes m a (read_bytes l a n) x ≡ l x
write-inside m l a n x p q =
    let at : get_or (read_bytes l a n) (x - a) 0 ≡ l x =
      get_or-read l a n (x - a) (omega arith) ∙ ap l (omega arith) in
    ground (arith, read-length l a n)

write-outside :
    (m : ℕ → ℕ) (bs : List ℕ) (a x : ℕ)
    → (leb a x && ltb x (a + length bs)) ≡ false
    → write_bytes m a bs x ≡ m x
write-outside m bs a x h = rw h refl

-- `x` is a byte of the region.
abbrev pub inside : RegisteredBuffer → ℕ → Bool
inside b x = leb b.data_ptr x && ltb x (b.data_ptr + b.size)

pub write_lem :
    (m old : ℕ → ℕ) (b : RegisteredBuffer) (x : ℕ)
    → write_bytes m b.data_ptr (read_bytes old b.data_ptr b.size) x
      ≡ (if inside b x then old x else m x)
write_lem m old b x =
    let n = read-length old b.data_ptr b.size in
    elim (Bool-cases (inside b x)) [
      | inl hit ↦ rw hit (write-inside m old b.data_ptr b.size x (ground arith) (ground arith))
      | inr miss ↦
          rw miss (write-outside m (read_bytes old b.data_ptr b.size) b.data_ptr x (rw n miss))
    ]
