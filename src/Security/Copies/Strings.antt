-- ===== src/Security/Copies/Strings.antt =====
-- kernel/mm/memory_utils.c: `strlen` and `strcpy`.
use lugh_os.Base.{
  ℕ, zero, suc, ◌+◌, ◌-◌, ◌^◌, ◌≤◌, ◌<◌, ◌==◌, true, false, not, ◌&&◌, ◌≡◌, ◌≢◌, ◌⊎◌, inl, inr, sym,
  ap, subst, ◌∙◌, arith, ==_ne,
}
use lugh_os.Security.{Regions, security_validate_memory_access}
use lugh_os.Security.Checks.{IsValid, IsAllowed, security_validate_memory_access_lem}
use lugh_os.Security.Copies.{Bytes, memcpy, max_string, readable, strlen_from, strlen, strcpy}
use lugh_os.Security.Copies.Moves.{Upward, copied, copy_up-copied}

-- A string of `n` characters at `s`: its bytes and the 0 behind them may be read.
pub record IsString (t : Regions) (m : Bytes) (s n : ℕ) : Type 0 where
  pub short : n ≤ max_string
  pub may_read : (i : ℕ) → i ≤ n → readable t (s + i) ≡ true
  pub chars : (i : ℕ) → i < n → m (s + i) ≢ 0
  pub terminated : m (s + n) ≡ 0

strlen_from-counts :
    (t : Regions) (m : Bytes) (s n len room : ℕ)
    → IsString t m s n
    → len ≤ n
    → n < len + room
    → strlen_from t m s len room ≡ n
unfolding strlen_from
strlen_from-counts t m s n len zero v l b = absurd (omega arith)
strlen_from-counts t m s n len (suc room) v l b = elim (at_end len n l) [
  | inl e ↦
      let stop : (readable t (s + len) && not (m (s + len) == 0)) ≡ false =
        subst (λ k. (readable t (s + k) && not (m (s + k) == 0)) ≡ false) (sym e)
          (ground (arith, v.terminated)) in
      rw stop e
  | inr c ↦ rw (v.may_read len l) (
      rw (==_ne (m (s + len)) 0 (v.chars len c))
        (strlen_from-counts t m s n (suc len) room v c (omega arith)))
]
  where
    at_end : (a b : ℕ) → a ≤ b → (a ≡ b) ⊎ (a < b)
    at_end a b l = ground arith

pub strlen_lem : (t : Regions) (m : Bytes) (s n : ℕ) → IsString t m s n → strlen t m s ≡ n
unfolding strlen
strlen_lem t m s n v =
    rw (let e : readable t s ≡ true = ground (arith, v.may_read 0 (omega arith)) in e)
      (strlen_from-counts t m s n 0 (suc max_string) v (omega arith) (omega (arith, v.short)))

-- Bytes that may each be read may be read together.
range_readable :
    (t : Regions) (s n : ℕ)
    → IsValid t
    → n < 2 ^ 32 - 1
    → ((i : ℕ) → i ≤ n → readable t (s + i) ≡ true)
    → security_validate_memory_access t s (suc n) false ≡ true
range_readable t s n v l r =
    (security_validate_memory_access_lem t s (suc n) false v (omega arith) (omega arith)).1 record {
      nonnull = λ e. (byte 0 (omega arith)).nonnull (omega (arith, e));
      in_space = omega (arith, (byte n (omega arith)).in_space);
      granted = λ x. λ i. λ a. λ b. λ c. λ h.
          (byte (x - s) (omega (arith, a, b))).granted x i (omega (arith, a)) (omega (arith, a)) c
            h;
    }
  where
    byte : (i : ℕ) → i ≤ n → IsAllowed t (s + i) 1 false
    byte i m =
        (security_validate_memory_access_lem t (s + i) 1 false v (omega arith) (omega arith)).0
          (r i m)

-- Bytes that may be written together may each be read.
byte_readable :
    (t : Regions) (s n i : ℕ)
    → IsValid t
    → n < 2 ^ 32 - 1
    → i ≤ n
    → security_validate_memory_access t s (suc n) true ≡ true
    → readable t (s + i) ≡ true
byte_readable t s n i v l b h =
    let a =
      (security_validate_memory_access_lem t s (suc n) true v (omega arith) (omega arith)).0 h in
    (security_validate_memory_access_lem t (s + i) 1 false v (omega arith) (omega arith)).1 record {
      nonnull = λ e. a.nonnull (omega (arith, e));
      in_space = omega (arith, a.in_space);
      granted = λ x. λ j. λ c. λ d.
          λ k. λ held. ((a.granted x j (omega arith) (omega arith) k held).0, λ e. absurd (cc));
    }

-- What `strcpy` leaves behind.
pub record IsCopy (t : Regions) (m m' : Bytes) (dest src n : ℕ) : Type 0 where
  pub string : IsString t m' dest n
  pub same : (i : ℕ) → i ≤ n → m' (dest + i) ≡ m (src + i)
  pub elsewhere : (x : ℕ) → (x < dest) ⊎ (dest + n < x) → m' x ≡ m x
  pub counted : strlen t m' dest ≡ n

strcpy-copied :
    (t : Regions) (m : Bytes) (dest src n x : ℕ)
    → IsValid t
    → IsString t m src n
    → security_validate_memory_access t dest (suc n) true ≡ true
    → Upward dest src (suc n)
    → strcpy t m dest src x ≡ copied m dest src (suc n) x
unfolding strcpy memcpy
strcpy-copied t m dest src n x v s w u =
    let size : strlen t m src + 1 ≡ suc n = omega (arith, strlen_lem t m src n s) in
    rw size (
      rw w (
        rw (range_readable t src n v (omega (arith, s.short)) s.may_read)
          (copy_up-copied m dest src (suc n) x u)))

copied-inside :
    (m : Bytes) (dest src n i : ℕ) → i < n → copied m dest src n (dest + i) ≡ m (src + i)
copied-inside m dest src n i l =
    let same : src + (dest + i - dest) ≡ src + i = omega arith in ground (arith, ap m same)

-- `strcpy` of a readable string of at most 10000 characters, to a place that may be written and
-- does not begin inside it, leaves the same string there and nothing else changed, and `strlen`
-- then counts its characters.
pub strlen-strcpy :
    (t : Regions) (m : Bytes) (dest src n : ℕ)
    → IsValid t
    → IsString t m src n
    → security_validate_memory_access t dest (suc n) true ≡ true
    → Upward dest src (suc n)
    → IsCopy t m (strcpy t m dest src) dest src n
strlen-strcpy t m dest src n v s w u = record {
  string = text;
  same = same;
  elsewhere = λ x. λ o. strcpy-copied t m dest src n x v s w u ∙ ground (arith, o);
  counted = strlen_lem t (strcpy t m dest src) dest n text;
}
  where
    same : (i : ℕ) → i ≤ n → strcpy t m dest src (dest + i) ≡ m (src + i)
    same i l =
        strcpy-copied t m dest src n (dest + i) v s w u
        ∙ copied-inside m dest src (suc n) i (omega arith)

    text : IsString t (strcpy t m dest src) dest n
    text = record {
      short = s.short;
      may_read = λ i. λ l. byte_readable t dest n i v (omega (arith, s.short)) l w;
      chars = λ i. λ l. λ e. s.chars i l (sym (same i (omega arith)) ∙ e);
      terminated = same n (omega arith) ∙ s.terminated;
    }
