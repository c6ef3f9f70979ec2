-- ===== src/Security/Copies/Moves.antt =====
-- kernel/mm/memory_utils.c: what the copies leave in memory.
use lugh_os.Base.{
  ℕ, zero, suc, ◌+◌, ◌-◌, ◌%◌, ◌^◌, ◌≤◌, ◌<◌, ltb, leb, if◌then◌else◌, true, false, ◌&&◌, ◌≡◌, ◌≢◌,
  ◌⊎◌, inl, inr, refl, sym, ap, subst, ◌∙◌, arith, Bool-cases, length,
}
use lugh_os.Security.Policy.{IsLayout, security_regions_init_lem}
use lugh_os.Security.{
  Regions, LinkLayout, max_protected_regions, security_regions_init,
  security_validate_memory_access,
}
use lugh_os.Security.Copies.{
  Bytes, store, copy_up, copy_down, may_copy, memcpy, memmove, fill, memset,
}

-- `m'` is `m` with the `n` bytes from `src` on copied to `dest`.
abbrev pub copied : Bytes → ℕ → ℕ → ℕ → Bytes
copied m dest src n x = if leb dest x && ltb x (dest + n) then m (src + (x - dest)) else m x

-- A copy upwards reads no byte that it has already written where it runs towards lower addresses
-- or the stretches lie apart.
abbrev pub Upward : ℕ → ℕ → ℕ → Type 0
Upward dest src n = (dest ≤ src) ⊎ (src + n ≤ dest)

eq_cases : (a b : ℕ) → (a ≡ b) ⊎ (a ≢ b)
eq_cases a b = ground arith

copy_up-at :
    (m : Bytes) (dest src i k x : ℕ)
    → Upward dest src (i + k)
    → copy_up m dest src i k x
      ≡ (if leb (dest + i) x && ltb x (dest + i + k) then m (src + (x - dest)) else m x)
unfolding copy_up
copy_up-at m dest src i zero x u = ground arith
copy_up-at m dest src i (suc k) x u =
    let v = m (src + i) in
    let rest = copy_up-at (store m (dest + i) v) dest src (suc i) k x (ground arith) in
    elim (eq_cases x (dest + i)) [
      | inl e ↦
          let same : src + (x - dest) ≡ src + i = omega (arith, e) in
          ground (arith, rest, e, ap m same)
      | inr n ↦ ground (arith, rest, n, u)
    ]

copy_down-at :
    (m : Bytes) (dest src k x : ℕ) → src ≤ dest → copy_down m dest src k x ≡ copied m dest src k x
unfolding copy_down
copy_down-at m dest src zero x u = ground arith
copy_down-at m dest src (suc k) x u =
    let rest = copy_down-at (store m (dest + k) (m (src + k))) dest src k x u in
    elim (eq_cases x (dest + k)) [
      | inl e ↦
          let same : src + (x - dest) ≡ src + k = omega (arith, e) in
          ground (arith, rest, e, ap m same)
      | inr n ↦ ground (arith, rest, n, u)
    ]

fill-at :
    (m : Bytes) (s c i k x : ℕ)
    → fill m s c i k x ≡ (if leb (s + i) x && ltb x (s + i + k) then c % 2 ^ 8 else m x)
unfolding fill
fill-at m s c i zero x = ground arith
fill-at m s c i (suc k) x = ground (arith, fill-at (store m (s + i) (c % 2 ^ 8)) s c (suc i) k x)

pub copy_up-copied :
    (m : Bytes) (dest src n x : ℕ)
    → Upward dest src n
    → copy_up m dest src 0 n x ≡ copied m dest src n x
copy_up-copied m dest src n x u = ground (arith, copy_up-at m dest src 0 n x (ground (arith, u)))

copied_self : (m : Bytes) (a n x : ℕ) → copied m a a n x ≡ m x
copied_self m a n x = elim (Bool-cases (leb a x)) [
  | inl e ↦ let same : a + (x - a) ≡ x = ground arith in ground (arith, ap m same)
  | inr e ↦ rw e refl
]

-- `memmove` copies the stretch as it was before the call, however the two stretches overlap;
-- where the check of either fails the memory stays as it was.
pub memmove_lem :
    (t : Regions) (m : Bytes) (dest src n x : ℕ)
    → memmove t m dest src n x ≡ (if may_copy t dest src n then copied m dest src n x else m x)
unfolding memmove
memmove_lem t m dest src n x = elim (Bool-cases (may_copy t dest src n)) [
  | inr bad ↦ rw bad refl
  | inl good ↦ rw good (moved (Bool-cases (ltb dest src)) (Bool-cases (ltb src dest)))
]
  where
    moved :
        (ltb dest src ≡ true) ⊎ (ltb dest src ≡ false)
        → (ltb src dest ≡ true) ⊎ (ltb src dest ≡ false)
        → (if ltb dest src
              then copy_up m dest src 0 n
              else if ltb src dest
              then copy_down m dest src n
              else m)
            x
          ≡ copied m dest src n x
    moved (inl up) c = rw up (copy_up-copied m dest src n x (inl (ground arith)))
    moved (inr e) (inl down) = rw (e, down) (copy_down-at m dest src n x (ground arith))
    moved (inr e) (inr f) =
        let same : dest ≡ src = ground arith in
        rw (e, f) (subst (λ a. m x ≡ copied m dest a n x) same (sym (copied_self m dest n x)))

-- `memcpy` does what `memmove` does unless the destination begins inside the source.
pub memcpy-memmove :
    (t : Regions) (m : Bytes) (dest src n x : ℕ)
    → Upward dest src n
    → memcpy t m dest src n x ≡ memmove t m dest src n x
unfolding memcpy
memcpy-memmove t m dest src n x u = elim (Bool-cases (may_copy t dest src n)) [
  | inr bad ↦ rw bad (sym (memmove_lem t m dest src n x ∙ rw bad refl))
  | inl good ↦
      rw good (copy_up-copied m dest src n x u ∙ sym (memmove_lem t m dest src n x ∙ rw good refl))
]

copy_up-outside :
    (m : Bytes) (dest src i k x : ℕ)
    → (x < dest + i) ⊎ (dest + i + k ≤ x)
    → copy_up m dest src i k x ≡ m x
unfolding copy_up
copy_up-outside m dest src i zero x u = refl
copy_up-outside m dest src i (suc k) x u =
    ground (
      arith,
      copy_up-outside (store m (dest + i) (m (src + i))) dest src (suc i) k x (ground arith),
    )

memset_lem :
    (t : Regions) (m : Bytes) (s c n x : ℕ)
    → memset t m s c n x ≡ (
        if security_validate_memory_access t s n true && leb s x && ltb x (s + n)
        then c % 2 ^ 8
        else m x)
unfolding memset
memset_lem t m s c n x = elim (Bool-cases (security_validate_memory_access t s n true)) [
  | inr bad ↦ rw bad refl
  | inl good ↦ rw good (ground (arith, fill-at m s c 0 n x))
]

-- A table that `security_regions_init` has built, and a byte that lies in the kernel's text and
-- constants or in the null page.
pub record IsGuarded (t : Regions) (k : LinkLayout) (x : ℕ) : Type 0 where
  pub room : length t.protected_regions ≡ max_protected_regions
  pub layout : IsLayout k
  pub inside : (x < 0x1000) ⊎ ((k.text_start ≤ x) × (x < k.rodata_end))

-- A write that is validated touches no guarded byte.
missed :
    (t : Regions) (k : LinkLayout) (addr n x : ℕ)
    → IsGuarded t k x
    → n < 2 ^ 32
    → security_validate_memory_access (security_regions_init t k) addr n true ≡ true
    → (x < addr) ⊎ (addr + n ≤ x)
missed t k addr zero x g l h = ground arith
missed t k addr (suc n) x g l h =
    let p = (security_regions_init_lem t k addr (suc n) true g.room g.layout (omega arith) l).0 h in
    ground (arith, p.above_null, p.read_only refl, g.inside)

-- No call of `memcpy`, `memmove` or `memset`, whatever its arguments, changes a byte of the
-- kernel's text and constants or of the null page, once the regions are set up.
pub kernel_text_unchanged :
    (t : Regions) (k : LinkLayout) (m : Bytes) (dest src c n x : ℕ)
    → IsGuarded t k x
    → n < 2 ^ 32
    → (memcpy (security_regions_init t k) m dest src n x ≡ m x)
      × (memmove (security_regions_init t k) m dest src n x ≡ m x)
      × (memset (security_regions_init t k) m dest c n x ≡ m x)
unfolding memcpy
kernel_text_unchanged t k m dest src c n x g l =
    let table = security_regions_init t k in
    let writes = security_validate_memory_access table dest n true in
    let reads = security_validate_memory_access table src n false in
    elim (Bool-cases writes) [
      | inr bad ↦ (
        rw bad refl,
        memmove_lem table m dest src n x ∙ rw bad refl,
        memset_lem table m dest c n x ∙ rw bad refl,
      )
      | inl good ↦
          let out = missed t k dest n x g l good in
          (
            ground (arith, copy_up-outside m dest src 0 n x (ground (arith, out))),
            memmove_lem table m dest src n x ∙ ground (arith, out),
            memset_lem table m dest c n x ∙ ground (arith, out),
          )
    ]
