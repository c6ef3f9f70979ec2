-- ===== src/Security/Checks.antt =====
-- kernel/security.c: the check of an access against the bytes that it touches.
use lugh_os.Base.{
  ℕ, zero, suc, ◌+◌, ◌-◌, ◌%◌, ◌^◌, ◌≤◌, ◌<◌, ltb, leb, ◌==◌, Bool, true, List, [], ◌∷◌, get_or,
  length, ◌≡◌, ◌≢◌, ◌↔◌, inl, inr, refl, sym, ◌∙◌, arith, Bool-cases, length-set, get_or-set, ==_ne,
  ltb-false,
}
use lugh_os.Security.{
  MemRegion, Regions, no_region, max_protected_regions, region_add, overlaps, permits,
  check_regions, security_validate_memory_access,
}

-- A table with room for eight regions, of which those in use are not inverted.
pub record IsValid (t : Regions) : Type 0 where
  pub room : length t.protected_regions ≡ max_protected_regions
  pub bound : t.count ≤ max_protected_regions
  pub ordered :
      (i : ℕ)
      → i < t.count
      → (get_or t.protected_regions i no_region).start_addr
        ≤ (get_or t.protected_regions i no_region).end_addr

-- `region_add` stores no inverted region and never leaves the table, also when it is full.
pub region_add-IsValid : (t : Regions) (r : MemRegion) → IsValid t → IsValid (region_add t r)
unfolding region_add
region_add-IsValid t r v = elim (Bool-cases (leb max_protected_regions t.count)) [
  | inl full ↦ rw full v
  | inr room ↦ (elim (Bool-cases (ltb r.end_addr r.start_addr)) [
    | inl inverted ↦ rw room (rw inverted v)
    | inr fine ↦ rw room (
        rw fine record {
          room = length-set t.protected_regions t.count r ∙ v.room;
          bound = ground arith;
          ordered = λ i. λ l. ground (
            arith,
            get_or-set t.protected_regions t.count i r no_region (ground (arith, v.room)),
            v.ordered i,
          );
        })
  ])
]

-- The byte `x` lies in the region.
abbrev pub Holds : MemRegion → ℕ → Type 0
Holds r x = (r.start_addr ≤ x) × (x ≤ r.end_addr)

-- What a region says to a read, and to a write.
abbrev pub Grants : MemRegion → Bool → Type 0
Grants r write = (r.read_allowed ≡ true) × (write ≡ true → r.write_allowed ≡ true)

permits_iff : (r : MemRegion) (write : Bool) → (permits r write ≡ true) ↔ Grants r write
permits_iff r write = ground arith

-- An access overlaps a region where some byte lies in both.
overlaps_iff :
    (r : MemRegion) (a e : ℕ)
    → a ≤ e
    → r.start_addr ≤ r.end_addr
    → (overlaps r a e ≡ true) ↔ ((x : ℕ) × (a ≤ x) × (x ≤ e) × Holds r x)
overlaps_iff r a e l o = (there, back)
  where
    there : overlaps r a e ≡ true → (x : ℕ) × (a ≤ x) × (x ≤ e) × Holds r x
    there h = elim (Bool-cases (leb a r.start_addr)) [
      | inl b ↦ (r.start_addr, ground arith, ground arith, (ground arith, ground arith))
      | inr b ↦ (a, ground arith, ground arith, (ground arith, ground arith))
    ]

    back : (x : ℕ) × (a ≤ x) × (x ≤ e) × Holds r x → overlaps r a e ≡ true
    back (x, p, q, (s, t)) = ground arith

-- The first `n` regions, each by its index.
abbrev AllPermit : ℕ → List MemRegion → ℕ → ℕ → Bool → Type 0
AllPermit n rs a e write =
    (i : ℕ)
    → i < n
    → overlaps (get_or rs i no_region) a e ≡ true
    → permits (get_or rs i no_region) write ≡ true

check_regions_sound :
    (n : ℕ) (rs : List MemRegion) (a e : ℕ) (write : Bool)
    → n ≤ length rs
    → check_regions n rs a e write ≡ true
    → AllPermit n rs a e write
unfolding check_regions
check_regions_sound zero rs a e write l h i m o = absurd (omega arith)
check_regions_sound (suc n) [] a e write l h i m o = absurd (omega arith)
check_regions_sound (suc n) (r ∷ rs) a e write l h zero m o =
    grind (arith, h, o, Bool-cases (permits r write))
check_regions_sound (suc n) (r ∷ rs) a e write l h (suc i) m o =
    check_regions_sound n rs a e write (omega arith)
      (grind (arith, h, Bool-cases (permits r write), Bool-cases (overlaps r a e))) i (omega arith)
      o

check_regions_complete :
    (n : ℕ) (rs : List MemRegion) (a e : ℕ) (write : Bool)
    → n ≤ length rs
    → AllPermit n rs a e write
    → check_regions n rs a e write ≡ true
unfolding check_regions
check_regions_complete zero rs a e write l h = refl
check_regions_complete (suc n) [] a e write l h = refl
check_regions_complete (suc n) (r ∷ rs) a e write l h =
    let rest =
      check_regions_complete n rs a e write (omega arith) (λ i. λ m. h (suc i) (omega arith)) in
    elim (Bool-cases (overlaps r a e)) [
      | inl o ↦ rw o (rw (h 0 (omega arith) o) rest)
      | inr o ↦ rw o rest
    ]

-- Every byte of the access is one that every region which holds it grants.
pub record IsAllowed (t : Regions) (addr size : ℕ) (write : Bool) : Type 0 where
  pub nonnull : addr ≢ 0
  pub in_space : addr + size ≤ 2 ^ 32 - 1
  pub granted :
      (x i : ℕ)
      → addr ≤ x
      → x < addr + size
      → i < t.count
      → Holds (get_or t.protected_regions i no_region) x
      → Grants (get_or t.protected_regions i no_region) write

last_byte :
    (addr size : ℕ)
    → 0 < size
    → addr + size ≤ 2 ^ 32 - 1
    → (addr + size - 1) % 2 ^ 32 ≡ addr + size - 1
last_byte addr size p l = omega arith

checked :
    (t : Regions) (addr size : ℕ) (write : Bool)
    → 0 < size
    → addr ≢ 0
    → addr + size ≤ 2 ^ 32 - 1
    → security_validate_memory_access t addr size write
      ≡ check_regions t.count t.protected_regions addr (addr + size - 1) write
unfolding security_validate_memory_access
checked t addr size write p n l = rw (==_ne addr 0 n) (
    rw (let e : ltb 0 size ≡ true = ground arith in e)
      (rw (ltb-false (2 ^ 32 - 1 - size) addr (omega arith)) (rw (last_byte addr size p l) refl)))

refused :
    (t : Regions) (addr size : ℕ) (write : Bool)
    → 0 < size
    → size < 2 ^ 32
    → security_validate_memory_access t addr size write ≡ true
    → (addr ≢ 0) × (addr + size ≤ 2 ^ 32 - 1)
unfolding security_validate_memory_access
refused t addr size write p q h = ground (
  arith,
  h,
  Bool-cases (addr == 0),
  Bool-cases (ltb 0 size),
  Bool-cases (ltb (2 ^ 32 - 1 - size) addr),
)

-- An access of some bytes is validated exactly where it starts at no null pointer, ends before
-- the end of the address space, and each region in use that holds one of its bytes grants it.
pub security_validate_memory_access_lem :
    (t : Regions) (addr size : ℕ) (write : Bool)
    → IsValid t
    → 0 < size
    → size < 2 ^ 32
    → (security_validate_memory_access t addr size write ≡ true) ↔ IsAllowed t addr size write
security_validate_memory_access_lem t addr size write v p q = (there, back)
  where
    region : ℕ → MemRegion
    region i = get_or t.protected_regions i no_region

    fits : t.count ≤ length t.protected_regions
    fits = omega (arith, v.room, v.bound)

    there : security_validate_memory_access t addr size write ≡ true → IsAllowed t addr size write
    there h =
        let (n, l) = refused t addr size write p q h in
        let all =
          check_regions_sound t.count t.protected_regions addr (addr + size - 1) write fits
            (sym (checked t addr size write p n l) ∙ h) in
        record {
          nonnull = n;
          in_space = l;
          granted = λ x. λ i. λ a. λ b. λ c. λ holds. (permits_iff (region i) write).0 (
              all i c (
                (overlaps_iff (region i) addr (addr + size - 1) (omega arith) (v.ordered i c)).1
                  (x, a, omega arith, holds)));
        }

    back : IsAllowed t addr size write → security_validate_memory_access t addr size write ≡ true
    back a =
        checked t addr size write p a.nonnull a.in_space
        ∙ check_regions_complete t.count t.protected_regions addr (addr + size - 1) write fits (λ i.
          λ c. λ o.
            let (x, l, m, holds) =
              (overlaps_iff (region i) addr (addr + size - 1) (omega arith) (v.ordered i c)).0 o in
            (permits_iff (region i) write).1 (a.granted x i l (omega arith) c holds))
