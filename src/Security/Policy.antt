-- ===== src/Security/Policy.antt =====
-- kernel/security.c: the table that `security_regions_init` builds from the link layout, and what
-- it lets through.
use lugh_os.Base.{
  ℕ, zero, suc, ◌+◌, ◌-◌, ◌^◌, ◌≤◌, ◌<◌, leb, Bool, true, false, List, [], ◌∷◌, ◌++◌, get_or, set,
  take, length, ◌≡◌, ◌↔◌, ◌⊎◌, inl, inr, refl, sym, ap, subst, ◌∙◌, arith, length-set,
  length-append, ltb-false,
}
use lugh_os.Security.{
  MemRegion, Regions, LinkLayout, no_region, null_guard, kernel_text, kernel_data, kernel_heap,
  user_space, max_protected_regions, region_add, security_regions_init,
  security_validate_memory_access,
}
use lugh_os.Security.Checks.{IsValid, IsAllowed, Holds, Grants, security_validate_memory_access_lem}

take-set {ℓ} :
    {A : Type ℓ} (xs : List A) (n : ℕ) (v : A)
    → n < length xs
    → take (suc n) (set xs n v) ≡ take n xs ++ v ∷ []
take-set [] n v l = absurd (omega arith)
take-set (x ∷ xs) zero v l = refl
take-set (x ∷ xs) (suc n) v l = ap (λ t. x ∷ t) (take-set xs n v (omega arith))

get_or-take {ℓ} :
    {A : Type ℓ} (xs : List A) (n i : ℕ) (d : A) → i < n → get_or (take n xs) i d ≡ get_or xs i d
get_or-take xs zero i d l = absurd (omega arith)
get_or-take [] (suc n) i d l = refl
get_or-take (x ∷ xs) (suc n) zero d l = refl
get_or-take (x ∷ xs) (suc n) (suc i) d l = get_or-take xs n i d (omega arith)

-- A table whose regions in use are these.
pub record IsTable (t : Regions) (rs : List MemRegion) : Type 0 where
  pub room : length t.protected_regions ≡ max_protected_regions
  pub number : t.count ≡ length rs
  pub regions : take t.count t.protected_regions ≡ rs

region_add-IsTable :
    (t : Regions) (rs : List MemRegion) (r : MemRegion)
    → IsTable t rs
    → length rs < max_protected_regions
    → r.start_addr ≤ r.end_addr
    → IsTable (region_add t r) (rs ++ r ∷ [])
unfolding region_add
region_add-IsTable t rs r v l o =
    rw (let e : leb max_protected_regions t.count ≡ false = ground (arith, v.number) in e) (
      rw (ltb-false r.end_addr r.start_addr o) record {
        room = length-set t.protected_regions t.count r ∙ v.room;
        number = omega (arith, v.number, length-append rs (r ∷ []));
        regions =
            take-set t.protected_regions t.count r (omega (arith, v.number, v.room))
            ∙ ap (λ xs. xs ++ r ∷ []) v.regions;
      })

-- The link layout puts both kernel regions in the address space, neither empty.
pub record IsLayout (k : LinkLayout) : Type 0 where
  pub text : k.text_start < k.rodata_end
  pub text_end : k.rodata_end < 2 ^ 32
  pub data_region : k.data_start < k.bss_end
  pub data_end : k.bss_end < 2 ^ 32

abbrev all_regions : LinkLayout → List MemRegion
all_regions k = null_guard ∷ kernel_text k ∷ kernel_data k ∷ kernel_heap ∷ user_space ∷ []

pub init-IsTable :
    (t : Regions) (k : LinkLayout)
    → length t.protected_regions ≡ max_protected_regions
    → IsLayout k
    → IsTable (security_regions_init t k) (all_regions k)
unfolding security_regions_init
init-IsTable t k room v =
    let t0 : IsTable (record t { count = 0 }) [] = record {
      room = room;
      number = refl;
      regions = refl;
    } in
    let t1 = region_add-IsTable _ [] null_guard t0 (omega arith) (omega arith) in
    let t2 =
      region_add-IsTable _ _ (kernel_text k) t1 (omega arith) (omega (arith, v.text, v.text_end)) in
    let t3 =
      region_add-IsTable _ _ (kernel_data k) t2 (omega arith)
        (omega (arith, v.data_region, v.data_end)) in
    let t4 = region_add-IsTable _ _ kernel_heap t3 (omega arith) (omega arith) in
    region_add-IsTable _ _ user_space t4 (omega arith) (omega arith)

region_of :
    (t : Regions) (rs : List MemRegion) (i : ℕ)
    → IsTable t rs
    → i < t.count
    → get_or t.protected_regions i no_region ≡ get_or rs i no_region
region_of t rs i v l =
    sym (get_or-take t.protected_regions t.count i no_region l)
    ∙ ap (λ xs. get_or xs i no_region) v.regions

region_ordered :
    (k : LinkLayout) (i : ℕ)
    → IsLayout k
    → i < 5
    → (get_or (all_regions k) i no_region).start_addr
      ≤ (get_or (all_regions k) i no_region).end_addr
region_ordered k zero v l = omega arith
region_ordered k (suc zero) v l = omega (arith, v.text, v.text_end)
region_ordered k (suc (suc zero)) v l = omega (arith, v.data_region, v.data_end)
region_ordered k (suc (suc (suc zero))) v l = omega arith
region_ordered k (suc (suc (suc (suc zero)))) v l = omega arith
region_ordered k (suc (suc (suc (suc (suc i))))) v l = absurd (omega arith)

pub IsTable-IsValid :
    (t : Regions) (k : LinkLayout) → IsTable t (all_regions k) → IsLayout k → IsValid t
IsTable-IsValid t k v w = record {
  room = v.room;
  bound = omega (arith, v.number);
  ordered = λ i. λ l.
      subst (λ r. r.start_addr ≤ r.end_addr) (sym (region_of t (all_regions k) i v l))
        (region_ordered k i w (omega (arith, v.number)));
}

-- The accesses that the built table lets through: above the null page and, for a write, clear of
-- the kernel's text and constants.
pub record IsPermitted (k : LinkLayout) (addr size : ℕ) (write : Bool) : Type 0 where
  pub above_null : 0x1000 ≤ addr
  pub in_space : addr + size ≤ 2 ^ 32 - 1
  pub read_only : write ≡ true → (addr + size ≤ k.text_start) ⊎ (k.rodata_end ≤ addr)

granted_region :
    (k : LinkLayout) (addr size x i : ℕ) (write : Bool)
    → IsLayout k
    → IsPermitted k addr size write
    → addr ≤ x
    → x < addr + size
    → i < 5
    → Holds (get_or (all_regions k) i no_region) x
    → Grants (get_or (all_regions k) i no_region) write
granted_region k addr size x zero write v p a b l h = absurd (omega (arith, p.above_null, h.1))
granted_region k addr size x (suc zero) write v p a b l h =
    (refl, λ w. absurd (grind (arith, p.read_only w, h.0, h.1, v.text, v.text_end)))
granted_region k addr size x (suc (suc zero)) write v p a b l h = (refl, λ w. refl)
granted_region k addr size x (suc (suc (suc zero))) write v p a b l h = (refl, λ w. refl)
granted_region k addr size x (suc (suc (suc (suc zero)))) write v p a b l h = (refl, λ w. refl)
granted_region k addr size x (suc (suc (suc (suc (suc i))))) write v p a b l h =
    absurd (omega arith)

le_or_lt : (a b : ℕ) → (a ≤ b) ⊎ (b < a)
le_or_lt a b = ground arith

unreadable : false ≡ true → ⊥
unreadable e = cc

-- Two stretches of addresses, neither empty, lie apart or share one.
clear_cases :
    (addr size lo hi : ℕ)
    → 0 < size
    → lo < hi
    → ((addr + size ≤ lo) ⊎ (hi ≤ addr))
      ⊎ ((x : ℕ) × (addr ≤ x) × (x < addr + size) × (lo ≤ x) × (x < hi))
clear_cases addr size lo hi p q = elim (le_or_lt (addr + size) lo) [
  | inl l ↦ inl (inl l)
  | inr l ↦ (elim (le_or_lt hi addr) [
    | inl m ↦ inl (inr m)
    | inr m ↦ (elim (le_or_lt addr lo) [
      | inl n ↦ inr (lo, n, l, omega arith, q)
      | inr n ↦ inr (addr, omega arith, omega arith, omega arith, m)
    ])
  ])
]

permitted :
    (t : Regions) (k : LinkLayout) (addr size : ℕ) (write : Bool)
    → IsTable t (all_regions k)
    → IsLayout k
    → 0 < size
    → IsAllowed t addr size write
    → IsPermitted k addr size write
permitted t k addr size write v w p a = record {
  above_null = elim (le_or_lt 0x1000 addr) [
    | inl l ↦ l
    | inr l ↦ absurd (
        unreadable
          (grants addr 0 (omega arith) (omega arith) (omega arith) (omega arith, omega arith)).0)
  ];
  in_space = a.in_space;
  read_only = λ wr. elim (clear_cases addr size k.text_start k.rodata_end p w.text) [
    | inl clear ↦ clear
    | inr (x, l, m, lo, hi) ↦
        absurd
          (unreadable ((grants x 1 l m (omega arith) (lo, omega (arith, hi, w.text_end))).1 wr))
  ];
}
  where
    grants :
        (x i : ℕ)
        → addr ≤ x
        → x < addr + size
        → i < 5
        → Holds (get_or (all_regions k) i no_region) x
        → Grants (get_or (all_regions k) i no_region) write
    grants x i l m b =
        subst (λ r. Holds r x → Grants r write)
          (region_of t (all_regions k) i v (omega (arith, v.number)))
          (a.granted x i l m (omega (arith, v.number)))

-- After `security_regions_init`, over any link layout, an access of some bytes is validated
-- exactly where it stays above the null page, ends before the end of the address space and, for
-- a write, touches no byte of the kernel's text and constants.
pub security_regions_init_lem :
    (t : Regions) (k : LinkLayout) (addr size : ℕ) (write : Bool)
    → length t.protected_regions ≡ max_protected_regions
    → IsLayout k
    → 0 < size
    → size < 2 ^ 32
    → (security_validate_memory_access (security_regions_init t k) addr size write ≡ true)
      ↔ IsPermitted k addr size write
security_regions_init_lem t k addr size write room v p q =
    let built = init-IsTable t k room v in
    let table = security_regions_init t k in
    let check =
      security_validate_memory_access_lem table addr size write (IsTable-IsValid table k built v) p
        q in
    (
      λ h. permitted table k addr size write built v p (check.0 h),
      λ m. check.1 record {
        nonnull = λ e. omega (arith, e, m.above_null);
        in_space = m.in_space;
        granted = λ x. λ i. λ a. λ b. λ l.
            subst (λ r. Holds r x → Grants r write)
              (sym (region_of table (all_regions k) i built l))
              (granted_region k addr size x i write v m a b (omega (arith, built.number)));
      },
    )
