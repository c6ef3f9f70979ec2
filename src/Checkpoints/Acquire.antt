-- ===== src/Checkpoints/Acquire.antt =====
-- `acquire_slot` (services/storage/transactions.c): the slot that a key gets.
use lugh_os.Base.{
  ℕ, zero, suc, ◌<◌, leb, true, false, List, [], ◌∷◌, get_or, set, length, none, some, ◌≡◌, refl,
  arith, Option-cases, inl, inr, ==_refl,
}
use lugh_os.Base.Search.{first_where, first_where-lt, first_where-set-none}
use lugh_os.Checkpoints.{
  Store, empty_slot, key_equal, slot_matches, find_slot, is_free_slot, acquire_slot,
}

key_equal_refl : (n : ℕ) (a : List ℕ) → key_equal n a a ≡ true
unfolding key_equal
key_equal_refl zero a = refl
key_equal_refl (suc n) [] = refl
key_equal_refl (suc n) (x ∷ a) = rw (==_refl x) (key_equal_refl n a)

-- What `acquire_slot` guarantees when it gives slot `j`.
pub record Acquired (s : Store) (key : List ℕ) (j : ℕ) (t : Store) : Type 0 where
  pub finds : find_slot t key ≡ some j
  pub same_bytes : t.bytes ≡ s.bytes
  pub same_buffers : t.registered_buffers ≡ s.registered_buffers
  pub same_data : t.slot_data ≡ s.slot_data
  pub same_regions : t.regions ≡ s.regions
  pub within : j < length s.checkpoint_slots

acquire_slot-old :
    (s : Store) (key : List ℕ) (i : ℕ) → find_slot s key ≡ some i → acquire_slot s key ≡ (some i, s)
unfolding acquire_slot
acquire_slot-old s key i e = rw (e, acquire_slot) refl

abbrev pub claim_free : Store → List ℕ → ℕ → Store
claim_free s key i = record s {
  checkpoint_slots =
      set s.checkpoint_slots i
        (record (get_or s.checkpoint_slots i empty_slot) { key = key; in_use = true });
}

claim_free-Acquired :
    (s : Store) (key : List ℕ) (i : ℕ)
    → find_slot s key ≡ none
    → first_where is_free_slot s.checkpoint_slots ≡ some i
    → Acquired s key i (claim_free s key i)
claim_free-Acquired s key i new free = record {
  finds =
      first_where-set-none (slot_matches key) s.checkpoint_slots i
        (record (get_or s.checkpoint_slots i empty_slot) { key = key; in_use = true }) new
        (first_where-lt is_free_slot s.checkpoint_slots i free) (key_equal_refl 64 key);
  same_bytes = refl;
  same_buffers = refl;
  same_data = refl;
  same_regions = refl;
  within = first_where-lt is_free_slot s.checkpoint_slots i free;
}

acquire_slot-new :
    (s : Store) (key : List ℕ) (i : ℕ)
    → find_slot s key ≡ none
    → first_where is_free_slot s.checkpoint_slots ≡ some i
    → leb 64 (length key) ≡ false
    → acquire_slot s key ≡ (some i, claim_free s key i)
unfolding acquire_slot
acquire_slot-new s key i new free short = rw (new, free, short, acquire_slot) refl

abbrev pub Gave : Store → List ℕ → Type 0
Gave s key = (j : ℕ) × (t : Store) × (acquire_slot s key ≡ (some j, t)) × Acquired s key j t

-- A key in use, or a short key and a free slot, is all that `acquire_slot` needs.
pub acquire_slot_lem :
    (s : Store) (key : List ℕ) (f : ℕ)
    → first_where is_free_slot s.checkpoint_slots ≡ some f
    → length key < 64
    → Gave s key
acquire_slot_lem s key f free short = elim (Option-cases (find_slot s key)) [
  | inl new ↦ (
    f,
    claim_free s key f,
    acquire_slot-new s key f new free (ground arith),
    claim_free-Acquired s key f new free,
  )
  | inr (i, old) ↦ (
    i,
    s,
    acquire_slot-old s key i old,
    record {
      finds = old;
      same_bytes = refl;
      same_buffers = refl;
      same_data = refl;
      same_regions = refl;
      within = first_where-lt (slot_matches key) s.checkpoint_slots i old;
    },
  )
]
