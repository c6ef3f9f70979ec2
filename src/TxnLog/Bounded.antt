-- ===== src/TxnLog/Bounded.antt =====
-- One call of `log_transaction` (kernel/fs/storage.c), against the list of the live entries.
use lugh_os.Base.{
  ℕ, zero, suc, ◌+◌, ◌-◌, ◌%◌, ◌^◌, ◌≤◌, ◌<◌, leb, if◌then◌else◌, List, [], ◌∷◌, ◌++◌, get_or, set,
  drop, bit_and, length, length-set, get_or-set_self, get_or-set_ne, Option, some, ◌≡◌, ◌≢◌, refl,
  false, true, ap, ap₂, ◌∙◌, sym, subst, arith, Bool-cases, inl, inr,
}
use lugh_os.Base.Masks.{bit_and-mask}
use lugh_os.Task.{Task}
use lugh_os.Telemetry.{Auditor}
use lugh_os.TxnLog.{
  TxnEntry, empty_entry, txn_log_entries, TxnLog, txn_log_get_depth, make_room, stamp, store,
  log_transaction,
}

pub record IsValid (l : TxnLog) : Type 0 where
  pub storage : length l.txn_log ≡ txn_log_entries
  pub head_in : l.head < 2 ^ 32
  pub tail_in : l.tail < 2 ^ 32
  pub within : txn_log_get_depth l ≤ txn_log_entries

-- The `n` entries from position `h` on, oldest first.
abbrev pub window : List TxnEntry → ℕ → ℕ → List TxnEntry
window buf h zero = []
window buf h (suc n) = get_or buf (h % txn_log_entries) empty_entry ∷ window buf (h + 1) n

abbrev pub contents : TxnLog → List TxnEntry
contents l = window l.txn_log l.tail (txn_log_get_depth l)

pub length-window : (buf : List TxnEntry) (h n : ℕ) → length (window buf h n) ≡ n
length-window buf h zero = refl
length-window buf h (suc n) = ap suc (length-window buf (h + 1) n)

window_mod :
    (buf : List TxnEntry) (h k n : ℕ)
    → h % txn_log_entries ≡ k % txn_log_entries
    → window buf h n ≡ window buf k n
window_mod buf h k zero e = refl
window_mod buf h k (suc n) e =
    ap₂ (λ i xs. get_or buf i empty_entry ∷ xs) e (window_mod buf (h + 1) (k + 1) n (omega arith))

window-set :
    (buf : List TxnEntry) (h n w : ℕ) (m : TxnEntry)
    → ((i : ℕ) → i < n → (h + i) % txn_log_entries ≢ w)
    → window (set buf w m) h n ≡ window buf h n
window-set buf h zero w m away = refl
window-set buf h (suc n) w m away =
    ap₂ (λ x xs. x ∷ xs)
      (get_or-set_ne buf w (h % txn_log_entries) m empty_entry
        (λ e. away 0 (omega arith) (omega arith)))
      (window-set buf (h + 1) n w m (λ i l e. away (suc i) (omega arith) (omega arith)))

-- A window is its first entries and its last one.
window_back :
    (buf : List TxnEntry) (h n : ℕ)
    → window buf h (suc n)
      ≡ window buf h n ++ get_or buf ((h + n) % txn_log_entries) empty_entry ∷ []
window_back buf h zero = ap (λ i. get_or buf (i % txn_log_entries) empty_entry ∷ []) (omega arith)
window_back buf h (suc n) =
    ap (λ xs. get_or buf (h % txn_log_entries) empty_entry ∷ xs)
      (window_back buf (h + 1) n
        ∙ ap (λ i. window buf (h + 1) n ++ get_or buf (i % txn_log_entries) empty_entry ∷ [])
            (omega arith))

depth-store :
    (l : TxnLog) (e : TxnEntry)
    → IsValid l
    → txn_log_get_depth l < txn_log_entries
    → txn_log_get_depth (store l e) ≡ suc (txn_log_get_depth l)
unfolding txn_log_get_depth store
depth-store l e v room = omega (arith, v.head_in, v.tail_in)

slot_lem : (h : ℕ) → bit_and h (txn_log_entries - 1) ≡ h % txn_log_entries
slot_lem h = bit_and-mask 8 h

store-IsValid :
    (l : TxnLog) (e : TxnEntry)
    → IsValid l
    → txn_log_get_depth l < txn_log_entries
    → IsValid (store l e)
unfolding store
store-IsValid l e v room = record {
  storage = length-set l.txn_log (bit_and l.head (txn_log_entries - 1)) e ∙ v.storage;
  head_in = omega arith;
  tail_in = v.tail_in;
  within = (let d = depth-store l e v room in omega arith);
}

-- The position after the live entries is the head.
end_slot :
    (l : TxnLog)
    → IsValid l
    → (l.tail + txn_log_get_depth l) % txn_log_entries ≡ l.head % txn_log_entries
unfolding txn_log_get_depth
end_slot l v = omega (arith, v.head_in, v.tail_in)

written :
    (l : TxnLog) (e : TxnEntry) → (store l e).txn_log ≡ set l.txn_log (l.head % txn_log_entries) e
unfolding store
written l e = ap (λ i. set l.txn_log i e) (slot_lem l.head)

overflow-store : (l : TxnLog) (e : TxnEntry) → (store l e).overflow ≡ l.overflow
unfolding store
overflow-store l e = refl

contents-store :
    (l : TxnLog) (e : TxnEntry)
    → IsValid l
    → txn_log_get_depth l < txn_log_entries
    → contents (store l e) ≡ contents l ++ e ∷ []
unfolding store
contents-store l e v room =
    let d = txn_log_get_depth l in
    let h = l.head % txn_log_entries in
    ap₂ (λ buf n. window buf l.tail n) (written l e) (depth-store l e v room)
    ∙ window_back (set l.txn_log h e) l.tail d
    ∙ ap₂ (λ xs x. xs ++ x ∷ [])
        (window-set l.txn_log l.tail d h e (λ i lt eq. omega (arith, end_slot l v)))
        (ap (λ i. get_or (set l.txn_log h e) i empty_entry) (end_slot l v)
          ∙ get_or-set_self l.txn_log h e empty_entry (omega (arith, v.storage)))

-- A full log without its oldest entry.
abbrev drop_oldest : TxnLog → TxnLog
drop_oldest l = record l { tail = (l.tail + 1) % 2 ^ 32; overflow = (l.overflow + 1) % 2 ^ 32 }

depth-drop_oldest :
    (l : TxnLog) → IsValid l → txn_log_get_depth l ≡ 256 → txn_log_get_depth (drop_oldest l) ≡ 255
unfolding txn_log_get_depth
depth-drop_oldest l v full = omega (arith, v.head_in, v.tail_in)

drop_oldest-IsValid : (l : TxnLog) → IsValid l → txn_log_get_depth l ≡ 256 → IsValid (drop_oldest l)
drop_oldest-IsValid l v full = record {
  storage = v.storage;
  head_in = v.head_in;
  tail_in = omega arith;
  within = (let d = depth-drop_oldest l v full in omega arith);
}

contents-drop_oldest :
    (l : TxnLog)
    → IsValid l
    → txn_log_get_depth l ≡ 256
    → contents (drop_oldest l) ≡ drop 1 (contents l)
contents-drop_oldest l v full =
    ap (window l.txn_log ((l.tail + 1) % 2 ^ 32)) (depth-drop_oldest l v full)
    ∙ window_mod l.txn_log ((l.tail + 1) % 2 ^ 32) (l.tail + 1) 255 (omega arith)
    ∙ ap (λ n. drop 1 (window l.txn_log l.tail n)) (sym full)

make_room-full :
    (a : Auditor) (l : TxnLog)
    → IsValid l
    → leb txn_log_entries (txn_log_get_depth l) ≡ true
    → ((make_room a l).1 ≡ drop_oldest l) × (txn_log_get_depth l ≡ 256)
unfolding make_room
make_room-full a l v full = (rw full refl, ground (arith, v.within))

make_room-space :
    (a : Auditor) (l : TxnLog)
    → leb txn_log_entries (txn_log_get_depth l) ≡ false
    → (make_room a l).1 ≡ l
unfolding make_room
make_room-space a l space = rw space refl

-- The entries without the oldest, if there are 256 of them.
abbrev pub trimmed : List TxnEntry → List TxnEntry
trimmed es = if leb txn_log_entries (length es) then drop 1 es else es

-- How many entries are dropped to make room.
abbrev pub excess : List TxnEntry → ℕ
excess es = if leb txn_log_entries (length es) then 1 else 0

abbrev Roomy : TxnLog → TxnLog → Type 0
Roomy l l' =
    IsValid l'
    × (txn_log_get_depth l' < txn_log_entries)
    × (contents l' ≡ trimmed (contents l))
    × (l'.overflow ≡ (l.overflow + excess (contents l)) % 2 ^ 32)

drop_oldest-Roomy : (l : TxnLog) → IsValid l → txn_log_get_depth l ≡ 256 → Roomy l (drop_oldest l)
drop_oldest-Roomy l v d =
    let n = length-window l.txn_log l.tail (txn_log_get_depth l) in
    let many : leb txn_log_entries (length (contents l)) ≡ true = ground arith in
    (
      drop_oldest-IsValid l v d,
      omega (arith, depth-drop_oldest l v d),
      contents-drop_oldest l v d
          ∙ sym (ap (λ t. if t then drop 1 (contents l) else contents l) many),
      ap (λ t. (l.overflow + (if t then 1 else 0)) % 2 ^ 32) (sym many),
    )

space-Roomy :
    (l : TxnLog)
    → IsValid l
    → l.overflow < 2 ^ 32
    → leb txn_log_entries (txn_log_get_depth l) ≡ false
    → Roomy l l
space-Roomy l v o space =
    let n = length-window l.txn_log l.tail (txn_log_get_depth l) in
    let few : leb txn_log_entries (length (contents l)) ≡ false = ground arith in
    (
      v,
      ground arith,
      sym (ap (λ t. if t then drop 1 (contents l) else contents l) few),
      sym (ap (λ t. (l.overflow + (if t then 1 else 0)) % 2 ^ 32) few ∙ omega arith),
    )

make_room-Roomy :
    (a : Auditor) (l : TxnLog) → IsValid l → l.overflow < 2 ^ 32 → Roomy l (make_room a l).1
make_room-Roomy a l v o = elim (Bool-cases (leb txn_log_entries (txn_log_get_depth l))) [
  | inl full ↦
      let (e, d) = make_room-full a l v full in subst (Roomy l) (sym e) (drop_oldest-Roomy l v d)
  | inr space ↦ subst (Roomy l) (sym (make_room-space a l space)) (space-Roomy l v o space)
]

-- On a valid log, `log_transaction` of an entry leaves a valid log that holds the entries of
-- before, without the oldest if there were 256, and then the new entry, stamped with the running
-- task when it named none; the overflow count goes up by one, modulo 2^32, exactly when the oldest
-- entry was dropped.
pub log_transaction_lem :
    (a : Auditor) (l : TxnLog) (current : Option Task) (e : TxnEntry)
    → IsValid l
    → l.overflow < 2 ^ 32
    → IsValid (log_transaction a l current (some e)).log
      × (contents (log_transaction a l current (some e)).log
          ≡ trimmed (contents l) ++ stamp current e ∷ [])
      × ((log_transaction a l current (some e)).log.overflow
          ≡ (l.overflow + excess (contents l)) % 2 ^ 32)
unfolding log_transaction
log_transaction_lem a l current e v o =
    let l' = (make_room a l).1 in
    let e' = stamp current e in
    let (v', room, es, n) = make_room-Roomy a l v o in
    (
      store-IsValid l' e' v' room,
      contents-store l' e' v' room ∙ ap (λ xs. xs ++ e' ∷ []) es,
      overflow-store l' e' ∙ n,
    )
