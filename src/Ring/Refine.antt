-- ===== src/Ring/Refine.antt =====
-- kernel/ring_buffer.c against a first-in first-out queue.
use lugh_os.Base.{
  ℕ, zero, suc, ◌+◌, ◌-◌, ◌%◌, ◌^◌, ◌<◌, ◌==◌, ltb, if◌then◌else◌, List, [], ◌∷◌, ◌++◌, get_or, set,
  length, length-set, length-append, get_or-set_self, get_or-set_ne, Option, none, some, ◌≡◌, ◌≢◌,
  refl, false, true, ap, ap₂, ◌∙◌, sym, arith, Bool-cases, inl, inr,
}
use lugh_os.Base.Masks.{bit_and-mask}
use lugh_os.Messages.{Message, blank}
use lugh_os.Ring.{Ring, ring_init, bump, ring_push, ring_pop, ring_len, ring_capacity}

pub record IsValid (r : Ring) : Type 0 where
  pub storage : length r.buf ≡ ring_capacity
  pub head_in : r.head < ring_capacity
  pub tail_in : r.tail < ring_capacity

-- The abstract queue: oldest first, with the number of messages dropped.
pub record Queue : Type 0 where
  pub items : List Message
  pub dropped : ℕ

-- One slot stays empty, so the queue holds at most 255 messages.
abbrev pub push : Queue → Message → ℕ × Queue
push q m =
    if ltb (length q.items) (ring_capacity - 1)
    then (1, record q { items = q.items ++ m ∷ [] })
    else (0, record q { dropped = (q.dropped + 1) % 2 ^ 32 })

pop_items : ℕ → List Message → Option Message × Queue
pop_items d [] = (none, record { items = []; dropped = d })
pop_items d (m ∷ ms) = (some m, record { items = ms; dropped = d })

pub pop : Queue → Option Message × Queue
pop q = pop_items q.dropped q.items

-- The `n` messages from slot `h` on, going round at the capacity.
abbrev pub window : List Message → ℕ → ℕ → List Message
window buf h zero = []
window buf h (suc n) = window buf h n ++ get_or buf ((h + n) % ring_capacity) blank ∷ []

abbrev pub depth : Ring → ℕ
depth r = (r.head + ring_capacity - r.tail) % ring_capacity

abbrev pub contents : Ring → Queue
contents r = record { items = window r.buf r.tail (depth r); dropped = r.overflow }

pub length-window : (buf : List Message) (h n : ℕ) → length (window buf h n) ≡ n
length-window buf h zero = refl
length-window buf h (suc n) = omega (
  arith,
  length-append (window buf h n) (get_or buf ((h + n) % ring_capacity) blank ∷ []),
  length-window buf h n,
)

-- A write at a slot outside the window leaves it as it is.
window-set :
    (buf : List Message) (h n w : ℕ) (m : Message)
    → ((i : ℕ) → i < n → (h + i) % ring_capacity ≢ w)
    → window (set buf w m) h n ≡ window buf h n
window-set buf h zero w m away = refl
window-set buf h (suc n) w m away =
    ap₂ (λ xs x. xs ++ x ∷ []) (window-set buf h n w m (λ i l. away i (omega arith)))
      (get_or-set_ne buf w ((h + n) % ring_capacity) m blank (λ e. away n (omega arith) (sym e)))

-- A window is its first message and the window from the next slot on.
window_front :
    (buf : List Message) (h n : ℕ)
    → h < ring_capacity
    → window buf h (suc n) ≡ get_or buf h blank ∷ window buf ((h + 1) % ring_capacity) n
window_front buf h zero l = let e : (h + 0) % ring_capacity ≡ h = omega arith in rw e
window_front buf h (suc n) l =
    let e : (h + suc n) % ring_capacity ≡ ((h + 1) % ring_capacity + n) % ring_capacity =
      omega arith in
    ap₂ (λ xs i. xs ++ get_or buf i blank ∷ []) (window_front buf h n l) e

pub bump_lem : (i : ℕ) → i < ring_capacity → bump i ≡ (i + 1) % ring_capacity
bump_lem i h = bit_and-mask 8 ((i + 1) % 2 ^ 32) ∙ omega arith

pub push-IsValid : (r : Ring) (m : Message) → IsValid r → IsValid (ring_push r m).1
unfolding ring_push
push-IsValid r m v = ground (arith, length-set r.buf r.head m, bump_lem r.head v.head_in)

pub pop-IsValid : (r : Ring) → IsValid r → IsValid (ring_pop r).1
unfolding ring_pop
pop-IsValid r v = ground (arith, bump_lem r.tail v.tail_in)

-- On a valid ring `ring_len` is the number of messages stored.
pub ring_len-length : (r : Ring) → IsValid r → ring_len r ≡ length (contents r).items
unfolding ring_len
ring_len-length r v =
    bit_and-mask 8 ((r.head + 2 ^ 32 - r.tail) % 2 ^ 32)
    ∙ omega (arith, v.head_in, v.tail_in, length-window r.buf r.tail (depth r))

depth-bump :
    (r : Ring)
    → IsValid r
    → bump r.head ≢ r.tail
    → (bump r.head + ring_capacity - r.tail) % ring_capacity ≡ suc (depth r)
depth-bump r v ne = omega (arith, bump_lem r.head v.head_in, v.head_in, v.tail_in)

stored :
    (r : Ring) (m : Message)
    → IsValid r
    → bump r.head ≢ r.tail
    → window (set r.buf r.head m) r.tail (suc (depth r)) ≡ window r.buf r.tail (depth r) ++ m ∷ []
stored r m v ne =
    let last : (r.tail + depth r) % ring_capacity ≡ r.head = omega (arith, v.head_in, v.tail_in) in
    ap₂ (λ xs x. xs ++ x ∷ [])
      (window-set r.buf r.tail (depth r) r.head m (λ i l. omega (arith, v.head_in, v.tail_in)))
      (ap (λ i. get_or (set r.buf r.head m) i blank) last
        ∙ get_or-set_self r.buf r.head m blank (omega (arith, v.storage, v.head_in)))

pub push_refines :
    (r : Ring) (m : Message)
    → IsValid r
    → ((ring_push r m).0, contents (ring_push r m).1) ≡ push (contents r) m
unfolding ring_push
push_refines r m v = elim (Bool-cases (bump r.head == r.tail)) [
  | inl full ↦
      let many : ltb (length (contents r).items) (ring_capacity - 1) ≡ false =
        ground
          (arith, length-window r.buf r.tail (depth r), bump_lem r.head v.head_in, v.tail_in) in
      rw (full, many)
  | inr space ↦
      let few : ltb (length (contents r).items) (ring_capacity - 1) ≡ true = ground (
        arith,
        length-window r.buf r.tail (depth r),
        bump_lem r.head v.head_in,
        v.tail_in,
        v.head_in,
      ) in
      let ne : bump r.head ≢ r.tail = ground arith in
      rw (space, few)
        (ap (λ xs. (1, record { items = xs; dropped = r.overflow }))
          (ap (window (set r.buf r.head m) r.tail) (depth-bump r v ne) ∙ stored r m v ne))
]

pub pop_refines :
    (r : Ring) → IsValid r → ((ring_pop r).0, contents (ring_pop r).1) ≡ pop (contents r)
unfolding ring_pop pop pop_items
pop_refines r v = elim (Bool-cases (r.head == r.tail)) [
  | inl empty ↦ let none_left : depth r ≡ 0 = ground (arith, v.head_in) in rw (empty, none_left)
  | inr some_left ↦
      let n = (r.head + ring_capacity - bump r.tail) % ring_capacity in
      let more : depth r ≡ suc n =
        ground (arith, bump_lem r.tail v.tail_in, v.head_in, v.tail_in) in
      rw (some_left, more, window_front r.buf r.tail n v.tail_in, bump_lem r.tail v.tail_in)
]

-- A client's calls in order, with what each returns.
pub data Op : Type 0 where
  put : Message → Op
  get : Op

pub data Reply : Type 0 where
  stored_flag : ℕ → Reply
  taken : Option Message → Reply

pub run : Ring → List Op → List Reply
run r [] = []
run r (put m ∷ ops) = stored_flag (ring_push r m).0 ∷ run (ring_push r m).1 ops
run r (get ∷ ops) = taken (ring_pop r).0 ∷ run (ring_pop r).1 ops

pub run_queue : Queue → List Op → List Reply
run_queue q [] = []
run_queue q (put m ∷ ops) = stored_flag (push q m).0 ∷ run_queue (push q m).1 ops
run_queue q (get ∷ ops) = taken (pop q).0 ∷ run_queue (pop q).1 ops

-- No sequence of pushes and pops tells a valid ring from a first-in first-out queue of at most
-- 255 messages that refuses the newest when it is full.
pub run_refines : (ops : List Op) (r : Ring) → IsValid r → run r ops ≡ run_queue (contents r) ops
unfolding run run_queue
run_refines [] r v = refl
run_refines (put m ∷ ops) r v =
    let e = push_refines r m v in
    ap₂ (λ s rest. stored_flag s ∷ rest) (ap (λ p. p.0) e)
      (run_refines ops (ring_push r m).1 (push-IsValid r m v) ∙ ap (λ p. run_queue p.1 ops) e)
run_refines (get ∷ ops) r v =
    let e = pop_refines r v in
    ap₂ (λ s rest. taken s ∷ rest) (ap (λ p. p.0) e)
      (run_refines ops (ring_pop r).1 (pop-IsValid r v) ∙ ap (λ p. run_queue p.1 ops) e)

pub ring_init-IsValid :
    (r : Ring)
    → length r.buf ≡ ring_capacity
    → IsValid (ring_init r) × ((contents (ring_init r)).items ≡ [])
unfolding ring_init
ring_init-IsValid r h = (record { storage = h; head_in = omega arith; tail_in = omega arith }, refl)

pub ring_pop-empty : (r : Ring) → IsValid r → (contents r).items ≡ [] → (ring_pop r).0 ≡ none
unfolding pop pop_items
ring_pop-empty r v e = ap (λ p. p.0) (pop_refines r v) ∙ ap (λ xs. (pop_items r.overflow xs).0) e

pub ring_pop-front :
    (r : Ring) (m : Message) (ms : List Message)
    → IsValid r
    → (contents r).items ≡ m ∷ ms
    → ((ring_pop r).0 ≡ some m)
      × ((contents (ring_pop r).1).items ≡ ms)
      × ((ring_pop r).1.overflow ≡ r.overflow)
unfolding pop pop_items
ring_pop-front r m ms v e =
    let q = pop_refines r v in
    (
      ap (λ p. p.0) q ∙ ap (λ xs. (pop_items r.overflow xs).0) e,
      ap (λ p. p.1.items) q ∙ ap (λ xs. (pop_items r.overflow xs).1.items) e,
      ap (λ p. p.1.dropped) q ∙ ap (λ xs. (pop_items r.overflow xs).1.dropped) e,
    )
