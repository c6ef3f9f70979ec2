-- ===== src/Nng/Sockets/Fifo.antt =====
-- kernel/nngcompat.c: the incoming queue of a socket as a list, oldest first.
use lugh_os.Base.{
  ℕ, zero, suc, ◌+◌, ◌-◌, ◌%◌, ◌≤◌, ◌<◌, List, [], ◌∷◌, ◌++◌, length, get_or, set, bit_and, ◌≡◌,
  ◌≢◌, refl, sym, ap, ap₂, ◌∙◌, arith, length-set, get_or-set_self, get_or-set_ne,
}
use lugh_os.Base.Masks.{bit_and-mask}
use lugh_os.Nng.{IncomingQueue, max_queued_msgs}

pub record IsQueue (q : IncomingQueue) : Type 0 where
  pub room : length q.messages ≡ max_queued_msgs
  pub head_in : q.head < max_queued_msgs
  pub bound : q.count ≤ max_queued_msgs
  pub tail_at : q.tail ≡ (q.head + q.count) % max_queued_msgs

-- The `k` messages from slot `h` on, round the end of the array.
abbrev pub entries : List ℕ → ℕ → ℕ → List ℕ
entries ms h zero = []
entries ms h (suc k) = entries ms h k ++ get_or ms ((h + k) % max_queued_msgs) 0 ∷ []

abbrev pub waiting : IncomingQueue → List ℕ
waiting q = entries q.messages q.head q.count

entries-set :
    (ms : List ℕ) (h k w v : ℕ)
    → ((i : ℕ) → i < k → (h + i) % max_queued_msgs ≢ w)
    → entries (set ms w v) h k ≡ entries ms h k
entries-set ms h zero w v away = refl
entries-set ms h (suc k) w v away =
    ap₂ (λ xs x. xs ++ x ∷ []) (entries-set ms h k w v (λ i l. away i (omega arith)))
      (get_or-set_ne ms w ((h + k) % max_queued_msgs) v 0 (λ e. away k (omega arith) (sym e)))

entries_front :
    (ms : List ℕ) (h k : ℕ)
    → h < max_queued_msgs
    → entries ms h (suc k) ≡ get_or ms h 0 ∷ entries ms ((h + 1) % max_queued_msgs) k
entries_front ms h zero l = let e : (h + 0) % max_queued_msgs ≡ h = omega arith in rw e
entries_front ms h (suc k) l =
    let e : (h + suc k) % max_queued_msgs ≡ ((h + 1) % max_queued_msgs + k) % max_queued_msgs =
      omega arith in
    ap₂ (λ xs i. xs ++ get_or ms i 0 ∷ []) (entries_front ms h k l) e

next_index : (i : ℕ) → bit_and (suc i) (max_queued_msgs - 1) ≡ suc i % max_queued_msgs
next_index i = bit_and-mask 4 (suc i)

-- The queue with one message more, and with one less.
abbrev pub enqueued : IncomingQueue → ℕ → IncomingQueue
enqueued q msg = record {
  messages = set q.messages q.tail msg;
  head = q.head;
  tail = bit_and (suc q.tail) (max_queued_msgs - 1);
  count = suc q.count;
}

abbrev pub dequeued : IncomingQueue → IncomingQueue
dequeued q = record {
  messages = set q.messages q.head 0;
  head = bit_and (suc q.head) (max_queued_msgs - 1);
  tail = q.tail;
  count = q.count - 1;
}

pub enqueued-IsQueue :
    (q : IncomingQueue) (msg : ℕ) → IsQueue q → q.count < max_queued_msgs → IsQueue (enqueued q msg)
enqueued-IsQueue q msg v l = record {
  room = length-set q.messages q.tail msg ∙ v.room;
  head_in = v.head_in;
  bound = omega (arith, l);
  tail_at = omega (arith, next_index q.tail, v.tail_at);
}

pub waiting-enqueued :
    (q : IncomingQueue) (msg : ℕ)
    → IsQueue q
    → q.count < max_queued_msgs
    → waiting (enqueued q msg) ≡ waiting q ++ msg ∷ []
waiting-enqueued q msg v l =
    ap₂ (λ xs x. xs ++ x ∷ [])
      (entries-set q.messages q.head q.count q.tail msg
        (λ i m e. omega (arith, v.tail_at, v.head_in, l, e)))
      (ap (λ i. get_or (set q.messages q.tail msg) i 0) (sym v.tail_at)
        ∙ get_or-set_self q.messages q.tail msg 0 (omega (arith, v.tail_at, v.room)))

pub dequeued-IsQueue : (q : IncomingQueue) → IsQueue q → 0 < q.count → IsQueue (dequeued q)
dequeued-IsQueue q v l = record {
  room = length-set q.messages q.head 0 ∙ v.room;
  head_in = omega (arith, next_index q.head);
  bound = omega (arith, v.bound);
  tail_at = omega (arith, next_index q.head, v.tail_at);
}

pub waiting-dequeued :
    (q : IncomingQueue)
    → IsQueue q
    → 0 < q.count
    → waiting q ≡ get_or q.messages q.head 0 ∷ waiting (dequeued q)
waiting-dequeued q v l =
    let one_less : q.count ≡ suc (q.count - 1) = omega (arith, l) in
    let next : (q.head + 1) % max_queued_msgs ≡ bit_and (suc q.head) (max_queued_msgs - 1) =
      omega (arith, next_index q.head) in
    ap (entries q.messages q.head) one_less
    ∙ entries_front q.messages q.head (q.count - 1) v.head_in
    ∙ ap (λ xs. get_or q.messages q.head 0 ∷ xs)
        (sym (
            entries-set q.messages ((q.head + 1) % max_queued_msgs) (q.count - 1) q.head 0
              (λ i m e. omega (arith, v.head_in, v.bound, e)))
          ∙ ap (λ h. entries (set q.messages q.head 0) h (q.count - 1)) next)
