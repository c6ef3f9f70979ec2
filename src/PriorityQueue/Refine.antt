-- ===== src/PriorityQueue/Refine.antt =====
-- services/scheduler/utils.c: the array queue against a list kept in order.
use lugh_os.Base.{
  ℕ, suc, ◌≤◌, ◌<◌, ltb, if◌then◌else◌, true, List, [], ◌∷◌, ◌++◌, length, length-append, All, ◌≡◌,
  refl, ap, ap₂, arith, inl, inr, Bool-cases, is_ok,
}
use lugh_os.Messages.{Message, blank}
use lugh_os.PriorityQueue.{PriorityQueue, max_queue_size, queue_init, queue_push, queue_pop}
use lugh_os.PriorityQueue.Insert.{insert, Sorted, insert-length, insert-Sorted, insert-All}
use lugh_os.PriorityQueue.Steps.{Sealed, seal, push_full, push_room, pop_none, pop_some}

-- The call the client makes, and what it sees: the result and, from a pop that succeeds, the message.
pub data Call : Type 0 where
  push : Message → Call
  pop : Call

pub data Seen : Type 0 where
  pushed : Seen
  popped : Message → Seen
  refused : Seen

module _ (payload_checksum : List ℕ → ℕ) where
  -- The array holds these messages, in this order, at its front.
  pub record Represents (q : PriorityQueue) (xs : List Message) : Type 0 where
    pub room : length q.messages ≡ max_queue_size
    pub number : q.count ≡ length xs
    pub bound : length xs ≤ max_queue_size
    pub front : (zs : List Message) × (q.messages ≡ xs ++ zs)
    pub sorted : Sorted xs
    pub sealed : All (Sealed payload_checksum) xs

  pub step : PriorityQueue → Call → Seen × PriorityQueue
  step q (push m) =
      let r = queue_push payload_checksum q m in (if is_ok r.rv then pushed else refused, r.queue)
  step q pop =
      let r = queue_pop payload_checksum q blank in
      (if is_ok r.rv then popped r.msg else refused, r.queue)

  pub run : PriorityQueue → List Call → List Seen
  run q [] = []
  run q (c ∷ cs) = (step q c).0 ∷ run (step q c).1 cs

  -- The queue as a list in order, of at most 1024 messages.
  unfoldable pub list_step : List Message → Call → Seen × List Message
  list_step xs (push m) =
      if ltb (length xs) max_queue_size
      then (pushed, insert (seal payload_checksum m) xs)
      else (refused, xs)
  list_step [] pop = (refused, [])
  list_step (x ∷ xs) pop = (popped x, xs)

  unfoldable pub list_run : List Message → List Call → List Seen
  list_run xs [] = []
  list_run xs (c ∷ cs) = (list_step xs c).0 ∷ list_run (list_step xs c).1 cs

  abbrev Simulates : PriorityQueue → List Message → Call → Type 0
  Simulates q xs c =
      ((step q c).0 ≡ (list_step xs c).0) × Represents (step q c).1 (list_step xs c).1

  push-Represents :
      (q : PriorityQueue) (m y : Message) (xs zs : List Message)
      → Represents q xs
      → q.messages ≡ xs ++ y ∷ zs
      → length xs < max_queue_size
      → Represents
          (record { messages = insert (seal payload_checksum m) xs ++ zs; count = suc q.count })
          (insert (seal payload_checksum m) xs)
  push-Represents q m y xs zs r e l = record {
    room = omega (
      arith,
      r.room,
      ap length e,
      length-append xs (y ∷ zs),
      length-append (insert (seal payload_checksum m) xs) zs,
      insert-length (seal payload_checksum m) xs,
    );
    number = omega (arith, r.number, insert-length (seal payload_checksum m) xs);
    bound = omega (arith, l, insert-length (seal payload_checksum m) xs);
    front = (zs, refl);
    sorted = insert-Sorted (seal payload_checksum m) xs r.sorted;
    sealed = insert-All (Sealed payload_checksum) (seal payload_checksum m) xs refl r.sealed;
  }

  simulate_room :
      (q : PriorityQueue) (m : Message) (xs zs : List Message)
      → Represents q xs
      → q.messages ≡ xs ++ zs
      → ltb (length xs) max_queue_size ≡ true
      → Simulates q xs (push m)
  unfolding step list_step
  simulate_room q m xs [] r e l =
      let none_left : List Message = [] in
      absurd (ground (arith, l, r.room, ap length e, length-append xs none_left))
  simulate_room q m xs (y ∷ zs) r e l =
      let pushed_in =
        push_room payload_checksum q m y xs zs e r.number (ground (arith, l)) r.sorted in
      rw (l, pushed_in) (refl, push-Represents q m y xs zs r e (ground (arith, l)))

  simulate_push :
      (q : PriorityQueue) (m : Message) (xs : List Message)
      → Represents q xs
      → Simulates q xs (push m)
  unfolding step list_step
  simulate_push q m xs r = elim (Bool-cases (ltb (length xs) max_queue_size)) [
    | inr full ↦
        let e = push_full payload_checksum q m (ground (arith, r.number, r.bound)) in
        rw (full, e) (refl, r)
    | inl room ↦ simulate_room q m xs r.front.0 r r.front.1 room
  ]

  simulate_pop : (q : PriorityQueue) (xs : List Message) → Represents q xs → Simulates q xs pop
  unfolding step list_step
  simulate_pop q [] r = let e = pop_none payload_checksum q blank r.number in rw e (refl, r)
  simulate_pop q (x ∷ xs) r =
      let (zs, e) = r.front in
      let (w, popped_off) =
        pop_some payload_checksum q blank x xs zs e r.number (omega (arith, r.number, r.bound))
          r.sealed.0 in
      rw popped_off (
        refl,
        record {
          room = omega (arith, r.room, ap length e, length-append xs zs, length-append xs (w ∷ zs));
          number = refl;
          bound = omega (arith, r.bound);
          front = (w ∷ zs, refl);
          sorted = r.sorted.1;
          sealed = r.sealed.1;
        },
      )

  simulate : (q : PriorityQueue) (xs : List Message) (c : Call) → Represents q xs → Simulates q xs c
  simulate q xs (push m) r = simulate_push q m xs r
  simulate q xs pop r = simulate_pop q xs r

  run-list_run :
      (q : PriorityQueue) (xs : List Message) (cs : List Call)
      → Represents q xs
      → run q cs ≡ list_run xs cs
  unfolding run list_run
  run-list_run q xs [] r = refl
  run-list_run q xs (c ∷ cs) r =
      let (same, next) = simulate q xs c r in
      ap₂ (λ x. λ ys. x ∷ ys) same (run-list_run (step q c).1 (list_step xs c).1 cs next)

  -- From `queue_init` on, every sequence of pushes and pops gives the caller what a list in order
  -- gives: a push goes behind the messages of the same or a higher priority unless 1024 wait, a
  -- pop takes the first, and no checksum fails.
  pub queue_refines :
      (q : PriorityQueue) (cs : List Call)
      → length q.messages ≡ max_queue_size
      → run (queue_init q) cs ≡ list_run [] cs
  unfolding queue_init
  queue_refines q cs room =
      run-list_run (record q { count = 0 }) [] cs
        record {
          room = room;
          number = refl;
          bound = omega arith;
          front = (q.messages, refl);
          sorted = tt;
          sealed = tt;
        }
