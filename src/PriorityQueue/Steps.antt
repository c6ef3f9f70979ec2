-- ===== src/PriorityQueue/Steps.antt =====
-- services/scheduler/utils.c: what one push or pop does to the array.
use lugh_os.Base.{
  ℕ, zero, suc, ◌-◌, min, ◌^◌, ◌≤◌, ◌<◌, ltb, leb, ◌==◌, pos, neg, true, false, List, [], ◌∷◌, ◌++◌,
  length, length-append, get_or, set, get_or-set_self, length-set, ◌≡◌, refl, sym, ap, ap₂, subst,
  ◌∙◌, arith, inl, inr, Bool-cases, ==_iff, ==_refl,
}
use lugh_os.Messages.{Message, blank}
use lugh_os.PriorityQueue.{
  PriorityQueue, Queued, max_queue_size, queue_push, queue_pop, shift, pull,
}
use lugh_os.PriorityQueue.Insert.{insert, Sorted, placed, placed-insert, set-middle, one_more}

get_or-after {ℓ} :
    {A : Type ℓ} (xs ys : List A) (x y d : A) → get_or (xs ++ x ∷ y ∷ ys) (suc (length xs)) d ≡ y
get_or-after [] ys x y d = refl
get_or-after (w ∷ xs) ys x y d = get_or-after xs ys x y d

pull_step :
    (ys ws : List Message) (x v : Message) (k : ℕ)
    → pull (ys ++ x ∷ v ∷ ws) (length ys) (suc k) ≡ pull (ys ++ v ∷ v ∷ ws) (suc (length ys)) k
unfolding pull
pull_step ys ws x v k =
    ap (λ t. pull t (suc (length ys)) k)
      (ap (set (ys ++ x ∷ v ∷ ws) (length ys)) (get_or-after ys ws x v blank)
        ∙ set-middle ys (v ∷ ws) x v)

-- The loop of `queue_pop` drops the entry behind `ys` and leaves a slot free at the end.
pull-front :
    (ys xs zs : List Message) (x : Message)
    → (w : Message) × (pull (ys ++ x ∷ (xs ++ zs)) (length ys) (length xs) ≡ ys ++ (xs ++ w ∷ zs))
unfolding pull
pull-front ys [] zs x = (x, refl)
pull-front ys (v ∷ xs) zs x =
    let (w, rest) = pull-front (ys ++ v ∷ []) xs zs v in
    let next : length (ys ++ v ∷ []) ≡ suc (length ys) = omega (arith, length-append ys (v ∷ [])) in
    (
      w,
      pull_step ys (xs ++ zs) x v (length xs)
          ∙ subst (λ k. pull (ys ++ v ∷ v ∷ (xs ++ zs)) k (length xs) ≡ ys ++ v ∷ (xs ++ w ∷ zs))
              next
              (ap (λ t. pull t (length (ys ++ v ∷ [])) (length xs))
                  (sym (one_more ys (v ∷ (xs ++ zs)) v))
                ∙ rest
                ∙ one_more ys (xs ++ w ∷ zs) v),
    )

shift_kept :
    (n : ℕ) (ms : List Message) (p : ℕ)
    → ((shift ms n p).1 ≤ n) × (length (shift ms n p).0 ≡ length ms)
unfolding shift
shift_kept zero ms p = (omega arith, refl)
shift_kept (suc n) ms p =
    let moved = set ms (suc n) (get_or ms n blank) in
    let (l, e) = shift_kept n moved p in
    elim (Bool-cases (ltb p (get_or ms n blank).priority)) [
      | inl up ↦ rw up (omega (arith, l), e ∙ length-set ms (suc n) (get_or ms n blank))
      | inr stop ↦ rw stop (omega arith, refl)
    ]

stored :
    (ms : List Message) (n : ℕ) (m : Message)
    → n < length ms
    → get_or (placed ms n m) (shift ms n m.priority).1 blank ≡ m
stored ms n m l =
    let (b, e) = shift_kept n ms m.priority in
    get_or-set_self (shift ms n m.priority).0 (shift ms n m.priority).1 m blank
      (omega (arith, l, b, e))

module _ (payload_checksum : List ℕ → ℕ) where
  abbrev pub Sealed : Message → Type 0
  Sealed m = payload_checksum m.payload ≡ m.checksum

  abbrev pub seal : Message → Message
  seal m = record m { checksum = payload_checksum m.payload }

  pub push_full :
      (q : PriorityQueue) (m : Message)
      → q.count ≡ max_queue_size
      → queue_push payload_checksum q m ≡ record { rv = neg 1; msg = m; queue = q }
  unfolding queue_push
  push_full q m e = rw (let f : leb max_queue_size q.count ≡ true = ground (arith, e) in f) refl

  -- With room, the call stores the sealed message where the insertion puts it.
  pub push_room :
      (q : PriorityQueue) (m y : Message) (xs zs : List Message)
      → q.messages ≡ xs ++ y ∷ zs
      → q.count ≡ length xs
      → length xs < max_queue_size
      → Sorted xs
      → queue_push payload_checksum q m ≡ record {
        rv = pos 0;
        msg = seal m;
        queue = record { messages = insert (seal m) xs ++ zs; count = suc q.count };
      }
  unfolding queue_push
  push_room q m y xs zs e n l s =
      let c = payload_checksum m.payload in
      let some_room : leb max_queue_size q.count ≡ false = ground (arith, n) in
      let small : (q.count == 2 ^ 31 - 1) ≡ false = ground (arith, n) in
      let inside : q.count < length q.messages =
        omega (arith, n, ap length e, length-append xs (y ∷ zs)) in
      let put : placed q.messages q.count (seal m) ≡ insert (seal m) xs ++ zs =
        ap₂ (λ t. λ k. placed t k (seal m)) e n
        ∙ placed-insert (length xs) xs zs y (seal m) refl s in
      rw some_room (
        rw small (
          rw (stored q.messages q.count (seal m) inside) (
            rw (==_refl c) (
              ap
                (λ t.
                  let r : Queued = record {
                    rv = pos 0;
                    msg = seal m;
                    queue = record { messages = t; count = suc q.count };
                  } in
                  r)
                put))))

  pub pop_none :
      (q : PriorityQueue) (m : Message)
      → q.count ≡ 0
      → queue_pop payload_checksum q m ≡ record { rv = neg 1; msg = m; queue = q }
  unfolding queue_pop
  pop_none q m n = rw (let e : (q.count == 0) ≡ true = ground (arith, n) in e) refl

  -- A pop of a sealed message at the front gives it and moves the others down.
  pub pop_some :
      (q : PriorityQueue) (m x : Message) (xs zs : List Message)
      → q.messages ≡ x ∷ (xs ++ zs)
      → q.count ≡ suc (length xs)
      → q.count ≤ max_queue_size
      → Sealed x
      → (w : Message) × (queue_pop payload_checksum q m ≡ record {
        rv = pos 0;
        msg = x;
        queue = record { messages = xs ++ w ∷ zs; count = length xs };
      })
  unfolding queue_pop
  pop_some q m x xs zs e n b s =
      let (w, moved) = pull-front [] xs zs x in
      let some_there : (q.count == 0) ≡ false = ground (arith, n) in
      let good : (payload_checksum x.payload == x.checksum) ≡ true = (==_iff _ _).1 s in
      let less : q.count - 1 ≡ length xs = omega (arith, n) in
      let moves : min q.count max_queue_size - 1 ≡ length xs = omega (arith, n, b) in
      (
        w,
        rw some_there (
            rw e (
              rw good (
                rw moves (
                  rw less (
                    ap
                      (λ t.
                        let r : Queued = record {
                          rv = pos 0;
                          msg = x;
                          queue = record { messages = t; count = length xs };
                        } in
                        r)
                      moved))))),
      )
