-- ===== src/Scheduler/Priority.antt =====
-- The choice of `priority_schedule` (kernel/sched/priority.c).
use lugh_os.Base.{
  ℕ, zero, suc, ℤ, pos, negsuc, neg, ◌+◌, ◌<◌, Bool, true, false, ◌&&◌, List, [], ◌∷◌, length,
  Option, none, some, get_or, ◌≡◌, ◌⊎◌, inl, inr, refl, ap, sym, ◌∙◌, arith, Bool-cases, &&_iff,
}
use lugh_os.Task.{Task}
use lugh_os.Tasks.{empty_task}
use lugh_os.Scheduler.{is_ready, less, best_from, priority_schedule}

less_irrefl : (a : ℤ) → less a a ≡ false
less_irrefl (pos n) = ground arith
less_irrefl (negsuc n) = ground arith

less_trans : (a b c : ℤ) → less a b ≡ true → less b c ≡ true → less a c ≡ true
less_trans (pos a) (pos b) (pos c) p q = ground arith
less_trans (pos a) (pos b) (negsuc c) p q = q
less_trans (pos a) (negsuc b) c p q = cc
less_trans (negsuc a) (pos b) (pos c) p q = refl
less_trans (negsuc a) (pos b) (negsuc c) p q = cc
less_trans (negsuc a) (negsuc b) (pos c) p q = refl
less_trans (negsuc a) (negsuc b) (negsuc c) p q = ground arith

less_asymm : (a b : ℤ) → less a b ≡ true → less b a ≡ false
less_asymm (pos a) (pos b) p = ground arith
less_asymm (pos a) (negsuc b) p = cc
less_asymm (negsuc a) (pos b) p = refl
less_asymm (negsuc a) (negsuc b) p = ground arith

-- What is below `p` is below what is not below `p`.
less_below : (a b p : ℤ) → less a p ≡ true → less b p ≡ false → less a b ≡ true
less_below (pos a) (pos b) (pos p) h k = ground arith
less_below (pos a) b (negsuc p) h k = cc
less_below (pos a) (negsuc b) (pos p) h k = cc
less_below (negsuc a) (pos b) p h k = refl
less_below (negsuc a) (negsuc b) (pos p) h k = cc
less_below (negsuc a) (negsuc b) (negsuc p) h k = ground arith

abbrev pub ready_slot : List Task → ℕ → Bool
ready_slot ts k = is_ready (get_or ts k empty_task).state

abbrev pub priority_of : List Task → ℕ → ℤ
priority_of ts k = (get_or ts k empty_task).priority

-- Slot `k` is READY with a priority below `p`, none of the READY slots is below it, and those
-- before it are above it.
pub record IsBest (ts : List Task) (p : ℤ) (k : ℕ) : Type 0 where
  pub inside : k < length ts
  pub is_ready_slot : ready_slot ts k ≡ true
  pub below : less (priority_of ts k) p ≡ true
  pub least :
      (m : ℕ)
      → m < length ts
      → ready_slot ts m ≡ true
      → less (priority_of ts m) (priority_of ts k) ≡ false
  pub first :
      (m : ℕ) → m < k → ready_slot ts m ≡ true → less (priority_of ts k) (priority_of ts m) ≡ true

abbrev pub NoneBelow : List Task → ℤ → Type 0
NoneBelow ts p =
    (k : ℕ) → k < length ts → ready_slot ts k ≡ true → less (priority_of ts k) p ≡ false

abbrev pub Found : List Task → ℕ → Option ℕ → ℤ → Option ℕ → Type 0
Found ts i best p r = (NoneBelow ts p × (r ≡ best)) ⊎ ((k : ℕ) × IsBest ts p k × (r ≡ some (i + k)))

head_least :
    (t : Task) (ts : List Task)
    → NoneBelow ts t.priority
    → (m : ℕ) → m < length (t ∷ ts)
    → ready_slot (t ∷ ts) m ≡ true
    → less (priority_of (t ∷ ts) m) t.priority ≡ false
head_least t ts none_below zero l r = less_irrefl t.priority
head_least t ts none_below (suc m) l r = none_below m (omega arith) r

-- The first task wins, and no later one beats it.
head-IsBest :
    (t : Task) (ts : List Task) (p : ℤ)
    → is_ready t.state ≡ true
    → less t.priority p ≡ true
    → NoneBelow ts t.priority
    → IsBest (t ∷ ts) p 0
head-IsBest t ts p r l none_below = record {
  inside = omega arith;
  is_ready_slot = r;
  below = l;
  least = head_least t ts none_below;
  first = λ m h. absurd (omega arith);
}

tail_least :
    (t : Task) (ts : List Task) (q : ℤ) (k : ℕ)
    → IsBest ts q k
    → (is_ready t.state ≡ true → less (priority_of ts k) t.priority ≡ true)
    → (m : ℕ) → m < length (t ∷ ts)
    → ready_slot (t ∷ ts) m ≡ true
    → less (priority_of (t ∷ ts) m) (priority_of ts k) ≡ false
tail_least t ts q k b above zero l r = less_asymm (priority_of ts k) t.priority (above r)
tail_least t ts q k b above (suc m) l r = b.least m (omega arith) r

tail_first :
    (t : Task) (ts : List Task) (q : ℤ) (k : ℕ)
    → IsBest ts q k
    → (is_ready t.state ≡ true → less (priority_of ts k) t.priority ≡ true)
    → (m : ℕ) → m < suc k
    → ready_slot (t ∷ ts) m ≡ true
    → less (priority_of ts k) (priority_of (t ∷ ts) m) ≡ true
tail_first t ts q k b above zero l r = above r
tail_first t ts q k b above (suc m) l r = b.first m (omega arith) r

-- A later task that beats the bound after the first task, whichever that is.
tail-IsBest :
    (t : Task) (ts : List Task) (p q : ℤ) (k : ℕ)
    → IsBest ts q k
    → less (priority_of ts k) p ≡ true
    → (is_ready t.state ≡ true → less (priority_of ts k) t.priority ≡ true)
    → IsBest (t ∷ ts) p (suc k)
tail-IsBest t ts p q k b below above = record {
  inside = (let inside = b.inside in omega arith);
  is_ready_slot = b.is_ready_slot;
  below = below;
  least = tail_least t ts q k b above;
  first = tail_first t ts q k b above;
}

NoneBelow-cons :
    (t : Task) (ts : List Task) (p : ℤ)
    → (is_ready t.state && less t.priority p) ≡ false
    → NoneBelow ts p
    → NoneBelow (t ∷ ts) p
NoneBelow-cons t ts p loses none_below zero l r = ground (arith, loses, r)
NoneBelow-cons t ts p loses none_below (suc k) l r = none_below k (omega arith) r

above_loser :
    (t : Task) (a p : ℤ)
    → (is_ready t.state && less t.priority p) ≡ false
    → less a p ≡ true
    → is_ready t.state ≡ true
    → less a t.priority ≡ true
above_loser t a p loses below r =
    less_below a t.priority p below (sym (ap (λ b. b && less t.priority p) r) ∙ loses)

best_from-wins :
    (t : Task) (ts : List Task) (i : ℕ) (best : Option ℕ) (p : ℤ)
    → (is_ready t.state && less t.priority p) ≡ true
    → best_from (t ∷ ts) i best p ≡ best_from ts (suc i) (some i) t.priority
unfolding best_from
best_from-wins t ts i best p h = rw (h, best_from)

best_from-loses :
    (t : Task) (ts : List Task) (i : ℕ) (best : Option ℕ) (p : ℤ)
    → (is_ready t.state && less t.priority p) ≡ false
    → best_from (t ∷ ts) i best p ≡ best_from ts (suc i) best p
unfolding best_from
best_from-loses t ts i best p h = rw (h, best_from)

slot_suc : (i k : ℕ) → Option.some (suc i + k) ≡ some (i + suc k)
slot_suc i k = ap some (omega arith)

best_from-Found :
    (ts : List Task) (i : ℕ) (best : Option ℕ) (p : ℤ) → Found ts i best p (best_from ts i best p)
unfolding best_from
best_from-Found [] i best p = inl (λ k h. absurd (omega arith), refl)
best_from-Found (t ∷ ts) i best p = elim (Bool-cases (is_ready t.state && less t.priority p)) [
  | inl wins ↦
      let step = best_from-wins t ts i best p wins in
      let (is_r, is_less) = (&&_iff (is_ready t.state) (less t.priority p)).0 wins in
      elim (best_from-Found ts (suc i) (some i) t.priority) [
        | inl (none_below, e) ↦
            inr (0, head-IsBest t ts p is_r is_less none_below, step ∙ e ∙ ap some (omega arith))
        | inr (k, b, e) ↦ inr (
          suc k,
          tail-IsBest t ts p t.priority k b
              (less_trans (priority_of ts k) t.priority p b.below is_less) (λ r. b.below),
          step ∙ e ∙ slot_suc i k,
        )
      ]
  | inr loses ↦
      let step = best_from-loses t ts i best p loses in
      elim (best_from-Found ts (suc i) best p) [
        | inl (none_below, e) ↦ inl (NoneBelow-cons t ts p loses none_below, step ∙ e)
        | inr (k, b, e) ↦ inr (
          suc k,
          tail-IsBest t ts p p k b b.below (above_loser t (priority_of ts k) p loses b.below),
          step ∙ e ∙ slot_suc i k,
        )
      ]
]

-- `priority_schedule` returns -1 and no id exactly when no READY task has a priority below 11;
-- otherwise it returns 0 and the id of a READY task whose priority is below 11, with no READY task
-- below it and every READY task in an earlier slot above it.
pub priority_schedule_lem :
    (ts : List Task)
    → (NoneBelow ts (pos 11) × (priority_schedule ts ≡ (neg 1, none)))
      ⊎ ((k : ℕ) × IsBest ts (pos 11) k
          × (priority_schedule ts ≡ (pos 0, some (get_or ts k empty_task).task_id)))
unfolding priority_schedule
priority_schedule_lem ts = elim (best_from-Found ts 0 none (pos 11)) [
  | inl (none_below, e) ↦ inl (none_below, rw (e, priority_schedule))
  | inr (k, b, e) ↦
      let found : best_from ts 0 none (pos 11) ≡ some k = e ∙ ap some (omega arith) in
      inr (k, b, rw (found, priority_schedule))
]
