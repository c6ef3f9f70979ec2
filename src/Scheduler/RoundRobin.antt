-- ===== src/Scheduler/RoundRobin.antt =====
-- The choice of `rr_schedule` (services/scheduler/round_robin.c).
use lugh_os.Base.{
  ℕ, zero, suc, pos, neg, ◌+◌, ◌-◌, ◌≤◌, ◌<◌, leb, ltb, if◌then◌else◌, Bool, true, false, ◌||◌,
  List, [], ◌∷◌, length, map, Option, none, some, get_or, set, ◌≡◌, ◌⊎◌, inl, inr, refl, ap, sym,
  ◌∙◌, arith, Bool-cases, subst,
}
use mathlib.Core.Bool.{false≢true}
use native.Mathlib.Decide.{dec_lt}
use lugh_os.Task.{Task, running}
use lugh_os.Tasks.{empty_task}
use lugh_os.Scheduler.{Choice, is_ready, is_running, yield_task, advance, rr_scan, rr_schedule}

-- The slot after `c` in a table of `n`, and the one `d` further on.
abbrev pub next_slot : ℕ → ℕ → ℕ
next_slot n c = if leb n (c + 1) then 0 else c + 1

abbrev pub after : ℕ → ℕ → ℕ → ℕ
after n c zero = next_slot n c
after n c (suc d) = after n (next_slot n c) d

-- How many slots a scan that starts after `c` passes before it comes to slot `i`.
abbrev pub distance : ℕ → ℕ → ℕ → ℕ
distance n c i = if ltb c i then i - c - 1 else n + i - c - 1

after_lem :
    (n c d : ℕ)
    → c < n
    → d < n
    → after n c d ≡ (if ltb (c + 1 + d) n then c + 1 + d else c + 1 + d - n)
after_lem n c zero p q = ground arith
after_lem n c (suc d) p q = ground (arith, after_lem n (next_slot n c) d)

after-distance : (n c i : ℕ) → c < n → i < n → after n c (distance n c i) ≡ i
after-distance n c i p q = after_lem n c (distance n c i) p (ground arith) ∙ ground arith

distance-after : (n c d : ℕ) → c < n → d < n → distance n c (after n c d) ≡ d
distance-after n c d p q = ground (arith, after_lem n c d p q)

after-lt : (n c d : ℕ) → c < n → after n c d < n
after-lt n c zero p = ground arith
after-lt n c (suc d) p = after-lt n (next_slot n c) d (ground arith)

abbrev pub ready_at : List Task → ℕ → Bool
ready_at ts k = is_ready (get_or ts k empty_task).state

-- Slot `k` picked: its task runs.
abbrev pub picked : List Task → ℕ → Choice
picked ts k =
    let t = get_or ts k empty_task in
    record {
      rv = pos 0;
      next_id = some t.task_id;
      table = set ts k (record t { state = running });
      cursor = pos k;
    }

abbrev pub Scanned : ℕ → List Task → ℕ → Option Choice → Type 0
Scanned m ts c out =
    (((d : ℕ) → d < m → ready_at ts (after (length ts) c d) ≡ false)
      × ((k : ℕ) × (k < length ts)
          × (out ≡ some (record { rv = neg 1; next_id = none; table = ts; cursor = pos k }))))
    ⊎ ((d : ℕ) × (d < m)
        × (ready_at ts (after (length ts) c d) ≡ true)
        × ((e : ℕ) → e < d → ready_at ts (after (length ts) c e) ≡ false)
        × (out ≡ some (picked ts (after (length ts) c d))))

advance-next_slot : (n c : ℕ) → advance n (pos c) ≡ pos (next_slot n c)
advance-next_slot n c = ground arith

missed_all :
    (ts : List Task) (n c m : ℕ)
    → ready_at ts (next_slot n c) ≡ false
    → ((d : ℕ) → d < m → ready_at ts (after n (next_slot n c) d) ≡ false)
    → (d : ℕ) → d < suc m
    → ready_at ts (after n c d) ≡ false
missed_all ts n c m miss all zero l = miss
missed_all ts n c m miss all (suc d) l = all d (omega arith)

rr_scan-Scanned :
    (m : ℕ) (ts : List Task) (c : ℕ) → c < length ts → Scanned m ts c (rr_scan m ts (pos c))
unfolding rr_scan
rr_scan-Scanned zero ts c l = inl (λ d p. absurd (omega arith), (c, l, refl))
rr_scan-Scanned (suc m) ts c l =
    let k = next_slot (length ts) c in
    elim (Bool-cases (ready_at ts k)) [
      | inl hit ↦ inr (
        0,
        omega arith,
        hit,
        λ e p. absurd (omega arith),
        rw (advance-next_slot (length ts) c, rr_scan, hit),
      )
      | inr miss ↦
          let step : rr_scan (suc m) ts (pos c) ≡ rr_scan m ts (pos k) =
            rw (advance-next_slot (length ts) c, rr_scan, miss) in
          elim (rr_scan-Scanned m ts k (ground arith)) [
            | inl (all, (j, lj, e)) ↦
                inl (missed_all ts (length ts) c m miss all, (j, lj, step ∙ e))
            | inr (d, ld, hit, before, e) ↦
                inr (suc d, omega arith, hit, missed_all ts (length ts) c d miss before, step ∙ e)
          ]
    ]

-- The task may run: it is READY, or it is RUNNING and about to yield.
abbrev pub runnable : List Task → ℕ → Bool
runnable ts i = let st = (get_or ts i empty_task).state in is_ready st || is_running st

pub yielded :
    (ts : List Task) (i : ℕ)
    → get_or (map yield_task ts) i empty_task ≡ yield_task (get_or ts i empty_task)
yielded [] i = refl
yielded (t ∷ ts) zero = refl
yielded (t ∷ ts) (suc i) = yielded ts i

pub length-yield : (ts : List Task) → length (map yield_task ts) ≡ length ts
length-yield [] = refl
length-yield (t ∷ ts) = ap suc (length-yield ts)

ready-yield : (t : Task) → is_ready (yield_task t).state ≡ (is_ready t.state || is_running t.state)
ready-yield t = ground arith

ready_at-yielded : (ts : List Task) (i : ℕ) → ready_at (map yield_task ts) i ≡ runnable ts i
ready_at-yielded ts i =
    ap (λ t. is_ready t.state) (yielded ts i) ∙ ready-yield (get_or ts i empty_task)

missed :
    (ts : List Task) (c d : ℕ)
    → ready_at (map yield_task ts) (after (length (map yield_task ts)) c d) ≡ false
    → runnable ts (after (length ts) c d) ≡ false
missed ts c d h =
    sym (ready_at-yielded ts (after (length ts) c d))
    ∙ subst (λ m. ready_at (map yield_task ts) (after m c d) ≡ false) (length-yield ts) h

-- A scan of the whole table that finds nothing has passed every slot.
none_runnable :
    (ts : List Task) (c : ℕ)
    → c < length ts
    → ((d : ℕ) → d < length ts → runnable ts (after (length ts) c d) ≡ false)
    → (i : ℕ) → i < length ts
    → runnable ts i ≡ false
none_runnable ts c l all i p =
    subst (λ j. runnable ts j ≡ false) (after-distance (length ts) c i l p)
      (all (distance (length ts) c i) (ground arith))

-- Where the slots before the `d`-th do not run, none that runs is nearer.
first_runnable :
    (ts : List Task) (c d : ℕ)
    → c < length ts
    → d < length ts
    → ((e : ℕ) → e < d → runnable ts (after (length ts) c e) ≡ false)
    → (i : ℕ) → i < length ts
    → runnable ts i ≡ true
    → distance (length ts) c (after (length ts) c d) ≤ distance (length ts) c i
first_runnable ts c d l ld before i p run = elim (dec_lt (distance (length ts) c i) d) [
  | yes near ↦
      let passed =
        subst (λ j. runnable ts j ≡ false) (after-distance (length ts) c i l p)
          (before (distance (length ts) c i) near) in
      absurd (false≢true (sym passed ∙ run))
  | no far ↦ omega (arith, distance-after (length ts) c d l ld)
]

-- On a table of tasks with the cursor inside it, `rr_schedule` returns 0 exactly when some task is
-- READY or RUNNING: it then picks the first such task after the cursor, going round, returns its
-- id, makes it the one RUNNING task and moves the cursor to it; every task that was RUNNING is
-- READY again. With no such task it returns -1, and only those states change.
pub rr_schedule_lem :
    (ts : List Task) (c : ℕ)
    → c < length ts
    → (((i : ℕ) → i < length ts → runnable ts i ≡ false)
        × ((k : ℕ) × (k < length ts)
            × (rr_schedule ts (pos c)
                ≡ some (record {
                  rv = neg 1;
                  next_id = none;
                  table = map yield_task ts;
                  cursor = pos k;
                }))))
      ⊎ ((k : ℕ) × (k < length ts)
          × (runnable ts k ≡ true)
          × ((i : ℕ)
              → i < length ts
              → runnable ts i ≡ true
              → distance (length ts) c k ≤ distance (length ts) c i)
          × (rr_schedule ts (pos c) ≡ some (picked (map yield_task ts) k)))
unfolding rr_schedule
rr_schedule_lem ts c l =
    let ys = map yield_task ts in
    let n = length ts in
    let same = length-yield ts in
    let open_table : leb n 0 ≡ false = ground arith in
    elim (rr_scan-Scanned n ys c (omega (arith, same))) [
      | inl (all, (k, lk, e)) ↦ inl (
        none_runnable ts c l (λ d p. missed ts c d (all d p)),
        (k, omega (arith, same), simp open_table e),
      )
      | inr (d, ld, hit, before, e) ↦
          let k = after n c d in
          let run =
            sym (ready_at-yielded ts k) ∙ subst (λ m. ready_at ys (after m c d) ≡ true) same hit in
          let result : rr_scan n ys (pos c) ≡ some (picked ys k) =
            subst (λ m. rr_scan n ys (pos c) ≡ some (picked ys (after m c d))) same e in
          inr (
            k,
            after-lt n c d l,
            run,
            first_runnable ts c d l ld (λ x p. missed ts c x (before x p)),
            simp open_table result,
          )
    ]
