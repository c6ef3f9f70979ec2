-- ===== src/Scheduler/Fairness.antt =====
-- Successive calls of `rr_schedule` (services/scheduler/round_robin.c).
use lugh_os.Base.{
  ℕ, zero, suc, pos, ◌<◌, true, ◌||◌, List, length, map, some, get_or, get_or-set, length-set, ◌≡◌,
  ◌⊎◌, inl, inr, ap, sym, ◌∙◌, arith, subst,
}
use mathlib.Core.Bool.{false≢true}
use native.Mathlib.Decide.{ℕ_discrete}
use lugh_os.Task.{Task, running}
use lugh_os.Tasks.{empty_task}
use lugh_os.Scheduler.{is_ready, is_running, yield_task, rr_schedule}
use lugh_os.Scheduler.RoundRobin.{
  distance, picked, runnable, yielded, length-yield, rr_schedule_lem,
}

-- The table that a pick of slot `k` leaves.
abbrev pub after_pick : List Task → ℕ → List Task
after_pick ts k = (picked (map yield_task ts) k).table

length-after_pick : (ts : List Task) (k : ℕ) → length (after_pick ts k) ≡ length ts
length-after_pick ts k = length-set (map yield_task ts) k _ ∙ length-yield ts

yield-runnable :
    (t : Task)
    → (is_ready (yield_task t).state || is_running (yield_task t).state)
      ≡ (is_ready t.state || is_running t.state)
yield-runnable t = ground arith

-- A pick changes no task from runnable to not, nor the other way.
runnable-after_pick :
    (ts : List Task) (k i : ℕ)
    → k < length ts
    → runnable ts k ≡ true
    → runnable (after_pick ts k) i ≡ runnable ts i
runnable-after_pick ts k i l run =
    let ys = map yield_task ts in
    let t = get_or ys k empty_task in
    let u : Task = record t { state = running } in
    let same = length-yield ts in
    let at = get_or-set ys k i u empty_task (omega (arith, same)) in
    let old =
      ap (λ x. is_ready x.state || is_running x.state) (yielded ts i)
      ∙ yield-runnable (get_or ts i empty_task) in
    elim (ℕ_discrete k i) [
      | yes e ↦
          let here : get_or (after_pick ts k) i empty_task ≡ u = ground (arith, at) in
          ap (λ x. is_ready x.state || is_running x.state) here
          ∙ sym (subst (λ j. runnable ts j ≡ true) e run)
      | no ne ↦
          let there : get_or (after_pick ts k) i empty_task ≡ get_or ys i empty_task =
            ground (arith, at) in
          ap (λ x. is_ready x.state || is_running x.state) there ∙ old
    ]

-- One of the next `f` calls picks slot `i`, and each call until then returns 0.
pub Served : ℕ → List Task → ℕ → ℕ → Type 0
Served zero ts c i = ⊥
Served (suc f) ts c i =
    (k : ℕ) × (rr_schedule ts (pos c) ≡ some (picked (map yield_task ts) k))
    × ((k ≡ i) ⊎ Served f (after_pick ts k) k i)

Served-within :
    (f : ℕ) (ts : List Task) (c i : ℕ)
    → c < length ts
    → i < length ts
    → runnable ts i ≡ true
    → distance (length ts) c i < f
    → Served f ts c i
unfolding Served
Served-within zero ts c i l p run d = absurd (omega arith)
Served-within (suc f) ts c i l p run d = elim (rr_schedule_lem ts c l) [
  | inl (all, (k, lk, e)) ↦ absurd (false≢true (sym (all i p) ∙ run))
  | inr (k, lk, hit, least, e) ↦ (
    k,
    e,
    elim (ℕ_discrete k i) [
      | yes same ↦ inl same
      | no other ↦
          let len = length-after_pick ts k in
          let near = least i p run in
          inr (
            Served-within f (after_pick ts k) k i (omega (arith, len)) (omega (arith, len))
              (runnable-after_pick ts k i lk hit ∙ run)
              (subst (λ n. distance n k i < f) (sym len) (ground arith)))
    ],
  )
]

-- With the cursor inside the table, a task that is READY or RUNNING is picked by one of as many
-- successive calls of `rr_schedule` as the table has tasks, if nothing else changes the table.
pub rr_schedule_fair :
    (ts : List Task) (c i : ℕ)
    → c < length ts
    → i < length ts
    → runnable ts i ≡ true
    → Served (length ts) ts c i
rr_schedule_fair ts c i l p run = Served-within (length ts) ts c i l p run (ground arith)
