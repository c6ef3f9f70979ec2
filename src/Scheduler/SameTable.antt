-- ===== src/Scheduler/SameTable.antt =====
-- services/scheduler/round_robin.c: the scheduler writes the states of tasks and nothing else.
use lugh_os.Base.{
  ℕ, zero, suc, [], ◌∷◌, leb, if◌then◌else◌, ℤ, pos, negsuc, Bool, true, false, List, length, map,
  set, get_or, length-set, Option, none, some, ◌≡◌, refl, ◌∙◌, ◌⊎◌, inl, inr, Option-cases,
}
use lugh_os.Task.{Task, running, terminated}
use lugh_os.Tasks.{Tasks, task_at, empty_task, task_find}
use lugh_os.Tasks.Family.{IsFamily, IsSameKin, kin-IsFamily}
use lugh_os.Scheduler.{
  Choice, is_ready, is_running, yield_task, advance, rr_scan, rr_schedule, rr_remove_task,
}
use lugh_os.Scheduler.RoundRobin.{yielded, length-yield}

either : {A : Type 0} (Q : A → Type 0) (b : Bool) (x y : A) → Q x → Q y → Q (if b then x else y)
either Q true x y p q = p
either Q false x y p q = q

ℤ-cases : (z : ℤ) → ((k : ℕ) × (z ≡ pos k)) ⊎ ((k : ℕ) × (z ≡ negsuc k))
ℤ-cases (pos k) = inl (k, refl)
ℤ-cases (negsuc k) = inr (k, refl)

-- A table with the same tasks, whatever their states.
pub record IsSameTable (ts us : List Task) : Type 0 where
  pub size : length us ≡ length ts
  pub kin : (k : ℕ) → IsSameKin (get_or ts k empty_task) (get_or us k empty_task)

yield-IsSameKin : (t : Task) → IsSameKin t (yield_task t)
yield-IsSameKin t =
    either (λ u. IsSameKin t u) (is_running t.state) _ _ (refl, refl, refl, refl)
      (refl, refl, refl, refl)

pub yield-IsSameTable : (ts : List Task) → IsSameTable ts (map yield_task ts)
yield-IsSameTable ts = record {
  size = length-yield ts;
  kin = λ k. rw (yielded ts k) (yield-IsSameKin (get_or ts k empty_task));
}

IsSameTable-refl : (ts : List Task) → IsSameTable ts ts
IsSameTable-refl ts = record { size = refl; kin = λ k. (refl, refl, refl, refl) }

IsSameTable-trans :
    (xs ys zs : List Task) → IsSameTable xs ys → IsSameTable ys zs → IsSameTable xs zs
IsSameTable-trans xs ys zs p q = record {
  size = q.size ∙ p.size;
  kin = λ k. (
    (q.kin k).0 ∙ (p.kin k).0,
    (q.kin k).1 ∙ (p.kin k).1,
    (q.kin k).2 ∙ (p.kin k).2,
    (q.kin k).3 ∙ (p.kin k).3,
  );
}

set-IsSameKin :
    (ts : List Task) (i k : ℕ) (u : Task)
    → IsSameKin (get_or ts i empty_task) u
    → IsSameKin (get_or ts k empty_task) (get_or (set ts i u) k empty_task)
set-IsSameKin [] i k u same = (refl, refl, refl, refl)
set-IsSameKin (t ∷ ts) zero zero u same = same
set-IsSameKin (t ∷ ts) zero (suc k) u same = (refl, refl, refl, refl)
set-IsSameKin (t ∷ ts) (suc i) zero u same = (refl, refl, refl, refl)
set-IsSameKin (t ∷ ts) (suc i) (suc k) u same = set-IsSameKin ts i k u same

pub set-IsSameTable :
    (ts : List Task) (i : ℕ) (u : Task)
    → IsSameKin (get_or ts i empty_task) u
    → IsSameTable ts (set ts i u)
set-IsSameTable ts i u same = record {
  size = length-set ts i u;
  kin = λ k. set-IsSameKin ts i k u same;
}

pub same-IsFamily :
    (s : Tasks) (us : List Task)
    → IsSameTable s.tasks us
    → IsFamily s
    → IsFamily (record s { tasks = us })
same-IsFamily s us same f = kin-IsFamily s _ same.size refl f.runs same.kin f

-- A choice of the scheduler, if there is one, is over the same tasks.
abbrev pub KeepsTable : List Task → Option Choice → Type 0
KeepsTable ts none = Unit
KeepsTable ts (some c) = IsSameTable ts c.table

rr_scan-KeepsTable : (m : ℕ) (ts : List Task) (c : ℤ) → KeepsTable ts (rr_scan m ts c)
unfolding rr_scan
rr_scan-KeepsTable zero ts c = IsSameTable-refl ts
rr_scan-KeepsTable (suc m) ts c = elim (ℤ-cases (advance (length ts) c)) [
  | inl (k, e) ↦
      let t = get_or ts k empty_task in
      rw (e, rr_scan)
        (either (KeepsTable ts) (is_ready t.state) _ _
          (set-IsSameTable ts k (record t { state = running }) (refl, refl, refl, refl))
          (rr_scan-KeepsTable m ts (pos k)))
  | inr (k, e) ↦ rw (e, rr_scan) tt
]

after_yield :
    (ts : List Task) (o : Option Choice) → KeepsTable (map yield_task ts) o → KeepsTable ts o
after_yield ts none k = tt
after_yield ts (some c) k =
    IsSameTable-trans ts (map yield_task ts) c.table (yield-IsSameTable ts) k

pub rr_schedule-KeepsTable : (ts : List Task) (c : ℤ) → KeepsTable ts (rr_schedule ts c)
unfolding rr_schedule
rr_schedule-KeepsTable ts c = either (KeepsTable ts) (leb (length ts) 0) _ _ (IsSameTable-refl ts) (
    after_yield ts (rr_scan (length ts) (map yield_task ts) c)
      (rr_scan-KeepsTable (length ts) (map yield_task ts) c))

pub rr_remove_task-IsFamily :
    (s : Tasks) (c : ℤ) (id : ℕ) → IsFamily s → IsFamily (rr_remove_task s c id).1
unfolding rr_remove_task
rr_remove_task-IsFamily s c id f = elim (Option-cases (task_find s id)) [
  | inl e ↦ rw (e, rr_remove_task) f
  | inr (i, e) ↦
      let same =
        set-IsSameTable s.tasks i (record (task_at s i) { state = terminated })
          (refl, refl, refl, refl) in
      rw (e, rr_remove_task) (same-IsFamily s _ same f)
]
